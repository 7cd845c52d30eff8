-- ===== src/Reenroll/Adds.antt =====
-- What a repair adds to the trace, the start of systemd-cryptenroll included.
use tpm2_autoenroll.Base.{
  Bool-cases, Option-cases, is_empty, Bytes, ℕ, inl, inr, Bool, true, false, not, ◌&&◌, Option,
  none, some, List,
}
use tpm2_autoenroll.Base.Results.{Result, ok, err}
use tpm2_autoenroll.Os.{Os, Sys, Event, spawned}
use tpm2_autoenroll.Os.Adds.{Adds, Allows, Extends, Extends-trans, Adds-then, Adds-with, Adds-value}
use tpm2_autoenroll.Acquire.{terminating}
use tpm2_autoenroll.Acquire.Adds.{Adds-terminating}
use tpm2_autoenroll.Config.{Volume}
use tpm2_autoenroll.Consent.{Decisions}
use tpm2_autoenroll.Consent.Adds.{Adds-ask_consent}
use tpm2_autoenroll.Consent
use tpm2_autoenroll.Device.{Device}
use tpm2_autoenroll.Drift
use tpm2_autoenroll.Drift.Adds.{Adds-check_drift}
use tpm2_autoenroll.Enroll.{EnrollError, enroll_command, test_unseal, find_new_token}
use tpm2_autoenroll.Enroll
use tpm2_autoenroll.Enroll.Adds.{Adds-test_unseal, Adds-enroll}
use tpm2_autoenroll.Json.{Json}
use tpm2_autoenroll.Preflight.{Plan, Decision, reenroll, leave, log_state}
use tpm2_autoenroll.Preflight
use tpm2_autoenroll.Preflight.Adds.{Adds-check_preflight, Adds-log_state}
use tpm2_autoenroll.Reenroll.{
  Outcome, reenrolled, wrong_with, policy_verdict, unseal_or_compare, with_new, with_tokens,
  ask_human, may_enroll, heed, verify, after_run, enroll_now, with_leave, with_decision, with_tpm,
  maybe_reenroll,
}
use tpm2_autoenroll.Session.{open_tpm}
use tpm2_autoenroll.Session.Adds.{Adds-open_tpm}
use tpm2_autoenroll.Token.{Tpm2Token}
use tpm2_autoenroll.Token.Read.{ReadError, read}
use tpm2_autoenroll.Token.Read.Adds.{Adds-read}
use tpm2_autoenroll.Wire.{TpmError}

abbrev unless : {os : Os} {A : Type 0} → A → (Sys os → A × Sys os) → Bool × Sys os → A × Sys os
unless a f (stop, s) = elim stop [ true ↦ (a, s) | false ↦ f s ]

-- A call that first asks whether to stop.
Adds-unless :
    {os : Os} {P : Event → Type 0} {A : Type 0} (a : A) (f : Sys os → A × Sys os)
    → Adds P f
    → Adds P (λ s. unless a f (terminating os s))
Adds-unless {os} {P} a f hf = record { at = λ s. rest s (terminating os s).0 }
  where
    rest : (s : Sys os) (b : Bool) → Extends P s (unless a f (b, (terminating os s).1)).1
    rest s true = Adds-terminating.at s
    rest s false = Extends-trans (Adds-terminating.at s) (hf.at (terminating os s).1)

module _ {os : Os} {P : Event → Type 0} (h : Allows P) where
  Adds-unseal_or_compare :
      (new : Tpm2Token) (config : Volume) (tpm : ℕ) (r : Result EnrollError (Unit {0}))
      → Adds P (λ s. unseal_or_compare os new config tpm (r, s))
  unfolding unseal_or_compare
  Adds-unseal_or_compare new config tpm (ok u) = Adds-value _
  Adds-unseal_or_compare new config tpm (err e) =
      Adds-with (Drift.check os tpm new config.pcrs config.bank) (policy_verdict new.index)
        (Adds-check_drift h tpm new config.pcrs config.bank)

  Adds-with_new :
      (o : Option Tpm2Token) (config : Volume) (device : Device) (tpm : ℕ)
      → Adds P (with_new os o config device tpm)
  unfolding with_new
  Adds-with_new none config device tpm = Adds-value _
  Adds-with_new (some new) config device tpm = elim (Option-cases (wrong_with new config)) [
    | inr e ↦ rw (with_new, e.1) (Adds-value _)
    | inl e ↦
        rw (with_new, e)
          (Adds-then (test_unseal os device new.index)
            (λ r s. unseal_or_compare os new config tpm (r, s))
            (Adds-test_unseal h device new.index) (Adds-unseal_or_compare new config tpm))
  ]

  Adds-with_tokens :
      (plan : Plan) (config : Volume) (device : Device) (tpm : ℕ)
      (r : Result ReadError (List Tpm2Token))
      → Adds P (λ s. with_tokens os plan config device tpm (r, s))
  unfolding with_tokens
  Adds-with_tokens plan config device tpm (err e) = Adds-value _
  Adds-with_tokens plan config device tpm (ok tokens) =
      Adds-with_new (find_new_token tokens plan.old_token) config device tpm

  pub Adds-may_enroll :
      (plan : Plan) (config : Volume) (decided : Decisions)
      → Adds P (may_enroll os plan config decided)
  unfolding may_enroll ask_human
  Adds-may_enroll plan config decided =
      elim (Bool-cases (not (is_empty plan.state) && Consent.declined decided plan.state)) [
        | inl e ↦ rw (may_enroll, e) (Adds-value _)
        | inr e ↦ elim (Bool-cases (Consent.accepted decided plan.state)) [
          | inl f ↦ rw (may_enroll, e, f) (Adds-value _)
          | inr f ↦
              rw (may_enroll, e, f)
                (Adds-unless _ _ (
                  Adds-with (Consent.ask os config.name config.device config.pcrs config.bank)
                    (λ said. heed said plan.state decided)
                    (Adds-ask_consent h config.name config.device config.pcrs config.bank)))
        ]
      ]

  pub Adds-after_run :
      (json : Json) (config : Volume) (device : Device) (plan : Plan) (tpm : ℕ)
      (r : Result EnrollError (Unit {0}))
      → Adds P (λ s. after_run os json config device plan tpm (r, s))
  unfolding after_run verify
  Adds-after_run json config device plan tpm (err e) = Adds-value _
  Adds-after_run json config device plan tpm (ok u) =
      Adds-with (verify os json config device plan tpm) reenrolled (
        Adds-then (read os json device) (λ r s. with_tokens os plan config device tpm (r, s))
          (Adds-read json h device) (Adds-with_tokens plan config device tpm))

  module _ (json : Json) (config : Volume) (device : Device) (secret : Bytes)
      (spawns : (key : ℕ)
        → P (spawned (enroll_command device key config.tpm2_device config.pcrs config.bank))) where
    Adds-enroll_now :
        (plan : Plan) (tpm : ℕ) → Adds P (enroll_now os json config device secret plan tpm)
    unfolding enroll_now
    Adds-enroll_now plan tpm = Adds-unless _ _ (
        Adds-then (Enroll.run os device config.tpm2_device config.pcrs config.bank secret)
          (λ r s. after_run os json config device plan tpm (r, s))
          (Adds-enroll h device config.tpm2_device config.pcrs config.bank secret spawns)
          (Adds-after_run json config device plan tpm))

    Adds-with_leave :
        (plan : Plan) (tpm : ℕ) (r : Option Outcome × Decisions)
        → Adds P (λ s. with_leave os json config device secret plan tpm (r, s))
    unfolding with_leave
    Adds-with_leave plan tpm (some why, decided) = Adds-value _
    Adds-with_leave plan tpm (none, decided) =
        Adds-with (enroll_now os json config device secret plan tpm) (λ o. (o, decided))
          (Adds-enroll_now plan tpm)

    Adds-with_decision :
        (decided : Decisions) (tpm : ℕ) (d : Decision)
        → Adds P (λ s. with_decision os json config device secret decided tpm (d, s))
    unfolding with_decision
    Adds-with_decision decided tpm (leave why) = Adds-value _
    Adds-with_decision decided tpm (reenroll plan) =
        Adds-then (log_state os tpm config)
          (λ u s.
            with_leave os json config device secret plan tpm (may_enroll os plan config decided s))
          (Adds-log_state h config tpm)
          (λ u.
            Adds-then (may_enroll os plan config decided)
              (λ r s. with_leave os json config device secret plan tpm (r, s))
              (Adds-may_enroll plan config decided) (Adds-with_leave plan tpm))

    Adds-with_tpm :
        (decided : Decisions) (r : Result TpmError ℕ)
        → Adds P (λ s. with_tpm os json config device secret decided (r, s))
    unfolding with_tpm
    Adds-with_tpm decided (err e) = Adds-value _
    Adds-with_tpm decided (ok tpm) =
        Adds-then (Preflight.check os json config device tpm)
          (λ d s. with_decision os json config device secret decided tpm (d, s))
          (Adds-check_preflight h config tpm json device) (Adds-with_decision decided tpm)

    pub Adds-maybe_reenroll :
        (decided : Decisions) → Adds P (maybe_reenroll os json config device secret decided)
    unfolding maybe_reenroll
    Adds-maybe_reenroll decided = Adds-unless _ _ (
        Adds-then (open_tpm os config.tpm2_device)
          (λ r s. with_tpm os json config device secret decided (r, s))
          (Adds-open_tpm h config.tpm2_device) (Adds-with_tpm decided))

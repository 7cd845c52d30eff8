-- ===== src/Reenroll/Repaired.antt =====
-- A repair that is called for is made.
use tpm2_autoenroll.Base.{
  Bool-cases, is_empty, Bytes, ℕ, ◌≡◌, refl, sym, ap, ◌∙◌, ◌≢◌, ◌⊎◌, inl, inr, false, not, ◌&&◌,
  none,
}
use tpm2_autoenroll.Acquire.{terminating}
use tpm2_autoenroll.Acquire.Adds.{Adds-terminating}
use tpm2_autoenroll.Os.Adds.{Extends, Extends-trans}
use tpm2_autoenroll.Preflight.Adds.{Adds-check_preflight, Adds-log_state}
use tpm2_autoenroll.Session.Adds.{Adds-open_tpm}
use tpm2_autoenroll.Reenroll.Adds.{Adds-after_run, Adds-may_enroll}
use tpm2_autoenroll.Base.Results.{Result, ok, err}
use tpm2_autoenroll.Config.{Volume}
use tpm2_autoenroll.Consent.{Decisions, declined, accepted, Answer, yes_, always}
use tpm2_autoenroll.Device.{Device}
use tpm2_autoenroll.Enroll.{EnrollError}
use tpm2_autoenroll.Enroll
use tpm2_autoenroll.Enroll.Enrolled.{Enrolled, run-Enrolled}
use tpm2_autoenroll.Json.{Json}
use tpm2_autoenroll.Os.{Os, Sys, ask}
use tpm2_autoenroll.Preflight.{Plan, log_state}
use tpm2_autoenroll.Session.{open_tpm}
use tpm2_autoenroll.Preflight
use tpm2_autoenroll.Reenroll.{
  Outcome, Verified, reenrolled, enroll_failed, heed, ask_human, may_enroll, maybe_reenroll,
  with_tpm, with_decision, with_leave, enroll_now, after_run,
}
use tpm2_autoenroll.Reenroll.Granted.{Granted, Agreed, KeepsHeader, KeepsHeader-Allows}

heed-agreed :
    (a : Answer) (state : Bytes) (decided : Decisions)
    → (a ≡ yes_) ⊎ (a ≡ always)
    → (heed a state decided).0 ≡ none
unfolding heed
heed-agreed a state decided (inl e) = rw e refl
heed-agreed a state decided (inr e) = rw e refl

module _ (os : Os) where
  -- On the way from one state to the next, `Enroll.run` was called for the volume, nothing else
  -- started systemd-cryptenroll, and the outcome is how the call went.
  pub record Repaired (config : Volume) (device : Device) (secret : Bytes) (s : Sys os)
      (after : Outcome × Sys os) : Type 0 where
    pub before : Sys os
    pub untouched : Extends KeepsHeader s before
    pub untouched_since :
        Extends KeepsHeader
          (Enroll.run os device config.tpm2_device config.pcrs config.bank secret before).1
          after.1
    pub succeeded :
        (Enroll.run os device config.tpm2_device config.pcrs config.bank secret before).0 ≡ ok tt
        → (v : Verified) × (after.0 ≡ reenrolled v)
          × Enrolled device config.tpm2_device config.pcrs config.bank secret before
              (Enroll.run os device config.tpm2_device config.pcrs config.bank secret before).1
    pub failed :
        (e : EnrollError)
        → (Enroll.run os device config.tpm2_device config.pcrs config.bank secret before).0 ≡ err e
        → after.0 ≡ enroll_failed e

  module _ (going : (w : os.World) → (os.terminate w).0 ≡ false) where
    may_enroll-none :
        (plan : Plan) (config : Volume) (decided : Decisions) (s : Sys os)
        → (not (is_empty plan.state) && declined decided plan.state) ≡ false
        → Agreed plan config decided s
        → (may_enroll os plan config decided s).0.0 ≡ none
    unfolding may_enroll ask_human Agreed
    may_enroll-none plan config decided s fresh (inl e) = rw (may_enroll, fresh, e) refl
    may_enroll-none plan config decided s fresh (inr (on, said)) =
        elim (Bool-cases (accepted decided plan.state)) [
          | inl e ↦ rw (may_enroll, fresh, e) refl
          | inr e ↦ rw (may_enroll, fresh, e, ask_human, on) (heed-agreed _ plan.state decided said)
        ]

    after_run-Repaired :
        (json : Json) (config : Volume) (device : Device) (secret : Bytes) (plan : Plan) (tpm : ℕ)
        (start before : Sys os) (r : Result EnrollError (Unit {0})) (s : Sys os)
        → Extends KeepsHeader start before
        → Enroll.run os device config.tpm2_device config.pcrs config.bank secret before ≡ (r, s)
        → Repaired config device secret start (after_run os json config device plan tpm (r, s))
    unfolding after_run
    after_run-Repaired json config device secret plan tpm start before (ok u) s begun ran = record {
      before = before;
      untouched = begun;
      untouched_since = since ran;
      succeeded = λ e.
          (_, refl, run-Enrolled device config.tpm2_device config.pcrs config.bank secret before e);
      failed = λ e h. absurd (differs (sym (ap (λ p. p.0) ran) ∙ h));
    }
      where
        since :
            {t : Result EnrollError (Unit {0}) × Sys os}
            → t ≡ (ok u, s)
            → Extends KeepsHeader t.1 (after_run os json config device plan tpm (ok u, s)).1
        since e = rw e ((Adds-after_run KeepsHeader-Allows json config device plan tpm (ok u)).at s)

        differs : {e : EnrollError} → ◌≢◌ {A = Result EnrollError (Unit {0})} (ok u) (err e)
        differs h = cc
    after_run-Repaired json config device secret plan tpm start before (err e) s begun ran =
        record {
          before = before;
          untouched = begun;
          untouched_since = since ran;
          succeeded = λ h. absurd (differs (sym (ap (λ p. p.0) ran) ∙ h));
          failed = λ e' h. ap enroll_failed (same (sym (ap (λ p. p.0) ran) ∙ h));
        }
      where
        since :
            {t : Result EnrollError (Unit {0}) × Sys os}
            → t ≡ (err e, s)
            → Extends KeepsHeader t.1 (after_run os json config device plan tpm (err e, s)).1
        since h =
            rw h ((Adds-after_run KeepsHeader-Allows json config device plan tpm (err e)).at s)

        differs : ◌≢◌ {A = Result EnrollError (Unit {0})} (err e) (ok tt)
        differs h = cc

        same :
            {e' : EnrollError} → ◌≡◌ {A = Result EnrollError (Unit {0})} (err e) (err e') → e ≡ e'
        same h = cc

    -- Where no stop is asked for: when there is a stale policy that can be repaired and an agreement
    -- to that, and the repair of this state was not declined before, then `Enroll.run` is called with
    -- the configured TPM, PCRs and bank and the passphrase, systemd-cryptenroll is not started before
    -- or after that call, and what is reported is how the call went; when it succeeded, it started
    -- systemd-cryptenroll once, with the passphrase in a memfd as its key file.
    pub maybe_reenroll-Repaired :
        (json : Json) (config : Volume) (device : Device) (secret : Bytes) (decided : Decisions)
        (s : Sys os) (g : Granted json config device decided s)
        → (not (is_empty g.plan.state) && declined decided g.plan.state) ≡ false
        → let r = maybe_reenroll os json config device secret decided s in
          Repaired config device secret s (r.0.0, r.1)
    unfolding maybe_reenroll with_tpm with_decision with_leave enroll_now terminating ask
    maybe_reenroll-Repaired json config device secret decided s g fresh =
        let h = KeepsHeader-Allows in
        let opened = open_tpm os config.tpm2_device (terminating os s).1 in
        let checked = Preflight.check os json config device g.tpm opened.1 in
        let logged = log_state os g.tpm config checked.1 in
        let allowed = may_enroll os g.plan config decided logged.1 in
        let before = (terminating os allowed.1).1 in
        let begun = Extends-trans (Adds-terminating.at s) (
          Extends-trans ((Adds-open_tpm h config.tpm2_device).at (terminating os s).1) (
            Extends-trans ((Adds-check_preflight h config g.tpm json device).at opened.1) (
              Extends-trans ((Adds-log_state h config g.tpm).at checked.1) (
                Extends-trans ((Adds-may_enroll h g.plan config decided).at logged.1)
                  (Adds-terminating.at allowed.1))))) in
        let ran = Enroll.run os device config.tpm2_device config.pcrs config.bank secret before in
        rw
          (
            maybe_reenroll,
            going s.world,
            g.opened,
            g.planned,
            with_leave,
            may_enroll-none g.plan config decided logged.1 fresh g.agreed,
            enroll_now,
            going allowed.1.world,
          )
          (after_run-Repaired json config device secret g.plan g.tpm s before ran.0 ran.1 begun
            refl)

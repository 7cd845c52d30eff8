-- ===== src/Reenroll/Granted.antt =====
-- A header is rewritten only after the preflight has found it stale and a human has agreed.
use tpm2_autoenroll.Base.{
  Bool-cases, Option-cases, is_empty, Bytes, ℕ, ◌≡◌, refl, ◌≢◌, ◌⊎◌, inl, inr, true, false, not,
  ◌&&◌, none, some,
}
use tpm2_autoenroll.Base.Results.{ok, Result-cases}
use tpm2_autoenroll.Acquire.{terminating}
use tpm2_autoenroll.Acquire.Adds.{Adds-terminating}
use tpm2_autoenroll.Config.{Volume}
use tpm2_autoenroll.Consent.{Decisions, declined, accepted, Answer, no_, yes_, always}
use tpm2_autoenroll.Consent
use tpm2_autoenroll.Consent.Adds.{Adds-ask_consent}
use tpm2_autoenroll.Device.{Device}
use tpm2_autoenroll.Json.{Json}
use tpm2_autoenroll.Os.{Os, Sys, Event, spawned}
use tpm2_autoenroll.Os.Adds.{Allows, Extends, Extends-refl, Extends-trans, is_enroll}
use tpm2_autoenroll.Preflight.{Plan, Decision, Reason, reenroll, leave, log_state}
use tpm2_autoenroll.Preflight
use tpm2_autoenroll.Preflight.Adds.{Adds-check_preflight, Adds-log_state}
use tpm2_autoenroll.Reenroll.{
  heed, ask_human, may_enroll, maybe_reenroll, with_tpm, with_decision, with_leave,
}
use tpm2_autoenroll.Session.{open_tpm}
use tpm2_autoenroll.Session.Adds.{Adds-open_tpm}

-- Anything but the start of systemd-cryptenroll.
pub KeepsHeader : Event → Type 0
KeepsHeader (spawned cmd) = is_enroll cmd ≡ false
KeepsHeader _ = Unit {0}

pub some≢none : {A : Type 0} {a : A} → some a ≢ none
some≢none e = cc

pub KeepsHeader-Allows : Allows KeepsHeader
unfolding KeepsHeader
KeepsHeader-Allows = record { killing = tt; writing = λ fd msg. tt; spawning = λ cmd h. h }

Decision-cases :
    (d : Decision) → ((plan : Plan) × (d ≡ reenroll plan)) ⊎ ((why : Reason) × (d ≡ leave why))
Decision-cases (reenroll plan) = inl (plan, refl)
Decision-cases (leave why) = inr (why, refl)

heed-none :
    (a : Answer) (state : Bytes) (decided : Decisions)
    → (heed a state decided).0 ≡ none
    → (a ≡ yes_) ⊎ (a ≡ always)
unfolding heed
heed-none no_ state decided h = cc
heed-none yes_ state decided h = inl refl
heed-none always state decided h = inr refl

module _ {os : Os} where
  -- Someone said yes: to an earlier volume with this state, or to the question asked now.
  unfoldable pub Agreed : Plan → Volume → Decisions → Sys os → Type 0
  Agreed plan config decided s =
      let asked = terminating os s in
      let said = Consent.ask os config.name config.device config.pcrs config.bank asked.1 in
      (accepted decided plan.state ≡ true)
      ⊎ (asked.0 ≡ false) × ((said.0 ≡ yes_) ⊎ (said.0 ≡ always))

  module _ (plan : Plan) (config : Volume) (decided : Decisions) where
    asked_at :
        Allows KeepsHeader
        → (s : Sys os) → Extends KeepsHeader s (ask_human os plan config decided s).1
    unfolding ask_human
    asked_at h s =
        let asked = terminating os s in
        let so_far = Adds-terminating.at s in
        elim (Bool-cases asked.0) [
          | inl e ↦ rw (ask_human, e) so_far
          | inr e ↦
              rw (ask_human, e)
                (Extends-trans so_far (
                  (Adds-ask_consent h config.name config.device config.pcrs config.bank).at
                    asked.1))
        ]

    may_enroll_at : (s : Sys os) → Extends KeepsHeader s (may_enroll os plan config decided s).1
    unfolding may_enroll
    may_enroll_at s = elim (Bool-cases (not (is_empty plan.state) && declined decided plan.state)) [
      | inl e ↦ rw (may_enroll, e) (Extends-refl s)
      | inr e ↦ elim (Bool-cases (accepted decided plan.state)) [
        | inl f ↦ rw (may_enroll, e, f) (Extends-refl s)
        | inr f ↦ rw (may_enroll, e, f) (asked_at KeepsHeader-Allows s)
      ]
    ]

    -- The repair goes on only with an agreement.
    may_enroll-Agreed :
        (s : Sys os)
        → (may_enroll os plan config decided s).0.0 ≡ none
        → Agreed plan config decided s
    unfolding may_enroll Agreed ask_human
    may_enroll-Agreed s h =
        let asked = terminating os s in
        elim (Bool-cases (not (is_empty plan.state) && declined decided plan.state)) [
          | inl e ↦ absurd (some≢none (rw (may_enroll, e) at h))
          | inr e ↦ elim (Bool-cases (accepted decided plan.state)) [
            | inl f ↦ inl f
            | inr f ↦ elim (Bool-cases asked.0) [
              | inl g ↦ absurd (some≢none (rw (may_enroll, e, f, ask_human, g) at h))
              | inr g ↦
                  inr (g, heed-none _ plan.state decided (rw (may_enroll, e, f, ask_human, g) at h))
            ]
          ]
        ]

  -- What stands before a repair: the TPM answered, the preflight said that the policy is stale and can be
  -- repaired, and someone agreed.
  pub record Granted (json : Json) (config : Volume) (device : Device) (decided : Decisions)
      (s : Sys os) : Type 0 where
    pub tpm : ℕ
    pub plan : Plan
    pub opened : (open_tpm os config.tpm2_device (terminating os s).1).0 ≡ ok tpm
    pub planned :
        (Preflight.check os json config device tpm
          (open_tpm os config.tpm2_device (terminating os s).1).1).0
        ≡ reenroll plan
    pub agreed :
        Agreed plan config decided
          (log_state os tpm config
            (Preflight.check os json config device tpm
              (open_tpm os config.tpm2_device (terminating os s).1).1).1).1

  -- Either systemd-cryptenroll is not started at all, or there is a stale policy that can be repaired
  -- and an agreement to that.
  pub maybe_reenroll-Granted :
      (json : Json) (config : Volume) (device : Device) (secret : Bytes) (decided : Decisions)
      (s : Sys os)
      → Extends KeepsHeader s (maybe_reenroll os json config device secret decided s).1
        ⊎ Granted json config device decided s
  unfolding maybe_reenroll with_tpm with_decision with_leave
  maybe_reenroll-Granted json config device secret decided s =
      let h = KeepsHeader-Allows in
      let asked = terminating os s in
      let opened = open_tpm os config.tpm2_device asked.1 in
      let to_open =
        Extends-trans (Adds-terminating.at s) ((Adds-open_tpm h config.tpm2_device).at asked.1) in
      elim (Bool-cases asked.0) [
        | inl e ↦ inl (rw (maybe_reenroll, e) (Adds-terminating.at s))
        | inr e ↦ elim (Result-cases opened.0) [
          | inr (why, r) ↦ inl (rw (maybe_reenroll, e, r) to_open)
          | inl (tpm, r) ↦
              let checked = Preflight.check os json config device tpm opened.1 in
              let to_check =
                Extends-trans to_open
                  ((Adds-check_preflight h config tpm json device).at opened.1) in
              elim (Decision-cases checked.0) [
                | inr (why, d) ↦ inl (rw (maybe_reenroll, e, r, d) to_check)
                | inl (plan, d) ↦
                    let logged = log_state os tpm config checked.1 in
                    let leave = may_enroll os plan config decided logged.1 in
                    let to_leave = Extends-trans to_check (
                      Extends-trans ((Adds-log_state h config tpm).at checked.1)
                        (may_enroll_at plan config decided logged.1)) in
                    elim (Option-cases leave.0.0) [
                      | inr (why, l) ↦ inl (rw (maybe_reenroll, e, r, d, l) to_leave)
                      | inl l ↦ inr (record {
                        tpm = tpm;
                        plan = plan;
                        opened = r;
                        planned = d;
                        agreed = may_enroll-Agreed plan config decided logged.1 l;
                      })
                    ]
              ]
        ]
      ]

-- ===== src/Reenroll.antt =====
-- src/main.rs, `maybe_reenroll` and `verify`: repairing the TPM2 binding of a volume, if that is the
-- right thing to do and a human agrees.
mod Tests
pub mod Adds
pub mod Granted
pub mod Remembered
pub mod Later
pub mod Repaired
pub mod Verify
mod Stale
use tpm2_autoenroll.Base.{
  ltb, leb, ◌==◌, if◌then◌else◌, ltb→lt, lt→ltb, leb→le, ==_iff, Bool-cases, Option-cases, some_inj,
  length, is_empty, take, drop, replicate, all, any, find, filter, All, All-snoc, length-append,
  length-take, length-drop, length-replicate, take-length-append, drop-length-append,
  take-append-drop, set, get_or, Bytes, codes, equal, equal_refl, equal_iff, is_alnum, strip_prefix,
  strip_prefix_append, strip_prefix_sound, starts_with, position, contains, ℕ, zero, suc, ◌+◌, ◌-◌,
  ◌*◌, ◌/◌, ◌%◌, ◌^◌, ◌≤◌, ◌<◌, ◌≡◌, refl, sym, ap, ◌∙◌, ◌≢◌, ◌↔◌, ◌⊎◌, inl, inr, Bool, true, false,
  not, ◌&&◌, ◌||◌, Option, none, some, List, [], ◌∷◌, ◌++◌, map, arith,
}
use tpm2_autoenroll.Base.Results.{Result, ok, err}
use tpm2_autoenroll.Acquire.{terminating}
use tpm2_autoenroll.Config.{Volume}
use tpm2_autoenroll.Consent.{
  Decisions, declined, decline, accepted, accept, Answer, no_, yes_, always,
}
use tpm2_autoenroll.Consent
use tpm2_autoenroll.Device.{Device}
use tpm2_autoenroll.Drift.{Drift, matches}
use tpm2_autoenroll.Drift
use tpm2_autoenroll.Enroll.{EnrollError, test_unseal, find_new_token}
use tpm2_autoenroll.Enroll
use tpm2_autoenroll.Json.{Json}
use tpm2_autoenroll.Os.{Os, Sys}
use tpm2_autoenroll.Preflight.{
  Plan, Decision, Reason, Refusal, reenroll, leave, token_refusal, same_selection, log_state,
}
use tpm2_autoenroll.Preflight
use tpm2_autoenroll.Session.{open_tpm}
use tpm2_autoenroll.Token.{Tpm2Token}
use tpm2_autoenroll.Token.Read.{ReadError, read}
use tpm2_autoenroll.Wire.{TpmError}

-- What is wrong with a token that was just written.
pub data Wrong : Type 0 where
  refused : Refusal → Wrong
  other_selection : Wrong

-- What `verify` logs of the new token.
pub data Verified : Type 0 where
  unreadable : ReadError → Verified
  unidentified : Verified
  wrong_token : ℕ → Wrong → Verified
  unsealed policy_matches : ℕ → Verified
  policy_differs : ℕ → Drift → Verified

-- What `maybe_reenroll` logs last.
pub data Outcome : Type 0 where
  asked_to_stop before_prompt before_enrolling : Outcome
  no_tpm : TpmError → Outcome
  left : Reason → Outcome
  already_declined declined_now : Outcome
  enroll_failed : EnrollError → Outcome
  reenrolled : Verified → Outcome

-- `token_refusal(new).or_else(|| same_selection(new, config).err())`
pub wrong_with : Tpm2Token → Volume → Option Wrong
wrong_with token config = elim (token_refusal token) [
  | some why ↦ some (refused why)
  | none ↦ if same_selection token config then none else some other_selection
]

-- The last match of `verify`.
pub policy_verdict : ℕ → Drift → Verified
policy_verdict index matches = policy_matches index
policy_verdict index other = policy_differs index other

-- What an answer to the prompt does to the decisions; `some` ends the repair.
pub heed : Answer → Bytes → Decisions → Option Outcome × Decisions
heed no_ state decided =
    (some declined_now, if is_empty state then decided else decline state decided)
heed always state decided = (none, accept state decided)
heed yes_ state decided = (none, decided)

module _ (os : Os) where
  -- From the trial unseal on.
  unseal_or_compare :
      Tpm2Token → Volume → ℕ → Result EnrollError (Unit {0}) × Sys os → Verified × Sys os
  unseal_or_compare new config tpm (ok u, s) = (unsealed new.index, s)
  unseal_or_compare new config tpm (err e, s) =
      let found = Drift.check os tpm new config.pcrs config.bank s in
      (policy_verdict new.index found.0, found.1)

  with_new : Option Tpm2Token → Volume → Device → ℕ → Sys os → Verified × Sys os
  with_new none config device tpm s = (unidentified, s)
  with_new (some new) config device tpm s = elim (wrong_with new config) [
    | some why ↦ (wrong_token new.index why, s)
    | none ↦ unseal_or_compare new config tpm (test_unseal os device new.index s)
  ]

  with_tokens :
      Plan → Volume → Device → ℕ → Result ReadError (List Tpm2Token) × Sys os → Verified × Sys os
  with_tokens plan config device tpm (err e, s) = (unreadable e, s)
  with_tokens plan config device tpm (ok tokens, s) =
      with_new (find_new_token tokens plan.old_token) config device tpm s

  -- The question, unless a stop is asked for.
  ask_human : Plan → Volume → Decisions → Sys os → (Option Outcome × Decisions) × Sys os
  ask_human plan config decided s =
      let asked = terminating os s in
      elim asked.0 [
        | true ↦ ((some before_prompt, decided), asked.1)
        | false ↦
            let said = Consent.ask os config.name config.device config.pcrs config.bank asked.1 in
            (heed said.0 plan.state decided, said.1)
      ]

  -- From the decisions taken before to the answer of the prompt.
  pub may_enroll : Plan → Volume → Decisions → Sys os → (Option Outcome × Decisions) × Sys os
  may_enroll plan config decided s =
      if not (is_empty plan.state) && declined decided plan.state
      then ((some already_declined, decided), s)
      else if accepted decided plan.state
      then ((none, decided), s)
      else ask_human plan config decided s

  module _ (json : Json) where
    -- `verify`
    pub verify : Volume → Device → Plan → ℕ → Sys os → Verified × Sys os
    verify config device plan tpm s = with_tokens plan config device tpm (read os json device s)

    pub after_run :
        Volume → Device → Plan → ℕ → Result EnrollError (Unit {0}) × Sys os → Outcome × Sys os
    after_run config device plan tpm (err e, s) = (enroll_failed e, s)
    after_run config device plan tpm (ok u, s) =
        let checked = verify config device plan tpm s in (reenrolled checked.0, checked.1)

    -- The last check for a stop, and the enrollment.
    enroll_now : Volume → Device → Bytes → Plan → ℕ → Sys os → Outcome × Sys os
    enroll_now config device secret plan tpm s =
        let asked = terminating os s in
        elim asked.0 [
          | true ↦ (before_enrolling, asked.1)
          | false ↦
              after_run config device plan tpm
                (Enroll.run os device config.tpm2_device config.pcrs config.bank secret asked.1)
        ]

    with_leave :
        Volume
        → Device
        → Bytes
        → Plan
        → ℕ
        → (Option Outcome × Decisions) × Sys os
        → (Outcome × Decisions) × Sys os
    with_leave config device secret plan tpm ((some why, decided), s) = ((why, decided), s)
    with_leave config device secret plan tpm ((none, decided), s) =
        let done = enroll_now config device secret plan tpm s in ((done.0, decided), done.1)

    with_decision :
        Volume → Device → Bytes → Decisions → ℕ → Decision × Sys os → (Outcome × Decisions) × Sys os
    with_decision config device secret decided tpm (leave why, s) = ((left why, decided), s)
    with_decision config device secret decided tpm (reenroll plan, s) =
        with_leave config device secret plan tpm
          (may_enroll plan config decided (log_state os tpm config s).1)

    with_tpm :
        Volume
        → Device
        → Bytes
        → Decisions
        → Result TpmError ℕ × Sys os
        → (Outcome × Decisions) × Sys os
    with_tpm config device secret decided (err e, s) = ((no_tpm e, decided), s)
    with_tpm config device secret decided (ok tpm, s) =
        with_decision config device secret decided tpm (Preflight.check os json config device tpm s)

    -- `maybe_reenroll`
    pub maybe_reenroll :
        Volume → Device → Bytes → Decisions → Sys os → (Outcome × Decisions) × Sys os
    maybe_reenroll config device secret decided s =
        let asked = terminating os s in
        elim asked.0 [
          | true ↦ ((asked_to_stop, decided), asked.1)
          | false ↦ with_tpm config device secret decided (open_tpm os config.tpm2_device asked.1)
        ]

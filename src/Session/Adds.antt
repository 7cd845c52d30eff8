-- ===== src/Session/Adds.antt =====
-- What the exchanges with the TPM add to the trace: the commands that are written.
use tpm2_autoenroll.Base.{Bool-cases, is_empty, Bytes, ℕ, zero, suc, inl, inr, List}
use tpm2_autoenroll.Os.{Os, Event, Poll, FileType, ready, timed_out, poll_error, character_device}
use tpm2_autoenroll.Os.Adds.{Adds, Allows, adds_rules}
use tpm2_autoenroll.Pcr.{Round}
use tpm2_autoenroll.Tpm.{Bank}
use tpm2_autoenroll.Session.{
  open_tpm, check_kind, wait_for, transact, lockout, read_round, read_rounds, read_pcrs,
  start_trial_session, flush, build_policy, pcr_policy_digest,
}

module _ {os : Os} {P : Event → Type 0} where
  Adds-wait_for : (code : ℕ) (p : Poll) → Adds P (wait_for os code p)
  unfolding wait_for
  Adds-wait_for code ready = search adds_rules
  Adds-wait_for code timed_out = search adds_rules
  Adds-wait_for code (poll_error e) = search adds_rules

  Adds-check_kind : (kind : FileType) (fd : ℕ) → Adds P (check_kind os kind fd)
  unfolding check_kind
  Adds-check_kind character_device fd = search adds_rules
  Adds-check_kind kind fd = search adds_rules

  module _ (h : Allows P) where
    pub Adds-open_tpm : (device : Bytes) → Adds P (open_tpm os device)
    unfolding open_tpm
    Adds-open_tpm device = search (adds_rules, Adds-check_kind) depth 20

    Adds-transact : (fd code : ℕ) (body : Bytes) → Adds P (transact os fd code body)
    unfolding transact
    Adds-transact fd code body = search (adds_rules, Adds-wait_for, h.writing) depth 20

    pub Adds-lockout : (fd : ℕ) → Adds P (lockout os fd)
    unfolding lockout
    Adds-lockout fd = search (adds_rules, Adds-transact)

    Adds-read_round : (fd : ℕ) (bank : Bank) (round : Round) → Adds P (read_round os fd bank round)
    unfolding read_round
    Adds-read_round fd bank round = search (adds_rules, Adds-transact)

    Adds-read_rounds :
        (fuel fd : ℕ) (bank : Bank) (round : Round) → Adds P (read_rounds os fuel fd bank round)
    unfolding read_rounds
    Adds-read_rounds zero fd bank round = search adds_rules
    Adds-read_rounds (suc fuel) fd bank round = elim (Bool-cases (is_empty round.outstanding)) [
      | inl e ↦ rw (read_rounds, e) (search adds_rules)
      | inr e ↦
          rw (read_rounds, e) (search (adds_rules, Adds-read_round, Adds-read_rounds fuel fd bank))
    ]

    pub Adds-read_pcrs : (fd : ℕ) (bank : Bank) (pcrs : List ℕ) → Adds P (read_pcrs os fd bank pcrs)
    unfolding read_pcrs
    Adds-read_pcrs fd bank pcrs = search (adds_rules, Adds-read_rounds)

    Adds-start : (fd : ℕ) → Adds P (start_trial_session os fd)
    unfolding start_trial_session
    Adds-start fd = search (adds_rules, Adds-transact)

    Adds-flush : (fd handle : ℕ) → Adds P (flush os fd handle)
    unfolding flush
    Adds-flush fd handle = search (adds_rules, Adds-transact)

    Adds-build_policy :
        (fd session : ℕ) (bank : Bank) (pcrs : List ℕ)
        → Adds P (build_policy os fd session bank pcrs)
    unfolding build_policy
    Adds-build_policy fd session bank pcrs = search (adds_rules, Adds-transact)

    pub Adds-pcr_policy_digest :
        (fd : ℕ) (bank : Bank) (pcrs : List ℕ) → Adds P (pcr_policy_digest os fd bank pcrs)
    unfolding pcr_policy_digest
    Adds-pcr_policy_digest fd bank pcrs =
        search (adds_rules, Adds-start, Adds-build_policy, Adds-flush)

-- ===== src/Preflight/Repair.antt =====
-- `check` against the table of conditions in the comment at the head of src/preflight.rs.
use tpm2_autoenroll.Base.{
  is_empty, equal, equal_iff, ℕ, ◌≡◌, sym, ap, ◌∙◌, ◌↔◌, true, false, none, some, [], ◌∷◌, arith,
}
use tpm2_autoenroll.Base.Results.{ok}
use tpm2_autoenroll.Config.{Volume}
use tpm2_autoenroll.Device.{Device}
use tpm2_autoenroll.Drift.{Drift, drifted, matches, unknown, compare_digest}
use tpm2_autoenroll.Drift
use tpm2_autoenroll.Json.{Json}
use tpm2_autoenroll.Os.{Os, Sys}
use tpm2_autoenroll.Session.{lockout, pcr_policy_digest}
use tpm2_autoenroll.Token.{Tpm2Token}
use tpm2_autoenroll.Token.Read.{read}
use tpm2_autoenroll.Tpm.{Lockout, bank_name}
use tpm2_autoenroll.Preflight.{
  Plan, reenroll, token_refusal, header_bank, same_selection, decide, host_policy, drifted_on_host,
  drifted_token, with_tokens, with_lockout, with_read, check,
}
use tpm2_autoenroll.Preflight.Steps.{
  after, token_refusal-none, same_selection-true, compare_digest-inv, check-inv,
  drifted_on_host-inv, drifted_token-inv, with_tokens-inv, with_lockout-inv, with_read-inv,
}

module _ (os : Os) (json : Json) (config : Volume) (device : Device) (tpm : ℕ) where
  -- What the header and the TPM say, in the order in which they are asked, when a repair is right:
  -- a TPM that answers and is not locked out, one token, a plain PCR policy without a PIN over the
  -- configured PCRs and bank, no file that asks for another policy, and PCRs that have moved.
  pub record IsRepair (s : Sys os) (plan : Plan) : Type 0 where
    pub token : Tpm2Token
    pub counters : Lockout
    pub only : (read os json device s).0 ≡ ok (token ∷ [])
    pub answers : (lockout os tpm (after (read os json device s))).0 ≡ ok counters
    pub not_locked : counters.in_lockout ≡ false
    pub no_pin : token.pin ≡ false
    pub plain_policy : token.advanced ≡ none
    pub same_pcrs : token.pcrs ≡ config.pcrs
    pub same_bank : header_bank token ≡ bank_name config.bank
    pub no_policy_file :
        (host_policy os (after (lockout os tpm (after (read os json device s))))).0 ≡ none
    pub some_pcrs : is_empty config.pcrs ≡ false
    pub measured :
        (pcr_policy_digest os tpm config.bank config.pcrs
          (after (host_policy os (after (lockout os tpm (after (read os json device s))))))).0
        ≡ ok plan.state
    pub moved : equal plan.state token.policy_hash ≡ false
    pub names_token : plan.old_token ≡ some token.index
    pub names_policy : plan.enrolled ≡ token.policy_hash

  check_sound :
      (s : Sys os) (plan : Plan)
      → (check os json config device tpm s).0 ≡ reenroll plan
      → IsRepair s plan
  unfolding check
  check_sound s plan h =
      let (tokens, read_ok, h1) =
        with_read-inv os json config device tpm (read os json device s).0 (read os json device s).1
          plan h in
      let s1 = (read os json device s).1 in
      let (l, answers, calm, h2) =
        with_lockout-inv os json config device tpm tokens (lockout os tpm s1).0
          (lockout os tpm s1).1 plan h1 in
      let s2 = (lockout os tpm s1).1 in
      let (token, one, h3) = with_tokens-inv os json config device tpm tokens s2 plan h2 in
      let (clean, same, h4) = drifted_token-inv os json config device tpm token s2 plan h3 in
      let (no_file, h5) =
        drifted_on_host-inv os json config device tpm token (host_policy os s2).0
          (host_policy os s2).1 plan h4 in
      let (no_pin, plain_policy) = token_refusal-none token clean in
      let (same_pcrs, same_bank) = same_selection-true config token same in
      let (given, h6) =
        check-inv os json config device tpm token (host_policy os s2).1 plan plain_policy no_pin
          h5 in
      let (measured, moved, names_token, names_policy) =
        compare_digest-inv os json config device tpm token _ plan h6 in
      record {
        token = token;
        counters = l;
        only = read_ok ∙ ap ok one;
        answers = answers;
        not_locked = calm;
        no_pin = no_pin;
        plain_policy = plain_policy;
        same_pcrs = same_pcrs;
        same_bank = same_bank;
        no_policy_file = no_file;
        some_pcrs = given;
        measured = measured;
        moved = moved;
        names_token = names_token;
        names_policy = names_policy;
      }

  plan_of :
      (token : Tpm2Token) (plan : Plan)
      → plan.old_token ≡ some token.index
      → plan.enrolled ≡ token.policy_hash
      → reenroll (record {
        old_token = some token.index;
        enrolled = token.policy_hash;
        state = plan.state;
      })
        ≡ reenroll plan
  plan_of token plan names_token names_policy = λ i.
      reenroll (record {
        old_token = sym names_token i;
        enrolled = sym names_policy i;
        state = plan.state;
      })

  nothing_refused :
      (token : Tpm2Token) → token.advanced ≡ none → token.pin ≡ false → token_refusal token ≡ none
  unfolding token_refusal
  nothing_refused token plain_policy no_pin = ground arith

  selected :
      (token : Tpm2Token)
      → token.pcrs ≡ config.pcrs
      → header_bank token ≡ bank_name config.bank
      → same_selection token config ≡ true
  unfolding same_selection
  selected token same_pcrs same_bank = ground (
    arith,
    equal_iff token.pcrs config.pcrs,
    equal_iff (header_bank token) (bank_name config.bank),
  )

  repaired :
      (token : Tpm2Token) (s : Sys os) (plan : Plan)
      → token.advanced ≡ none
      → token.pin ≡ false
      → is_empty config.pcrs ≡ false
      → (pcr_policy_digest os tpm config.bank config.pcrs s).0 ≡ ok plan.state
      → equal plan.state token.policy_hash ≡ false
      → plan.old_token ≡ some token.index
      → plan.enrolled ≡ token.policy_hash
      → decide token (Drift.check os tpm token config.pcrs config.bank s).0 ≡ reenroll plan
  unfolding Drift.check decide compare_digest
  repaired token s plan plain_policy no_pin given measured moved names_token names_policy =
      rw (Drift.check, plain_policy, no_pin, given, measured, moved)
        (plan_of token plan names_token names_policy)

  unrefused :
      (token : Tpm2Token) (s : Sys os)
      → token.advanced ≡ none
      → token.pin ≡ false
      → token.pcrs ≡ config.pcrs
      → header_bank token ≡ bank_name config.bank
      → (drifted_token os token config tpm s).0
        ≡ (drifted_on_host os token config tpm (host_policy os s)).0
  unfolding drifted_token
  unrefused token s plain_policy no_pin same_pcrs same_bank =
      rw (
        drifted_token,
        nothing_refused token plain_policy no_pin,
        selected token same_pcrs same_bank,
      )

  check_complete :
      (s : Sys os) (plan : Plan)
      → IsRepair s plan
      → (check os json config device tpm s).0 ≡ reenroll plan
  unfolding check with_read with_lockout with_tokens drifted_on_host
  check_complete s plan r =
      rw (r.only, r.answers, r.not_locked)
        (unrefused r.token _ r.plain_policy r.no_pin r.same_pcrs r.same_bank
          ∙ rw r.no_policy_file (
              repaired r.token _ plan r.plain_policy r.no_pin r.some_pcrs r.measured r.moved
                r.names_token r.names_policy))

  -- Whatever the system answers, `check` decides to re-enroll by a plan exactly when all of the
  -- conditions of its table hold: the header has one systemd-tpm2 token, the TPM answers and is not
  -- in lockout, the token has no PIN and is a literal PCR policy over the configured PCRs and bank,
  -- no public key or pcrlock file exists, and the digest that the TPM computes from the current
  -- PCRs is the plan's state and not the token's policy.
  pub check-iff-IsRepair :
      (s : Sys os) (plan : Plan)
      → (check os json config device tpm s).0 ≡ reenroll plan ↔ IsRepair s plan
  check-iff-IsRepair s plan = (check_sound s plan, check_complete s plan)

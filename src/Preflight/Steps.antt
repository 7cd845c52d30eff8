-- ===== src/Preflight/Steps.antt =====
-- What each step of `check` has found when the decision is to re-enroll.
use tpm2_autoenroll.Base.{
  Bool-cases, Option-cases, is_empty, Bytes, equal, equal_iff, ℕ, ◌≡◌, refl, sym, ap, ◌∙◌, inl, inr,
  true, false, Option, none, some, List, [], ◌∷◌, arith,
}
use tpm2_autoenroll.Base.Results.{Result, ok, err}
use tpm2_autoenroll.Config.{Volume}
use tpm2_autoenroll.Device.{Device}
use tpm2_autoenroll.Drift.{Drift, drifted, matches, unknown, compare_digest}
use tpm2_autoenroll.Drift
use tpm2_autoenroll.Json.{Json}
use tpm2_autoenroll.Os.{Os, Sys}
use tpm2_autoenroll.Session.{lockout, pcr_policy_digest}
use tpm2_autoenroll.Token.{Tpm2Token}
use tpm2_autoenroll.Token.Read.{ReadError}
use tpm2_autoenroll.Tpm.{Lockout, bank_name}
use tpm2_autoenroll.Wire.{TpmError}
use tpm2_autoenroll.Preflight.{
  Plan, Reason, reenroll, leave, token_refusal, header_bank, same_selection, decide, host_policy,
  drifted_on_host, drifted_token, with_tokens, with_lockout, with_read,
}

-- The state after a call.
abbrev pub after {ℓ} : {A S : Type ℓ} → A × S → S
after r = r.1

pub apart : {r : Reason} {p : Plan} → leave r ≡ reenroll p → ⊥
apart h = cc

pub reenroll_inj : {p q : Plan} → reenroll p ≡ reenroll q → p ≡ q
reenroll_inj h = cc

pub token_refusal-none :
    (token : Tpm2Token) → token_refusal token ≡ none → (token.pin ≡ false) × (token.advanced ≡ none)
unfolding token_refusal
token_refusal-none token h = ground arith

pub same_selection-true :
    (config : Volume) (token : Tpm2Token)
    → same_selection token config ≡ true
    → (token.pcrs ≡ config.pcrs) × (header_bank token ≡ bank_name config.bank)
unfolding same_selection
same_selection-true config token h =
    ground (
      arith,
      equal_iff token.pcrs config.pcrs,
      equal_iff (header_bank token) (bank_name config.bank),
    )

module _ (os : Os) (json : Json) (config : Volume) (device : Device) (tpm : ℕ) where
  pub compare_digest-inv :
      (token : Tpm2Token) (r : Result TpmError Bytes) (plan : Plan)
      → decide token (compare_digest token.policy_hash r) ≡ reenroll plan
      → (r ≡ ok plan.state)
        × (equal plan.state token.policy_hash ≡ false)
        × (plan.old_token ≡ some token.index)
        × (plan.enrolled ≡ token.policy_hash)
  unfolding compare_digest decide
  compare_digest-inv token (ok current) plan h =
      elim (Bool-cases (equal current token.policy_hash)) [
        | inl e ↦ absurd (apart (rw e at h))
        | inr e ↦
            let same = reenroll_inj (rw e at h) in
            (
              ap (λ (p : Plan). ok p.state) same,
              (ap (λ (p : Plan). equal p.state token.policy_hash) (sym same) ∙ e),
              sym (ap (λ (p : Plan). p.old_token) same),
              sym (ap (λ (p : Plan). p.enrolled) same),
            )
      ]
  compare_digest-inv token (err e) plan h = cc

  pub check-inv :
      (token : Tpm2Token) (s : Sys os) (plan : Plan)
      → token.advanced ≡ none
      → token.pin ≡ false
      → decide token (Drift.check os tpm token config.pcrs config.bank s).0 ≡ reenroll plan
      → (is_empty config.pcrs ≡ false)
        × (decide token (
              compare_digest token.policy_hash
                (pcr_policy_digest os tpm config.bank config.pcrs s).0)
            ≡ reenroll plan)
  unfolding Drift.check decide
  check-inv token s plan plain_policy no_pin h = elim (Bool-cases (is_empty config.pcrs)) [
    | inl e ↦ absurd (apart (rw (plain_policy, no_pin, e) at h))
    | inr e ↦ (e, rw (plain_policy, no_pin, e) at h)
  ]

  pub drifted_on_host-inv :
      (token : Tpm2Token) (o : Option Bytes) (s : Sys os) (plan : Plan)
      → (drifted_on_host os token config tpm (o, s)).0 ≡ reenroll plan
      → (o ≡ none)
        × (decide token (Drift.check os tpm token config.pcrs config.bank s).0 ≡ reenroll plan)
  unfolding drifted_on_host
  drifted_on_host-inv token none s plan h = (refl, h)
  drifted_on_host-inv token (some path) s plan h = cc

  pub drifted_token-inv :
      (token : Tpm2Token) (s : Sys os) (plan : Plan)
      → (drifted_token os token config tpm s).0 ≡ reenroll plan
      → (token_refusal token ≡ none)
        × (same_selection token config ≡ true)
        × ((drifted_on_host os token config tpm (host_policy os s)).0 ≡ reenroll plan)
  unfolding drifted_token
  drifted_token-inv token s plan h = elim (Option-cases (token_refusal token)) [
    | inr (why, e) ↦ absurd (apart (rw (drifted_token, e) at h))
    | inl e ↦ elim (Bool-cases (same_selection token config)) [
      | inl same ↦ (e, same, rw (drifted_token, e, same) at h)
      | inr other ↦ absurd (apart (rw (drifted_token, e, other) at h))
    ]
  ]

  pub with_tokens-inv :
      (tokens : List Tpm2Token) (s : Sys os) (plan : Plan)
      → (with_tokens os tokens config tpm s).0 ≡ reenroll plan
      → (token : Tpm2Token) × (tokens ≡ token ∷ [])
        × ((drifted_token os token config tpm s).0 ≡ reenroll plan)
  unfolding with_tokens
  with_tokens-inv [] s plan h = cc
  with_tokens-inv (token ∷ []) s plan h = (token, refl, h)
  with_tokens-inv (t ∷ u ∷ more) s plan h = cc

  pub with_lockout-inv :
      (tokens : List Tpm2Token) (r : Result TpmError Lockout) (s : Sys os) (plan : Plan)
      → (with_lockout os tokens config tpm (r, s)).0 ≡ reenroll plan
      → (l : Lockout) × (r ≡ ok l)
        × (l.in_lockout ≡ false)
        × ((with_tokens os tokens config tpm s).0 ≡ reenroll plan)
  unfolding with_lockout
  with_lockout-inv tokens (err e) s plan h = cc
  with_lockout-inv tokens (ok l) s plan h = elim (Bool-cases l.in_lockout) [
    | inl e ↦ absurd (apart (rw e at h))
    | inr e ↦ (l, refl, e, rw e at h)
  ]

  pub with_read-inv :
      (r : Result ReadError (List Tpm2Token)) (s : Sys os) (plan : Plan)
      → (with_read os json config tpm (r, s)).0 ≡ reenroll plan
      → (tokens : List Tpm2Token) × (r ≡ ok tokens)
        × ((with_lockout os tokens config tpm (lockout os tpm s)).0 ≡ reenroll plan)
  unfolding with_read
  with_read-inv (err e) s plan h = cc
  with_read-inv (ok tokens) s plan h = (tokens, refl, h)

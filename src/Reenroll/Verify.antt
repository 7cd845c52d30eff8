-- ===== src/Reenroll/Verify.antt =====
-- What is reported of a token that was just written is true of it.
use tpm2_autoenroll.Base.{
  Option-cases, ℕ, ◌≡◌, refl, sym, ◌∙◌, ◌≢◌, inl, inr, true, false, Option, none, some, List, arith,
}
use tpm2_autoenroll.Base.Results.{Result, ok, err}
use tpm2_autoenroll.Config.{Volume}
use tpm2_autoenroll.Device.{Device}
use tpm2_autoenroll.Drift.{Drift, matches, drifted, unknown}
use tpm2_autoenroll.Drift
use tpm2_autoenroll.Enroll.{EnrollError, test_unseal, find_new_token}
use tpm2_autoenroll.Enroll.NewToken.{IsOnlyNew, find_new_token-iff-IsOnlyNew}
use tpm2_autoenroll.Json.{Json}
use tpm2_autoenroll.Os.{Os, Sys}
use tpm2_autoenroll.Preflight.{Plan, token_refusal, header_bank, same_selection}
use tpm2_autoenroll.Preflight.Steps.{token_refusal-none, same_selection-true}
use tpm2_autoenroll.Reenroll.{
  Verified, unreadable, unidentified, wrong_token, unsealed, policy_matches, policy_differs,
  policy_verdict, wrong_with, unseal_or_compare, with_new, with_tokens, verify,
}
use tpm2_autoenroll.Reenroll.Granted.{some≢none}
use tpm2_autoenroll.Token.{Tpm2Token}
use tpm2_autoenroll.Token.Read.{ReadError, read}
use tpm2_autoenroll.Tpm.{bank_name}

-- A literal policy over the configured PCRs and bank, without a PIN.
pub record Fits (new : Tpm2Token) (config : Volume) : Type 0 where
  pub no_pin : new.pin ≡ false
  pub literal : new.advanced ≡ none
  pub same_pcrs : new.pcrs ≡ config.pcrs
  pub same_bank : header_bank new ≡ bank_name config.bank

nothing_wrong :
    (new : Tpm2Token) (config : Volume)
    → wrong_with new config ≡ none
    → (token_refusal new ≡ none) × (same_selection new config ≡ true)
unfolding wrong_with
nothing_wrong new config h = ground arith

wrong_with-none :
    (new : Tpm2Token) (config : Volume) → wrong_with new config ≡ none → Fits new config
wrong_with-none new config h =
    let (clean, same) = nothing_wrong new config h in
    let (no_pin, literal) = token_refusal-none new clean in
    let (same_pcrs, same_bank) = same_selection-true config new same in
    record { no_pin = no_pin; literal = literal; same_pcrs = same_pcrs; same_bank = same_bank }

module _ (os : Os) (json : Json) (config : Volume) (device : Device) (plan : Plan) (tpm : ℕ)
    (s : Sys os) where
  -- The header was read again, and `new` is its only new token.
  pub record Found (new : Tpm2Token) : Type 0 where
    pub tokens : List Tpm2Token
    pub listed : (read os json device s).0 ≡ ok tokens
    pub only : IsOnlyNew tokens plan.old_token new

  abbrev reread : Sys os
  reread = (read os json device s).1

  -- What each report means.
  pub IsTrue : Verified → Type 0
  IsTrue (unreadable e) = (read os json device s).0 ≡ err e
  IsTrue unidentified =
      (tokens : List Tpm2Token) × ((read os json device s).0 ≡ ok tokens)
      × ((t : Tpm2Token) → ¬ IsOnlyNew tokens plan.old_token t)
  IsTrue (wrong_token index why) =
      (new : Tpm2Token) × Found new × (new.index ≡ index) × (wrong_with new config ≡ some why)
  IsTrue (unsealed index) =
      (new : Tpm2Token) × Found new
      × (new.index ≡ index)
      × Fits new config
      × ((test_unseal os device index reread).0 ≡ ok tt)
  IsTrue (policy_matches index) =
      (new : Tpm2Token) × Found new
      × (new.index ≡ index)
      × Fits new config
      × ((Drift.check os tpm new config.pcrs config.bank (test_unseal os device index reread).1).0
          ≡ matches)
  IsTrue (policy_differs index how) =
      (new : Tpm2Token) × Found new
      × (new.index ≡ index)
      × Fits new config
      × ((Drift.check os tpm new config.pcrs config.bank (test_unseal os device index reread).1).0
          ≡ how)
      × (how ≢ matches)

  policy_verdict-IsTrue :
      (new : Tpm2Token)
      → Found new
      → Fits new config
      → (d : Drift)
      → (Drift.check os tpm new config.pcrs config.bank
          (test_unseal os device new.index reread).1).0
        ≡ d
      → IsTrue (policy_verdict new.index d)
  unfolding IsTrue policy_verdict
  policy_verdict-IsTrue new found fits matches e = (new, found, refl, fits, e)
  policy_verdict-IsTrue new found fits (drifted a b) e = (new, found, refl, fits, e, λ h. cc)
  policy_verdict-IsTrue new found fits (unknown why) e = (new, found, refl, fits, e, λ h. cc)

  unseal_or_compare-IsTrue :
      (new : Tpm2Token)
      → Found new
      → Fits new config
      → (r : Result EnrollError (Unit {0})) → (test_unseal os device new.index reread).0 ≡ r
      → IsTrue
          (unseal_or_compare os new config tpm (r, (test_unseal os device new.index reread).1)).0
  unfolding IsTrue unseal_or_compare
  unseal_or_compare-IsTrue new found fits (ok u) e = (new, found, refl, fits, e)
  unseal_or_compare-IsTrue new found fits (err why) e = policy_verdict-IsTrue new found fits _ refl

  with_new-IsTrue :
      (tokens : List Tpm2Token)
      → (read os json device s).0 ≡ ok tokens
      → (o : Option Tpm2Token) → find_new_token tokens plan.old_token ≡ o
      → IsTrue (with_new os o config device tpm reread).0
  unfolding IsTrue with_new
  with_new-IsTrue tokens e none f = (
    tokens,
    e,
    λ t only.
        absurd
          (some≢none (sym ((find_new_token-iff-IsOnlyNew tokens plan.old_token t).1 only) ∙ f)),
  )
  with_new-IsTrue tokens e (some new) f =
      let found : Found new = record {
        tokens = tokens;
        listed = e;
        only = (find_new_token-iff-IsOnlyNew tokens plan.old_token new).0 f;
      } in
      elim (Option-cases (wrong_with new config)) [
        | inl g ↦
            rw (with_new, g)
              (unseal_or_compare-IsTrue new found (wrong_with-none new config g) _ refl)
        | inr g ↦ rw (with_new, g.1) (new, found, refl, g.1)
      ]

  with_tokens-IsTrue :
      (r : Result ReadError (List Tpm2Token))
      → (read os json device s).0 ≡ r
      → IsTrue (with_tokens os plan config device tpm (r, reread)).0
  unfolding IsTrue with_tokens
  with_tokens-IsTrue (err e) h = h
  with_tokens-IsTrue (ok tokens) h = with_new-IsTrue tokens h _ refl

  -- What is reported of a repair holds: `unsealed` only when the header, read again, has a
  -- single new token, this fits the configuration, and cryptsetup unsealed it; `policy_matches` only
  -- when in place of the last the TPM finds its policy met by the current PCRs; and each of the other
  -- reports names the step that failed.
  pub verify-IsTrue : IsTrue (verify os json config device plan tpm s).0
  unfolding verify
  verify-IsTrue = with_tokens-IsTrue _ refl

-- ===== src/Drift/Adds.antt =====
-- Comparing the policy with the PCRs adds the commands that are written to the TPM.
use tpm2_autoenroll.Base.{Bool-cases, Option-cases, is_empty, ℕ, inl, inr, List}
use tpm2_autoenroll.Os.{Os, Event}
use tpm2_autoenroll.Os.Adds.{Adds, Allows, Adds-with, Adds-value}
use tpm2_autoenroll.Drift.{check, compare_digest}
use tpm2_autoenroll.Session.{pcr_policy_digest}
use tpm2_autoenroll.Session.Adds.{Adds-pcr_policy_digest}
use tpm2_autoenroll.Token.{Tpm2Token}
use tpm2_autoenroll.Tpm.{Bank}

module _ {os : Os} {P : Event → Type 0} where
  pub Adds-check_drift :
      Allows P
      → (tpm : ℕ) (token : Tpm2Token) (pcrs : List ℕ) (bank : Bank)
      → Adds P (check os tpm token pcrs bank)
  unfolding check
  Adds-check_drift h tpm token pcrs bank = elim (Option-cases token.advanced) [
    | inr e ↦ rw (check, e.1) (Adds-value _)
    | inl e ↦ elim (Bool-cases token.pin) [
      | inl f ↦ rw (check, e, f) (Adds-value _)
      | inr f ↦ elim (Bool-cases (is_empty pcrs)) [
        | inl g ↦ rw (check, e, f, g) (Adds-value _)
        | inr g ↦
            rw (check, e, f, g)
              (Adds-with (pcr_policy_digest os tpm bank pcrs) (compare_digest token.policy_hash)
                (Adds-pcr_policy_digest h tpm bank pcrs))
      ]
    ]
  ]

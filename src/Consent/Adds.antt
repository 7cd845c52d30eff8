-- ===== src/Consent/Adds.antt =====
-- The consent prompt adds its spawn, and at most its kill.
use tpm2_autoenroll.Base.{Bytes, codes, equal, ℕ, ◌+◌, ◌≡◌, refl, false, List}
use tpm2_autoenroll.Os.{Os, Event}
use tpm2_autoenroll.Os.Adds.{Adds, Allows, is_enroll, Adds-with}
use tpm2_autoenroll.AskPw.{prompt_timeout, prompt_grace}
use tpm2_autoenroll.Child.Adds.{Adds-run-Allows}
use tpm2_autoenroll.Child.Run.{run}
use tpm2_autoenroll.Consent.{consent_command, answer_to, ask}
use tpm2_autoenroll.Tpm.{Bank}

is_enroll-consent_command :
    (volume device : Bytes) (pcrs : List ℕ) (bank : Bank)
    → is_enroll (consent_command volume device pcrs bank) ≡ false
unfolding is_enroll consent_command equal codes
is_enroll-consent_command volume device pcrs bank = refl

module _ {os : Os} {P : Event → Type 0} where
  pub Adds-ask_consent :
      Allows P
      → (volume device : Bytes) (pcrs : List ℕ) (bank : Bank)
      → Adds P (ask os volume device pcrs bank)
  unfolding ask
  Adds-ask_consent h volume device pcrs bank =
      Adds-with
        (run os (consent_command volume device pcrs bank) (prompt_timeout + prompt_grace) 4096)
        answer_to
        (Adds-run-Allows h (consent_command volume device pcrs bank) (prompt_timeout + prompt_grace)
          4096 (is_enroll-consent_command volume device pcrs bank))

-- ===== src/Acquire/Adds.antt =====
-- Acquiring a passphrase adds the spawns of the prompts and of cryptsetup.
use tpm2_autoenroll.Base.{Bool-cases, Bytes, ℕ, zero, suc, inl, inr, List, [], ◌∷◌}
use tpm2_autoenroll.Base.Results.{Result-cases}
use tpm2_autoenroll.Os.{Os, Sys, Event}
use tpm2_autoenroll.Os.Adds.{Adds, Allows, Extends, Extends-refl, Extends-trans, Adds-ask}
use tpm2_autoenroll.AskPw.{Attempt, AskError, first_time, retry}
use tpm2_autoenroll.AskPw
use tpm2_autoenroll.AskPw.Adds.{Adds-ask_passphrase}
use tpm2_autoenroll.Acquire.{terminating, tries, try_each, prompt, acquire}
use tpm2_autoenroll.Acquire.Tested.{Verdict-cases, Search-cases}
use tpm2_autoenroll.Cache.{Cache}
use tpm2_autoenroll.Config.{Volume}
use tpm2_autoenroll.Device.{Device}
use tpm2_autoenroll.Luks.{test_passphrase}
use tpm2_autoenroll.Luks.Adds.{Adds-test_passphrase}

module _ {os : Os} {P : Event → Type 0} where
  pub Adds-terminating : Adds P (terminating os)
  unfolding terminating
  Adds-terminating = Adds-ask os.terminate

  module _ (h : Allows P) (device : Device) where
    each_at : (l : List Bytes) (s : Sys os) → Extends P s (try_each os device l s).1
    unfolding try_each
    each_at [] s = Extends-refl s
    each_at (secret ∷ l) s =
        let asked = terminating os s in
        let tested = test_passphrase os device secret asked.1 in
        let so_far =
          Extends-trans (Adds-terminating.at s)
            ((Adds-test_passphrase h device secret).at asked.1) in
        elim (Bool-cases asked.0) [
          | inl e ↦ rw (try_each, e) (Adds-terminating.at s)
          | inr e ↦ elim (Verdict-cases tested.0) [
            | inl v ↦ rw (try_each, e, v) so_far
            | inr (inl v) ↦ rw (try_each, e, v) (Extends-trans so_far (each_at l tested.1))
            | inr (inr (why, v)) ↦ rw (try_each, e, v) so_far
          ]
        ]

    prompt_at :
        (n : ℕ) (which : Attempt) (config : Volume) (cache : Cache) (s : Sys os)
        → Extends P s (prompt os n which config device cache s).1
    unfolding prompt
    prompt_at zero which config cache s = Extends-refl s
    prompt_at (suc n) which config cache s =
        let asked = terminating os s in
        let answer = AskPw.ask os config.name config.device which asked.1 in
        let so_far =
          Extends-trans (Adds-terminating.at s)
            ((Adds-ask_passphrase h config.name config.device which).at asked.1) in
        elim (Bool-cases asked.0) [
          | inl e ↦ rw (prompt, e) (Adds-terminating.at s)
          | inr e ↦ elim (Result-cases answer.0) [
            | inr (why, r) ↦ rw (prompt, e, r) so_far
            | inl (candidates, r) ↦
                let tried = try_each os device candidates answer.1 in
                let further = Extends-trans so_far (each_at candidates answer.1) in
                elim (Search-cases tried.0) [
                  | inl (secret, f) ↦ rw (prompt, e, r, f) further
                  | inr (inl f) ↦
                      rw (prompt, e, r, f)
                        (Extends-trans further (prompt_at n retry config cache tried.1))
                  | inr (inr f) ↦ rw (prompt, e, r, f) further
                ]
          ]
        ]

    acquire_at :
        (config : Volume) (cache : Cache) (s : Sys os)
        → Extends P s (acquire os config device cache s).1
    unfolding acquire
    acquire_at config cache s =
        let tried = try_each os device cache s in
        let so_far = each_at cache s in
        elim (Search-cases tried.0) [
          | inl (secret, f) ↦ rw (acquire, f) so_far
          | inr (inl f) ↦
              rw (acquire, f)
                (Extends-trans so_far (prompt_at tries first_time config cache tried.1))
          | inr (inr f) ↦ rw (acquire, f) so_far
        ]

    pub Adds-acquire : (config : Volume) (cache : Cache) → Adds P (acquire os config device cache)
    Adds-acquire config cache = record { at = acquire_at config cache }

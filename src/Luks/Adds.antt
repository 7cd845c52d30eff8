-- ===== src/Luks/Adds.antt =====
-- Checking a passphrase adds the spawn of cryptsetup, and at most its kill.
use tpm2_autoenroll.Base.{Bytes, codes, equal, ℕ, ◌≡◌, refl, false}
use tpm2_autoenroll.Os.{Os, Event}
use tpm2_autoenroll.Os.Adds.{Adds, Allows, is_enroll, adds_rules, Adds-with}
use tpm2_autoenroll.Child.Adds.{Adds-run-Allows}
use tpm2_autoenroll.Device.{Device}
use tpm2_autoenroll.Device.Adds.{Adds-with_secret}
use tpm2_autoenroll.Luks.{test_command, try_open, verdict_of, test_passphrase}

is_enroll-test_command : (device : Device) (key : ℕ) → is_enroll (test_command device key) ≡ false
unfolding is_enroll test_command equal codes
is_enroll-test_command device key = refl

module _ {os : Os} {P : Event → Type 0} (h : Allows P) where
  Adds-try_open : (device : Device) (secret : Bytes) → Adds P (try_open os device secret)
  unfolding try_open
  Adds-try_open device secret =
      search (adds_rules, Adds-with_secret, Adds-run-Allows h, is_enroll-test_command) depth 20

  pub Adds-test_passphrase :
      (device : Device) (secret : Bytes) → Adds P (test_passphrase os device secret)
  unfolding test_passphrase
  Adds-test_passphrase device secret =
      Adds-with (try_open os device secret) verdict_of (Adds-try_open device secret)

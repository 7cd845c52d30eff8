-- ===== src/Enroll.antt =====
-- src/enroll.rs: running systemd-cryptenroll, and finding the token that it wrote.
pub mod Adds
mod Tests
pub mod Enrolled
pub mod NewToken
use tpm2_autoenroll.Base.{
  ◌==◌, if◌then◌else◌, is_empty, filter, Bytes, codes, ℕ, Bool, true, false, not, Option, none,
  some, List, [], ◌∷◌, ◌++◌,
}
use tpm2_autoenroll.Base.Decimal.{decimal}
use tpm2_autoenroll.Base.Exec.{Exec, pure, raise, map_err, ◌>>=◌}
use tpm2_autoenroll.Child.{ChildError, Output}
use tpm2_autoenroll.Child.Run
use tpm2_autoenroll.Child.Run.{fd_path}
use tpm2_autoenroll.Device.{Device, DeviceError, with_secret}
use tpm2_autoenroll.Os.{Os, Sys, Command}
use tpm2_autoenroll.Token.{Tpm2Token}
use tpm2_autoenroll.Tpm.{Bank, bank_name}

pub data EnrollError : Type 0 where
  empty_selection : EnrollError
  no_key_file : DeviceError → EnrollError
  child : ChildError → EnrollError
  exited_with : Option ℕ → Bytes → EnrollError

-- `pcr_spec`
pub pcr_spec : List ℕ → Bytes → Bytes
pcr_spec [] bank = []
pcr_spec (pcr ∷ []) bank = decimal pcr ++ codes ":" ++ bank
pcr_spec (pcr ∷ q ∷ pcrs) bank =
    decimal pcr ++ codes ":" ++ bank ++ codes "+" ++ pcr_spec (q ∷ pcrs) bank

unfoldable pub enroll_command : Device → ℕ → Bytes → List ℕ → Bank → Command
enroll_command device key tpm2_device pcrs bank = record {
  program = codes "systemd-cryptenroll";
  args =
      (codes "--unlock-key-file=" ++ fd_path key)
      ∷ codes "--wipe-slot=tpm2"
      ∷ (codes "--tpm2-device=" ++ tpm2_device)
      ∷ (codes "--tpm2-pcrs=" ++ pcr_spec pcrs (bank_name bank))
      ∷ codes "--tpm2-public-key="
      ∷ codes "--tpm2-pcrlock="
      ∷ codes "--tpm2-with-pin=no"
      ∷ fd_path device.fd
      ∷ [];
  inherited = key ∷ device.fd ∷ [];
  stdout_piped = false;
  stderr_piped = true;
}

pub unseal_command : Device → ℕ → Command
unseal_command device token_index = record {
  program = codes "cryptsetup";
  args =
      codes "open"
      ∷ codes "--test-passphrase"
      ∷ codes "--batch-mode"
      ∷ codes "--token-only"
      ∷ (codes "--token-id=" ++ decimal token_index)
      ∷ codes "--disable-keyring"
      ∷ fd_path device.fd
      ∷ [];
  inherited = device.fd ∷ [];
  stdout_piped = false;
  stderr_piped = true;
}

module _ (os : Os) where
  -- `if out.status.success()`
  unfoldable pub success : Output → Exec (Sys os) EnrollError (Unit {0})
  success out = elim out.status [
    | none ↦ raise (exited_with none out.stderr)
    | some code ↦ if code == 0 then pure tt else raise (exited_with (some code) out.stderr)
  ]

  -- The part of `run` that has the secret in a memfd.
  unfoldable pub enroll_with :
      Device → Bytes → List ℕ → Bank → ℕ → Exec (Sys os) EnrollError (Unit {0})
  enroll_with device tpm2_device pcrs bank key = do
    out ← map_err child (Run.run os (enroll_command device key tpm2_device pcrs bank) 120 0)
    success out

  -- `run`
  unfoldable pub run : Device → Bytes → List ℕ → Bank → Bytes → Exec (Sys os) EnrollError (Unit {0})
  run device tpm2_device pcrs bank secret = elim (is_empty pcrs) [
    | true ↦ raise empty_selection
    | false ↦ with_secret os no_key_file secret (enroll_with device tpm2_device pcrs bank)
  ]

  -- `test_unseal`
  pub test_unseal : Device → ℕ → Exec (Sys os) EnrollError (Unit {0})
  test_unseal device token_index = do
    out ← map_err child (Run.run os (unseal_command device token_index) 60 0)
    success out

-- `Some(t.index) == old_index`
pub is_old : Option ℕ → Tpm2Token → Bool
is_old none t = false
is_old (some index) t = t.index == index

-- The first of the candidates, when there is no second.
only_one : List Tpm2Token → Option Tpm2Token
only_one (t ∷ []) = some t
only_one _ = none

-- `find_new_token`
pub find_new_token : List Tpm2Token → Option ℕ → Option Tpm2Token
find_new_token tokens old_index = only_one (filter (λ t. not (is_old old_index t)) tokens)

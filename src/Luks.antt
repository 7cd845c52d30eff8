-- ===== src/Luks.antt =====
-- src/luks.rs: checking a passphrase against a LUKS2 volume.
pub mod Adds
use tpm2_autoenroll.Base.{
  ◌==◌, if◌then◌else◌, Bytes, codes, ℕ, true, false, Option, none, some, [], ◌∷◌, ◌++◌,
}
use tpm2_autoenroll.Base.Results.{Result, ok, err}
use tpm2_autoenroll.Base.Exec.{Exec, map_err}
use tpm2_autoenroll.Child.{ChildError, Output}
use tpm2_autoenroll.Child.Run.{run, fd_path}
use tpm2_autoenroll.Device.{Device, DeviceError, with_secret}
use tpm2_autoenroll.Os.{Os, Sys, Command}

-- Why a passphrase could not be checked; the source formats each into a message.
pub data Unusable : Type 0 where
  no_key_file : DeviceError → Unusable
  no_child : ChildError → Unusable
  wrong_parameters out_of_memory wrong_device device_busy signalled : Unusable
  exited_with : ℕ → Unusable

-- `enum Verdict`
pub data Verdict : Type 0 where
  correct wrong : Verdict
  unusable : Unusable → Verdict

-- `verdict_from_code`
unfoldable pub verdict_from_code : Option ℕ → Verdict
verdict_from_code none = unusable signalled
verdict_from_code (some n) =
    if n == 0
    then correct
    else if n == 2
    then wrong
    else if n == 1
    then unusable wrong_parameters
    else if n == 3
    then unusable out_of_memory
    else if n == 4
    then unusable wrong_device
    else if n == 5
    then unusable device_busy
    else unusable (exited_with n)

unfoldable pub test_command : Device → ℕ → Command
test_command device key = record {
  program = codes "cryptsetup";
  args =
      codes "open"
      ∷ codes "--test-passphrase"
      ∷ codes "--batch-mode"
      ∷ codes "--disable-external-tokens"
      ∷ codes "--disable-keyring"
      ∷ (codes "--key-file=" ++ fd_path key)
      ∷ fd_path device.fd
      ∷ [];
  inherited = key ∷ device.fd ∷ [];
  stdout_piped = false;
  stderr_piped = true;
}

unfoldable pub verdict_of : Result Unusable Output → Verdict
verdict_of (ok out) = verdict_from_code out.status
verdict_of (err e) = unusable e

module _ (os : Os) where
  unfoldable pub try_open : Device → Bytes → Exec (Sys os) Unusable Output
  try_open device secret =
      with_secret os no_key_file secret
        (λ key. map_err no_child (run os (test_command device key) 60 0))

  -- `test_passphrase`
  unfoldable pub test_passphrase : Device → Bytes → Sys os → Verdict × Sys os
  test_passphrase device secret s =
      (verdict_of (try_open device secret s).0, (try_open device secret s).1)

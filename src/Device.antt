-- ===== src/Device.antt =====
-- src/device.rs and src/memfd.rs: the descriptors that are handed to child processes.
mod Tests
pub mod Adds
pub mod Wiped
use Prim.Native.Nat.{min}
use tpm2_autoenroll.Base.{
  ltb, length, replicate, Bytes, ℕ, zero, suc, ◌+◌, ◌-◌, true, false, Option, none, some,
}
use tpm2_autoenroll.Base.Results.{Result, ok}
use tpm2_autoenroll.Base.Exec.{Exec, pure, raise, lift, attempt, calls, map_err, ◌>>=◌}
use tpm2_autoenroll.Os.{Os, Sys, FileType, block_device, ask}

-- `struct Device`
pub record Device : Type 0 where
  pub fd : ℕ
  pub name : Bytes

pub data DeviceError : Type 0 where
  cannot_open cannot_stat no_memfd cannot_write : ℕ → DeviceError
  not_block_device : DeviceError

-- How many bytes a `pwrite` of the drop has overwritten; none at the `break`.
unfoldable pub overwritten : Result ℕ ℕ → Option ℕ
overwritten (ok (suc n)) = some (suc n)
overwritten _ = none

module _ (os : Os) where
  unfoldable pub check_kind : FileType → Device → Exec (Sys os) DeviceError Device
  check_kind block_device device = pure device
  check_kind _ device = raise not_block_device

  -- `Device::open`
  unfoldable pub open_device : Bytes → Exec (Sys os) DeviceError Device
  open_device path = do
    fd ← map_err cannot_open (ask os (os.open_file path))
    kind ← map_err cannot_stat (ask os (os.file_type fd))
    check_kind kind (record { fd = fd; name = path })

  -- `SecretFile::new`; the secret goes to the memfd and nowhere else.
  unfoldable pub secret_file : Bytes → Exec (Sys os) DeviceError ℕ
  secret_file secret = do
    fd ← map_err no_memfd (ask os os.memfd_create)
    u ← map_err cannot_write (ask os (os.write_all fd secret))
    pure fd

  -- The loop of `drop`, on fuel: each pass overwrites a byte at least.
  unfoldable pub wipe_from : ℕ → ℕ → ℕ → ℕ → Sys os → Unit {0} × Sys os
  wipe_from zero fd len at s = (tt, s)
  wipe_from (suc fuel) fd len at s = elim (ltb at len) [
    | false ↦ (tt, s)
    | true ↦
        let wrote = ask os (os.pwrite fd (replicate (min (len - at) 4096) 0) at) s in
        elim (overwritten wrote.0) [
          | none ↦ (tt, wrote.1)
          | some n ↦ wipe_from fuel fd len (at + n) wrote.1
        ]
  ]

  -- `SecretFile::drop`; the errors are ignored.
  unfoldable pub drop_secret : ℕ → ℕ → Sys os → Unit {0} × Sys os
  drop_secret fd len s =
      let wiped = wipe_from len fd len 0 s in (tt, (ask os (os.ftruncate fd 0) wiped.1).1)

  -- What a child that is given a secret comes to; the memfd is wiped behind it.
  unfoldable pub with_secret :
      {E A : Type 0} → (DeviceError → E) → Bytes → (ℕ → Exec (Sys os) E A) → Exec (Sys os) E A
  with_secret put secret use_key = do
    key ← map_err put (secret_file secret)
    got ← attempt (use_key key)
    u ← calls (drop_secret key (length secret))
    lift got

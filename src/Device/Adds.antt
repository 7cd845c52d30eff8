-- ===== src/Device/Adds.antt =====
-- Opening a device or writing a secret to a memfd leaves no mark in the trace.
use Prim.Native.Nat.{min}
use tpm2_autoenroll.Base.{
  ltb, Bool-cases, Option-cases, replicate, Bytes, ℕ, zero, suc, ◌+◌, ◌-◌, ◌≡◌, sym, ap, ◌∙◌, inl,
  inr,
}
use tpm2_autoenroll.Base.Exec.{Exec, ◌>>=◌, map_err_bind-eq-ok}
use tpm2_autoenroll.Base.Results.{ok, ok_inj, err≢ok}
use tpm2_autoenroll.Os.{Os, Sys, Event, ask}
use tpm2_autoenroll.Os.Adds.{Adds, Extends, Extends-refl, Extends-trans, Adds-ask, adds_rules}
use tpm2_autoenroll.Device.{
  Device, DeviceError, cannot_open, cannot_stat, check_kind, open_device, secret_file, overwritten,
  wipe_from, drop_secret, with_secret,
}
use tpm2_autoenroll.Os.{FileType, block_device}

module _ {os : Os} {P : Event → Type 0} where
  Adds-check_kind : (kind : FileType) (device : Device) → Adds P (check_kind os kind device)
  unfolding check_kind
  Adds-check_kind block_device device = search adds_rules
  Adds-check_kind kind device = search adds_rules

  pub Adds-open_device : (path : Bytes) → Adds P (open_device os path)
  unfolding open_device
  Adds-open_device path = search (adds_rules, Adds-check_kind) depth 20

  pub Adds-secret_file : (secret : Bytes) → Adds P (secret_file os secret)
  unfolding secret_file
  Adds-secret_file secret = search adds_rules depth 20

  wipe_at : (fuel fd len at : ℕ) (s : Sys os) → Extends P s (wipe_from os fuel fd len at s).1
  unfolding wipe_from
  wipe_at zero fd len at s = Extends-refl s
  wipe_at (suc fuel) fd len at s =
      let call = os.pwrite fd (replicate (min (len - at) 4096) 0) at in
      let wrote = ask os call s in
      elim (Bool-cases (ltb at len)) [
        | inr e ↦ rw (wipe_from, e) (Extends-refl s)
        | inl e ↦ elim (Option-cases (overwritten wrote.0)) [
          | inl f ↦ rw (wipe_from, e, f) ((Adds-ask call).at s)
          | inr (n, f) ↦
              rw (wipe_from, e, f)
                (Extends-trans ((Adds-ask call).at s) (wipe_at fuel fd len (at + n) wrote.1))
        ]
      ]

  pub Adds-drop_secret : (fd len : ℕ) → Adds P (drop_secret os fd len)
  unfolding drop_secret
  Adds-drop_secret fd len = record {
    at = λ s.
        Extends-trans (wipe_at len fd len 0 s)
          ((Adds-ask (os.ftruncate fd 0)).at (wipe_from os len fd len 0 s).1);
  }

  pub Adds-with_secret :
      {E A : Type 0} (put : DeviceError → E) (secret : Bytes) (use_key : ℕ → Exec (Sys os) E A)
      → ((key : ℕ) → Adds P (use_key key))
      → Adds P (with_secret os put secret use_key)
  unfolding with_secret
  Adds-with_secret put secret use_key h =
      search (adds_rules, Adds-secret_file, Adds-drop_secret, h) depth 20

module _ {os : Os} where
  check_kind_fd :
      (kind : FileType) (device : Device) (s : Sys os) {d : Device}
      → (check_kind os kind device s).0 ≡ ok d
      → d.fd ≡ device.fd
  unfolding check_kind ◌>>=◌
  check_kind_fd block_device device s h = ap (λ x. x.fd) (sym (ok_inj h))
  check_kind_fd kind device s h = absurd (err≢ok h)

  -- A device that is opened has the descriptor that opening its path gave.
  pub open_device_fd :
      (path : Bytes) (s : Sys os) {d : Device}
      → (open_device os path s).0 ≡ ok d
      → (ask os (os.open_file path) s).0 ≡ ok d.fd
  unfolding open_device
  open_device_fd path s h =
      let opened = map_err_bind-eq-ok cannot_open (ask os (os.open_file path)) _ s h in
      let known =
        map_err_bind-eq-ok cannot_stat (ask os (os.file_type opened.0)) _
          (ask os (os.open_file path) s).1 opened.2 in
      opened.1
      ∙ ap ok (sym (check_kind_fd known.0 (record { fd = opened.0; name = path }) _ known.2))

-- ===== src/Enroll/Adds.antt =====
-- What enrolling and unsealing add to the trace.
use tpm2_autoenroll.Base.{
  Bool-cases, Option-cases, is_empty, Bytes, codes, equal, ℕ, ◌≡◌, refl, inl, inr, false, List,
}
use tpm2_autoenroll.Os.{Os, Event}
use tpm2_autoenroll.Os.Adds.{Adds, Allows, is_enroll, adds_rules}
use tpm2_autoenroll.Child.{Output}
use tpm2_autoenroll.Child.Adds.{Adds-run, Adds-run-Allows}
use tpm2_autoenroll.Device.{Device}
use tpm2_autoenroll.Device.Adds.{Adds-with_secret}
use tpm2_autoenroll.Enroll.{
  no_key_file, enroll_with, enroll_command, unseal_command, success, run, test_unseal,
}
use tpm2_autoenroll.Os.{spawned}
use tpm2_autoenroll.Tpm.{Bank}

is_enroll-unseal_command :
    (device : Device) (index : ℕ) → is_enroll (unseal_command device index) ≡ false
unfolding is_enroll unseal_command equal codes
is_enroll-unseal_command device index = refl

module _ {os : Os} {P : Event → Type 0} where
  pub Adds-success : (out : Output) → Adds P (success os out)
  unfolding success
  Adds-success out = elim (Option-cases out.status) [
    | inl e ↦ rw (success, e) (search adds_rules)
    | inr e ↦ rw (success, e.1) (search adds_rules)
  ]

  pub Adds-test_unseal :
      Allows P → (device : Device) (index : ℕ) → Adds P (test_unseal os device index)
  unfolding test_unseal
  Adds-test_unseal h device index =
      search (adds_rules, Adds-success, Adds-run-Allows h, is_enroll-unseal_command) depth 20

  Adds-enroll_with :
      Allows P
      → (device : Device) (tpm2_device : Bytes) (pcrs : List ℕ) (bank : Bank) (key : ℕ)
      → P (spawned (enroll_command device key tpm2_device pcrs bank))
      → Adds P (enroll_with os device tpm2_device pcrs bank key)
  unfolding enroll_with
  Adds-enroll_with h device tpm2_device pcrs bank key spawns =
      let kills = h.killing in search (adds_rules, Adds-success, Adds-run, spawns) depth 20

  -- Here the header is rewritten.
  pub Adds-enroll :
      Allows P
      → (device : Device) (tpm2_device : Bytes) (pcrs : List ℕ) (bank : Bank) (secret : Bytes)
      → ((key : ℕ) → P (spawned (enroll_command device key tpm2_device pcrs bank)))
      → Adds P (run os device tpm2_device pcrs bank secret)
  unfolding run
  Adds-enroll h device tpm2_device pcrs bank secret spawns = elim (Bool-cases (is_empty pcrs)) [
    | inl e ↦ rw (run, e) (search adds_rules)
    | inr e ↦
        rw (run, e)
          (Adds-with_secret no_key_file secret (enroll_with os device tpm2_device pcrs bank)
            (λ key. Adds-enroll_with h device tpm2_device pcrs bank key (spawns key)))
  ]

-- ===== src/Token/Read/Adds.antt =====
-- Reading the tokens adds the spawn of cryptsetup, and at most its kill.
use tpm2_autoenroll.Base.{Option-cases, codes, equal, ◌≡◌, refl, inl, inr, false}
use tpm2_autoenroll.Os.{Os, Event}
use tpm2_autoenroll.Os.Adds.{Adds, Allows, is_enroll, adds_rules}
use tpm2_autoenroll.Child.{Output}
use tpm2_autoenroll.Child.Adds.{Adds-run-Allows}
use tpm2_autoenroll.Device.{Device}
use tpm2_autoenroll.Json.{Json}
use tpm2_autoenroll.Token.Read.{dump_command, dumped, read}

is_enroll-dump_command : (device : Device) → is_enroll (dump_command device) ≡ false
unfolding is_enroll dump_command equal codes
is_enroll-dump_command device = refl

module _ {os : Os} {P : Event → Type 0} (json : Json) where
  Adds-dumped : (out : Output) → Adds P (dumped os json out)
  unfolding dumped
  Adds-dumped out = elim (Option-cases out.status) [
    | inl e ↦ rw (dumped, e) (search adds_rules)
    | inr e ↦ rw (dumped, e.1) (search adds_rules)
  ]

  pub Adds-read : Allows P → (device : Device) → Adds P (read os json device)
  unfolding read
  Adds-read h device =
      search (adds_rules, Adds-dumped, Adds-run-Allows h, is_enroll-dump_command) depth 20

-- ===== src/AskPw/Adds.antt =====
-- Prompting for a passphrase adds the spawn of the prompt, and at most its kill.
use tpm2_autoenroll.Base.{
  Option-cases, Bytes, codes, equal, ◌≡◌, refl, inl, inr, false, List, [], ◌∷◌,
}
use tpm2_autoenroll.Os.{Os, Event}
use tpm2_autoenroll.Os.Adds.{Adds, Allows, is_enroll, adds_rules}
use tpm2_autoenroll.AskPw.{Attempt, ask_command, offered, answered, ask}
use tpm2_autoenroll.Child.{Output}
use tpm2_autoenroll.Child.Adds.{Adds-run-Allows}

is_enroll-ask_command :
    (volume device : Bytes) (which : Attempt) → is_enroll (ask_command volume device which) ≡ false
unfolding is_enroll ask_command equal codes
is_enroll-ask_command volume device which = refl

module _ {os : Os} {P : Event → Type 0} where
  Adds-offered : (cs : List Bytes) → Adds P (offered os cs)
  unfolding offered
  Adds-offered [] = search adds_rules
  Adds-offered (c ∷ cs) = search adds_rules

  Adds-answered : (out : Output) → Adds P (answered os out)
  unfolding answered
  Adds-answered out = elim (Option-cases out.status) [
    | inl e ↦ rw (answered, e) (search adds_rules)
    | inr e ↦ rw (answered, e.1) (search (adds_rules, Adds-offered))
  ]

  pub Adds-ask_passphrase :
      Allows P → (volume device : Bytes) (which : Attempt) → Adds P (ask os volume device which)
  unfolding ask
  Adds-ask_passphrase h volume device which =
      search (adds_rules, Adds-answered, Adds-run-Allows h, is_enroll-ask_command)

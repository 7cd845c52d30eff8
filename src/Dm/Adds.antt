-- ===== src/Dm/Adds.antt =====
-- Looking for a mapping leaves no mark in the trace.
use tpm2_autoenroll.Base.{Bool-cases, Bytes, ℕ, inl, inr, false, List, [], ◌∷◌}
use tpm2_autoenroll.Base.Results.{Result, ok, err}
use tpm2_autoenroll.Dm.{is_dm, check_entry, any_entry, with_dir, is_active, name_path, uuid_path}
use tpm2_autoenroll.Os.{Os, Sys, Event, ask}
use tpm2_autoenroll.Os.Adds.{
  Adds, Extends, Extends-refl, Extends-trans, Adds-ask, Adds-then, Adds-value,
}

module _ {os : Os} {P : Event → Type 0} (dir volume : Bytes) where
  check_entry_at : (entry : Bytes) (s : Sys os) → Extends P s (check_entry os dir volume entry s).1
  unfolding check_entry
  check_entry_at entry s =
      let name = ask os (os.read_text (name_path dir entry)) s in
      Extends-trans ((Adds-ask (os.read_text (name_path dir entry))).at s)
        ((Adds-ask (os.read_text (uuid_path dir entry))).at name.1)

  any_entry_at :
      (entries : List Bytes) (s : Sys os) → Extends P s (any_entry os dir volume entries s).1
  unfolding any_entry
  any_entry_at [] s = Extends-refl s
  any_entry_at (entry ∷ entries) s =
      let checked = check_entry os dir volume entry s in
      elim (Bool-cases (is_dm entry)) [
        | inr e ↦ rw (any_entry, e) (any_entry_at entries s)
        | inl e ↦ elim (Bool-cases checked.0) [
          | inl f ↦ rw (any_entry, e, f) (check_entry_at entry s)
          | inr f ↦
              rw (any_entry, e, f)
                (Extends-trans (check_entry_at entry s) (any_entry_at entries checked.1))
        ]
      ]

  Adds-with_dir : (r : Result ℕ (List Bytes)) → Adds P (λ s. with_dir os dir volume (r, s))
  unfolding with_dir
  Adds-with_dir (ok entries) = record { at = any_entry_at entries }
  Adds-with_dir (err e) = Adds-value false

  pub Adds-is_active : Adds P (is_active os dir volume)
  unfolding is_active
  Adds-is_active =
      Adds-then (ask os (os.read_dir dir)) (λ r s. with_dir os dir volume (r, s))
        (Adds-ask (os.read_dir dir)) Adds-with_dir

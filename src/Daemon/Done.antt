-- ===== src/Daemon/Done.antt =====
-- When the daemon finds itself finished.
use mathlib.Core.List.{Memᴰ}
use tpm2_autoenroll.Base.{
  leb, if◌then◌else◌, leb→le, Bool-cases, all, All, Bytes, ℕ, ◌-◌, ◌≤◌, ◌<◌, ◌≡◌, refl, sym, ap,
  ◌∙◌, ◌≢◌, ◌↔◌, ◌⊎◌, inl, inr, Bool, true, false, none, some, List, [], ◌∷◌, arith,
}
use tpm2_autoenroll.Base.Results.{Result, ok, err}
use tpm2_autoenroll.Consent.{is_member}
use tpm2_autoenroll.Daemon.{Loop, all_done, finished_now}
use tpm2_autoenroll.Dm.{
  is_dm, check_entry, any_entry, with_dir, is_active, name_path, uuid_path, sys_block,
}
use tpm2_autoenroll.Finished.{all_answered, idle_too_long, is_done}
use tpm2_autoenroll.Os.{Os, Sys, ask}

-- Reading files and directories changes nothing.
pub record ReadsOnly (os : Os) : Type 0 where
  pub text : (p : Bytes) (w : os.World) → (os.read_text p w).1 ≡ w
  pub dir : (p : Bytes) (w : os.World) → (os.read_dir p w).1 ≡ w

module _ {os : Os} (only : ReadsOnly os) where
  text_same : (p : Bytes) (s : Sys os) → (ask os (os.read_text p) s).1 ≡ s
  unfolding ask
  text_same p s = ap (λ w. record s { world = w }) (only.text p s.world)

  dir_same : (p : Bytes) (s : Sys os) → (ask os (os.read_dir p) s).1 ≡ s
  unfolding ask
  dir_same p s = ap (λ w. record s { world = w }) (only.dir p s.world)

  check_entry_same :
      (dir volume entry : Bytes) (s : Sys os) → (check_entry os dir volume entry s).1 ≡ s
  unfolding check_entry
  check_entry_same dir volume entry s =
      text_same (uuid_path dir entry) (ask os (os.read_text (name_path dir entry)) s).1
      ∙ text_same (name_path dir entry) s

  any_entry_same :
      (dir volume : Bytes) (entries : List Bytes) (s : Sys os)
      → (any_entry os dir volume entries s).1 ≡ s
  unfolding any_entry
  any_entry_same dir volume [] s = refl
  any_entry_same dir volume (entry ∷ entries) s =
      let checked = check_entry os dir volume entry s in
      elim (Bool-cases (is_dm entry)) [
        | inr e ↦ rw (any_entry, e) (any_entry_same dir volume entries s)
        | inl e ↦ elim (Bool-cases checked.0) [
          | inl f ↦ rw (any_entry, e, f) (check_entry_same dir volume entry s)
          | inr f ↦
              rw (any_entry, e, f)
                (any_entry_same dir volume entries checked.1 ∙ check_entry_same dir volume entry s)
        ]
      ]

  with_dir_same :
      (dir volume : Bytes) (r : Result ℕ (List Bytes)) (s : Sys os)
      → (with_dir os dir volume (r, s)).1 ≡ s
  unfolding with_dir
  with_dir_same dir volume (ok entries) s = any_entry_same dir volume entries s
  with_dir_same dir volume (err e) s = refl

  is_active_same : (dir volume : Bytes) (s : Sys os) → (is_active os dir volume s).1 ≡ s
  unfolding is_active
  is_active_same dir volume s =
      let found = ask os (os.read_dir dir) s in
      with_dir_same dir volume found.0 found.1 ∙ dir_same dir s

  all_done-all :
      (served volumes : List Bytes) (s : Sys os)
      → (all_done os served volumes s).0
        ≡ all (is_done served (λ v. (is_active os sys_block v s).0)) volumes
  unfolding all_done is_done is_member
  all_done-all served [] s = refl
  all_done-all served (v ∷ volumes) s =
      let active = is_active os sys_block v s in
      elim (Bool-cases (is_member v served)) [
        | inl e ↦ rw (all_done, e) (all_done-all served volumes s)
        | inr e ↦ elim (Bool-cases active.0) [
          | inl f ↦
              rw (all_done, e, f)
                (ap (λ t. (all_done os served volumes t).0) (is_active_same sys_block v s)
                  ∙ all_done-all served volumes s)
          | inr f ↦ rw (all_done, e, f) refl
        ]
      ]

  module _ (volumes : List Bytes) (loop : Loop) (s : Sys os) where
    abbrev now : Sys os
    now = (ask os os.seconds s).1

    -- Answered in the plain phase, or open.
    pub IsHandled : Bytes → Type 0
    IsHandled v = (is_member v loop.served ≡ true) ⊎ ((is_active os sys_block v now).0 ≡ true)

    -- One of the volumes is neither.
    pub SomeLeft : Type 0
    SomeLeft =
        (v : Bytes) × Memᴰ v volumes
        × (is_member v loop.served ≡ false)
        × ((is_active os sys_block v now).0 ≡ false)

    abbrev done : Bytes → Bool
    done = is_done loop.served (λ v. (is_active os sys_block v now).0)

    all-cases :
        (l : List Bytes)
        → ((all done l ≡ true) × All IsHandled l)
          ⊎ ((all done l ≡ false)
              × ((v : Bytes) × Memᴰ v l
                  × (is_member v loop.served ≡ false)
                  × ((is_active os sys_block v now).0 ≡ false)))
    unfolding is_done is_member IsHandled
    all-cases [] = inl (refl, tt)
    all-cases (v ∷ l) = elim (Bool-cases (is_member v loop.served)) [
      | inl e ↦ elim (all-cases l) [
        | inl (h, every) ↦ inl (ground (arith, e, h), (inl e, every))
        | inr (h, (u, here, a, b)) ↦ inr (ground (arith, e, h), (u, Memᴰ.tail here, a, b))
      ]
      | inr e ↦ elim (Bool-cases (is_active os sys_block v now).0) [
        | inr f ↦ inr (ground (arith, e, f), (v, Memᴰ.head refl, e, f))
        | inl f ↦ elim (all-cases l) [
          | inl (h, every) ↦ inl (ground (arith, e, f, h), (inr f, every))
          | inr (h, (u, here, a, b)) ↦ inr (ground (arith, e, f, h), (u, Memᴰ.tail here, a, b))
        ]
      ]
    ]

    unhandled :
        (v : Bytes) (l : List Bytes)
        → Memᴰ v l
        → is_member v loop.served ≡ false
        → (is_active os sys_block v now).0 ≡ false
        → All IsHandled l
        → ⊥
    unfolding IsHandled
    unhandled v [] m a b h = elim m [ ]
    unhandled v (u ∷ l) (Memᴰ.head e) a b h = elim h.0 [
      | inl x ↦ apart (sym a ∙ ap (λ w. is_member w loop.served) e ∙ x)
      | inr x ↦ apart (sym b ∙ ap (λ w. (is_active os sys_block w now).0) e ∙ x)
    ]
      where
        apart : false ≢ true
        apart k = cc
    unhandled v (u ∷ l) (Memᴰ.tail m) a b h = unhandled v l m a b h.1

    abbrev idle : ℕ
    idle = (ask os os.seconds s).0 - loop.last_contact

    by_rule :
        (b : Bool)
        → all done volumes ≡ b
        → (finished_now os volumes loop s).0
          ≡ (if b then some all_answered else if leb 300 idle then some idle_too_long else none)
    unfolding finished_now
    by_rule b e = rw (all_done-all loop.served volumes now, e) refl

    -- Where reading changes nothing: the daemon finds itself finished exactly when each of its volumes
    -- was answered in the plain phase or is open now, or else when the last contact is five minutes
    -- ago or more; and it goes on exactly when a volume is left and the contact is more recent.
    pub finished_now_iff :
        ((finished_now os volumes loop s).0 ≡ some all_answered ↔ All IsHandled volumes)
        × ((finished_now os volumes loop s).0 ≡ some idle_too_long ↔ (SomeLeft × (300 ≤ idle)))
        × ((finished_now os volumes loop s).0 ≡ none ↔ (SomeLeft × (idle < 300)))
    unfolding SomeLeft
    finished_now_iff = elim (all-cases volumes) [
      | inl (e, every) ↦
          let r = by_rule true e in
          (
            (λ h. every, λ h. r),
            (
              λ h. absurd (idle_apart (sym r ∙ h)),
              λ ((v, m, a, b), late). absurd (unhandled v volumes m a b every),
            ),
            (
              λ h. absurd (none_apart (sym r ∙ h)),
              λ ((v, m, a, b), late). absurd (unhandled v volumes m a b every),
            ),
          )
      | inr (e, left) ↦
          let r = by_rule false e in
          let over = λ (every : All IsHandled volumes).
            unhandled left.0 volumes left.1 left.2 left.3 every in
          elim (Bool-cases (leb 300 idle)) [
            | inl f ↦
                let r' : (finished_now os volumes loop s).0 ≡ some idle_too_long = rw f at r in
                (
                  (λ h. absurd (idle_apart (sym h ∙ r')), λ h. absurd (over h)),
                  (λ h. (left, leb→le 300 idle f), λ h. r'),
                  (λ h. absurd (idle_none (sym r' ∙ h)), λ h. ground (arith, h.1, f)),
                )
            | inr f ↦
                let r' : (finished_now os volumes loop s).0 ≡ none = rw f at r in
                (
                  (λ h. absurd (none_apart (sym h ∙ r')), λ h. absurd (over h)),
                  (λ h. absurd (idle_none (sym h ∙ r')), λ h. ground (arith, h.1, f)),
                  (λ h. (left, ground (arith, f)), λ h. r'),
                )
          ]
    ]
      where
        idle_apart : some all_answered ≢ some idle_too_long
        idle_apart k = cc

        none_apart : some all_answered ≢ none
        none_apart k = cc

        idle_none : some idle_too_long ≢ none
        idle_none k = cc

-- ===== src/Enroll/NewToken.antt =====
-- Which token `find_new_token` takes for the new one.
use tpm2_autoenroll.Base.{
  Bool-cases, some_inj, filter, All, ℕ, ◌≡◌, refl, sym, ap, ◌∙◌, ◌↔◌, inl, inr, true, false, not,
  Option, some, List, [], ◌∷◌, ◌++◌, arith,
}
use tpm2_autoenroll.Enroll.{is_old, only_one, find_new_token}
use tpm2_autoenroll.Token.{Tpm2Token}

-- `t` stands among the tokens and is not the old one; all others have the old one's index.
abbrev pub IsOnlyNew : List Tpm2Token → Option ℕ → Tpm2Token → Type 0
IsOnlyNew tokens old t =
    (front back : List Tpm2Token) × (tokens ≡ front ++ t ∷ back)
    × (is_old old t ≡ false)
    × All (λ u. is_old old u ≡ true) front
    × All (λ u. is_old old u ≡ true) back

abbrev new_ones : Option ℕ → List Tpm2Token → List Tpm2Token
new_ones old = filter (λ t. not (is_old old t))

new_ones-nil :
    (old : Option ℕ) (l : List Tpm2Token) → new_ones old l ≡ [] → All (λ u. is_old old u ≡ true) l
unfolding filter
new_ones-nil old [] h = tt
new_ones-nil old (t ∷ l) h = elim (Bool-cases (is_old old t)) [
  | inl e ↦ (e, new_ones-nil old l (rw e at h))
  | inr e ↦ absurd (ground arith)
]

new_ones_none :
    (old : Option ℕ) (l : List Tpm2Token) → All (λ u. is_old old u ≡ true) l → new_ones old l ≡ []
unfolding filter
new_ones_none old [] a = refl
new_ones_none old (t ∷ l) a = rw a.0 (new_ones_none old l a.1)

only_one-some : (l : List Tpm2Token) (t : Tpm2Token) → only_one l ≡ some t → l ≡ t ∷ []
unfolding only_one
only_one-some [] t h = cc
only_one-some (u ∷ []) t h = ap (λ x. x ∷ []) (some_inj h)
only_one-some (u ∷ v ∷ l) t h = cc

one_new :
    (old : Option ℕ) (l : List Tpm2Token) (t : Tpm2Token)
    → new_ones old l ≡ t ∷ []
    → IsOnlyNew l old t
unfolding filter
one_new old [] t h = cc
one_new old (u ∷ l) t h = elim (Bool-cases (is_old old u)) [
  | inl e ↦
      let (front, back, whole, new, before, behind) = one_new old l t (rw e at h) in
      (u ∷ front, back, ap (◌∷◌ u) whole, new, (e, before), behind)
  | inr e ↦
      let same : u ≡ t = ground arith in
      let rest : new_ones old l ≡ [] = ground arith in
      ([], l, ap (λ x. x ∷ l) same, ap (is_old old) (sym same) ∙ e, tt, new_ones-nil old l rest)
]

new_ones-append :
    (old : Option ℕ) (front back : List Tpm2Token) (t : Tpm2Token)
    → is_old old t ≡ false
    → All (λ u. is_old old u ≡ true) front
    → All (λ u. is_old old u ≡ true) back
    → new_ones old (front ++ t ∷ back) ≡ t ∷ []
unfolding filter
new_ones-append old [] back t new before behind =
    rw new (ap (◌∷◌ t) (new_ones_none old back behind))
new_ones-append old (u ∷ front) back t new before behind =
    rw before.0 (new_ones-append old front back t new before.1 behind)

-- A token is taken for the new one exactly when it is the only one in the header that does not have
-- the index of the token that the repair was to replace.
pub find_new_token-iff-IsOnlyNew :
    (tokens : List Tpm2Token) (old : Option ℕ) (t : Tpm2Token)
    → find_new_token tokens old ≡ some t ↔ IsOnlyNew tokens old t
unfolding find_new_token only_one
find_new_token-iff-IsOnlyNew tokens old t = (
  λ h. one_new old tokens t (only_one-some (new_ones old tokens) t h),
  λ (front, back, whole, new, before, behind).
      ap (λ l. only_one (new_ones old l)) whole
      ∙ ap only_one (new_ones-append old front back t new before behind),
)

-- ===== src/Cache.antt =====
-- src/cache.rs and src/secret.rs: the passphrases that this boot has seen. A `Secret` is its bytes.
use tpm2_autoenroll.Base.{
  if◌then◌else◌, Bool-cases, any, All, All-snoc, Bytes, equal, equal_iff, ◌≡◌, refl, ◌∙◌, inl, inr,
  Bool, false, ◌||◌, List, [], ◌∷◌, ◌++◌, arith,
}

-- `struct Cache`
abbrev pub Cache : Type 0
Cache = List Bytes

-- `insert`
unfoldable pub insert : Bytes → Cache → Cache
insert secret entries =
    if any (λ e. equal e secret) entries then entries else entries ++ secret ∷ []

-- No passphrase is kept twice.
unfoldable pub Distinct : Cache → Type 0
Distinct [] = Unit {0}
Distinct (e ∷ entries) = (any (λ f. equal f e) entries ≡ false) × Distinct entries

any-append : (p : Bytes → Bool) (xs ys : Cache) → any p (xs ++ ys) ≡ any p xs || any p ys
any-append p [] ys = refl
any-append p (x ∷ xs) ys = ground (arith, any-append p xs ys)

equal_sym : (a b : Bytes) → equal a b ≡ equal b a
equal_sym a b = ground (arith, equal_iff a b, equal_iff b a)

Distinct-append :
    (entries : Cache) (secret : Bytes)
    → Distinct entries
    → any (λ e. equal e secret) entries ≡ false
    → Distinct (entries ++ secret ∷ [])
unfolding Distinct
Distinct-append [] secret d new = (refl, tt)
Distinct-append (e ∷ entries) secret d new = (
  any-append (λ f. equal f e) entries (secret ∷ []) ∙ ground (arith, d.0, equal_sym secret e),
  Distinct-append entries secret d.1 (ground arith),
)

-- Inserting keeps the entries apart, whether the passphrase was there or not.
pub insert-Distinct :
    (secret : Bytes) (entries : Cache) → Distinct entries → Distinct (insert secret entries)
unfolding insert
insert-Distinct secret entries d = elim (Bool-cases (any (λ e. equal e secret) entries)) [
  | inl e ↦ rw e d
  | inr e ↦ rw e (Distinct-append entries secret d e)
]

-- What holds of the entries and of the passphrase holds of the entries after it is inserted.
pub insert-All {ℓ} :
    (P : Bytes → Type ℓ) (secret : Bytes) (entries : Cache)
    → P secret
    → All P entries
    → All P (insert secret entries)
unfolding insert
insert-All P secret entries h hs = elim (Bool-cases (any (λ e. equal e secret) entries)) [
  | inl e ↦ rw e hs
  | inr e ↦ rw e (All-snoc P entries h hs)
]

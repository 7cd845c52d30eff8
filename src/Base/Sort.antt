-- ===== src/Base/Sort.antt =====
-- The sorts of Rust's standard library that the program calls, and what they give.
use tpm2_autoenroll.Base.{
  ltb, leb, ◌==◌, if◌then◌else◌, Bool-cases, All, contains, ℕ, suc, ◌≤◌, ◌≡◌, refl, ◌∙◌, inl, inr,
  ◌||◌, List, [], ◌∷◌, arith,
}
use tpm2_autoenroll.Base.Ascending.{From, IsAscending, SameMembers}

insert : ℕ → List ℕ → List ℕ
insert a [] = a ∷ []
insert a (x ∷ xs) = if leb a x then a ∷ x ∷ xs else x ∷ insert a xs

-- `sort_unstable` on bytes
unfoldable pub sort : List ℕ → List ℕ
unfolding insert
sort [] = []
sort (x ∷ xs) = insert x (sort xs)

dedup_after : ℕ → List ℕ → List ℕ
dedup_after last [] = []
dedup_after last (x ∷ xs) = let rest = dedup_after x xs in if x == last then rest else x ∷ rest

-- `dedup`: of equal neighbours the first is kept.
unfoldable pub dedup : List ℕ → List ℕ
unfolding dedup_after
dedup [] = []
dedup (x ∷ xs) = x ∷ dedup_after x xs

-- `BTreeSet::insert`, on the set in iteration order
unfoldable pub set_insert : ℕ → List ℕ → List ℕ
set_insert a [] = a ∷ []
set_insert a (x ∷ xs) =
    if ltb a x then a ∷ x ∷ xs else if a == x then x ∷ xs else x ∷ set_insert a xs

abbrev IsSorted : ℕ → List ℕ → Type 0
IsSorted lo [] = Unit {0}
IsSorted lo (x ∷ xs) = (lo ≤ x) × IsSorted x xs

insert-IsSorted : (a lo : ℕ) (xs : List ℕ) → IsSorted lo xs → lo ≤ a → IsSorted lo (insert a xs)
unfolding insert
insert-IsSorted a lo [] s h = (h, tt)
insert-IsSorted a lo (x ∷ xs) s h = ground (arith, insert-IsSorted a x xs s.1)

sort-IsSorted : (xs : List ℕ) → IsSorted 0 (sort xs)
unfolding sort
sort-IsSorted [] = tt
sort-IsSorted (x ∷ xs) = insert-IsSorted x 0 (sort xs) (sort-IsSorted xs) (omega arith)

contains-insert : (c a : ℕ) (xs : List ℕ) → contains c (insert a xs) ≡ a == c || contains c xs
unfolding insert contains
contains-insert c a [] = ground arith
contains-insert c a (x ∷ xs) = ground (arith, contains-insert c a xs)

contains-sort : (c : ℕ) (xs : List ℕ) → contains c (sort xs) ≡ contains c xs
unfolding sort contains
contains-sort c [] = refl
contains-sort c (x ∷ xs) = rw contains-insert (ground (arith, contains-sort c xs))

dedup_after-From :
    (last : ℕ) (xs : List ℕ) → IsSorted last xs → From (suc last) (dedup_after last xs)
unfolding dedup_after
dedup_after-From last [] s = tt
dedup_after-From last (x ∷ xs) s = ground (arith, dedup_after-From x xs s.1)

contains-dedup_after :
    (c last : ℕ) (xs : List ℕ)
    → last == c || contains c (dedup_after last xs) ≡ last == c || contains c xs
unfolding dedup_after contains
contains-dedup_after c last [] = refl
contains-dedup_after c last (x ∷ xs) = ground (arith, contains-dedup_after c x xs)

dedup-IsAscending : (xs : List ℕ) → IsSorted 0 xs → IsAscending (dedup xs)
unfolding dedup
dedup-IsAscending [] s = tt
dedup-IsAscending (x ∷ xs) s = (s.0, dedup_after-From x xs s.1)

contains-dedup : (c : ℕ) (xs : List ℕ) → contains c (dedup xs) ≡ contains c xs
unfolding dedup contains
contains-dedup c [] = refl
contains-dedup c (x ∷ xs) = contains-dedup_after c x xs

pub dedup-sort-IsAscending : (xs : List ℕ) → IsAscending (dedup (sort xs))
dedup-sort-IsAscending xs = dedup-IsAscending (sort xs) (sort-IsSorted xs)

pub dedup-sort-SameMembers : (xs : List ℕ) → SameMembers (dedup (sort xs)) xs
dedup-sort-SameMembers xs c = contains-dedup c (sort xs) ∙ contains-sort c xs

pub set_insert-From : (a lo : ℕ) (xs : List ℕ) → From lo xs → lo ≤ a → From lo (set_insert a xs)
unfolding set_insert
set_insert-From a lo [] f h = (h, tt)
set_insert-From a lo (x ∷ xs) f h = ground (arith, set_insert-From a (suc x) xs f.1)

pub contains-set_insert :
    (c a : ℕ) (xs : List ℕ) → contains c (set_insert a xs) ≡ a == c || contains c xs
unfolding set_insert contains
contains-set_insert c a [] = ground arith
contains-set_insert c a (x ∷ xs) = ground (arith, contains-set_insert c a xs)

insert-All {ℓ} : (P : ℕ → Type ℓ) (a : ℕ) (xs : List ℕ) → P a → All P xs → All P (insert a xs)
unfolding insert
insert-All P a [] h hs = (h, tt)
insert-All P a (x ∷ xs) h hs = elim (Bool-cases (leb a x)) [
  | inl e ↦ rw e ((h, hs))
  | inr e ↦ rw e ((hs.0, insert-All P a xs h hs.1))
]

sort-All {ℓ} : (P : ℕ → Type ℓ) (xs : List ℕ) → All P xs → All P (sort xs)
unfolding sort
sort-All P [] h = tt
sort-All P (x ∷ xs) h = insert-All P x (sort xs) h.0 (sort-All P xs h.1)

dedup_after-All {ℓ} :
    (P : ℕ → Type ℓ) (last : ℕ) (xs : List ℕ) → All P xs → All P (dedup_after last xs)
unfolding dedup_after
dedup_after-All P last [] h = tt
dedup_after-All P last (x ∷ xs) h = elim (Bool-cases (x == last)) [
  | inl e ↦ rw e (dedup_after-All P x xs h.1)
  | inr e ↦ rw e ((h.0, dedup_after-All P x xs h.1))
]

dedup-All {ℓ} : (P : ℕ → Type ℓ) (xs : List ℕ) → All P xs → All P (dedup xs)
unfolding dedup
dedup-All P [] h = tt
dedup-All P (x ∷ xs) h = (h.0, dedup_after-All P x xs h.1)

-- What holds of every element holds of every element of the sorted set.
pub dedup-sort-All {ℓ} : (P : ℕ → Type ℓ) (xs : List ℕ) → All P xs → All P (dedup (sort xs))
dedup-sort-All P xs h = dedup-All P (sort xs) (sort-All P xs h)

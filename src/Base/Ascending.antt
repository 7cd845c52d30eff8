-- ===== src/Base/Ascending.antt =====
-- Strictly ascending lists: what a `BTreeSet<u8>` holds, and a sorted, deduplicated `Vec<u8>`.
use tpm2_autoenroll.Base.{
  ltb, leb, filter, All, contains, ℕ, zero, suc, ◌+◌, ◌≤◌, ◌<◌, ◌≡◌, refl, Bool, false, ◌&&◌, ◌||◌,
  List, [], ◌∷◌, ◌++◌, arith,
}

-- Strictly ascending, with nothing below `lo`.
abbrev pub From : ℕ → List ℕ → Type 0
From lo [] = Unit {0}
From lo (x ∷ xs) = (lo ≤ x) × From (suc x) xs

abbrev pub IsAscending : List ℕ → Type 0
IsAscending = From 0

-- The same registers, whatever the order and the repetitions.
abbrev pub SameMembers : List ℕ → List ℕ → Type 0
SameMembers xs ys = (c : ℕ) → contains c xs ≡ contains c ys

pub From-mono : (m n : ℕ) (xs : List ℕ) → m ≤ n → From n xs → From m xs
From-mono m n [] h f = tt
From-mono m n (x ∷ xs) h f = (omega arith, f.1)

pub contains_below : (c lo : ℕ) (xs : List ℕ) → From lo xs → c < lo → contains c xs ≡ false
unfolding contains
contains_below c lo [] f h = refl
contains_below c lo (x ∷ xs) f h = ground (arith, contains_below c (suc x) xs f.1)

-- An ascending list is determined by its members.
pub From-unique : (lo : ℕ) (xs ys : List ℕ) → From lo xs → From lo ys → SameMembers xs ys → xs ≡ ys
unfolding contains
From-unique lo [] [] f g same = refl
From-unique lo [] (y ∷ ys) f g same = absurd (ground (arith, same y))
From-unique lo (x ∷ xs) [] f g same = absurd (ground (arith, same x))
From-unique lo (x ∷ xs) (y ∷ ys) f g same =
    let head : x ≡ y =
      ground
        (arith, same x, same y, contains_below x (suc y) ys g.1, contains_below y (suc x) xs f.1) in
    let tail : xs ≡ ys = From-unique (suc x) xs ys f.1 (rw head g.1) (λ c.
      ground (arith, same c, contains_below c (suc x) xs f.1, contains_below c (suc y) ys g.1)) in
    cc (head, tail)

pub From-append :
    (lo hi : ℕ) (xs ys : List ℕ)
    → From lo xs
    → All (λ x. x < hi) xs
    → lo ≤ hi
    → From hi ys
    → From lo (xs ++ ys)
From-append lo hi [] ys f b h g = From-mono lo hi ys h g
From-append lo hi (x ∷ xs) ys f b h g = (f.0, From-append (suc x) hi xs ys f.1 b.1 b.0 g)

pub filter-From : (p : ℕ → Bool) (lo : ℕ) (xs : List ℕ) → From lo xs → From lo (filter p xs)
unfolding filter
filter-From p lo [] f = tt
filter-From p lo (x ∷ xs) f =
    ground (arith, filter-From p (suc x) xs f.1, From-mono lo (suc x) (filter p xs))

pub contains-filter :
    (p : ℕ → Bool) (c : ℕ) (xs : List ℕ) → contains c (filter p xs) ≡ p c && contains c xs
unfolding contains filter
contains-filter p c [] = ground arith
contains-filter p c (x ∷ xs) = ground (arith, contains-filter p c xs)

pub contains-append :
    (c : ℕ) (xs ys : List ℕ) → contains c (xs ++ ys) ≡ contains c xs || contains c ys
unfolding contains
contains-append c [] ys = refl
contains-append c (x ∷ xs) ys = ground (arith, contains-append c xs ys)

-- `from..from + n`
abbrev pub range : ℕ → ℕ → List ℕ
range from zero = []
range from (suc n) = from ∷ range (suc from) n

pub range-From : (from n : ℕ) → From from (range from n)
range-From from zero = tt
range-From from (suc n) = (omega arith, range-From (suc from) n)

pub contains-range : (c from n : ℕ) → contains c (range from n) ≡ leb from c && ltb c (from + n)
unfolding contains
contains-range c from zero = ground arith
contains-range c from (suc n) = ground (arith, contains-range c (suc from) n)

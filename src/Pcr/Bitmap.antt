-- ===== src/Pcr/Bitmap.antt =====
-- The bits that `put_pcr_selection` sets: register p is bit p % 8 of byte p / 8.
use Prim.Native.Nat.{bit_and, bit_or}
use tpm2_autoenroll.Base.{
  ltb, ◌==◌, if◌then◌else◌, ltb→lt, lt→ltb, ==_iff, Bool-cases, length, all, All, set, get_or,
  Bytes, contains, ℕ, zero, suc, ◌+◌, ◌*◌, ◌/◌, ◌%◌, ◌^◌, ◌≤◌, ◌<◌, ◌≡◌, refl, sym, ap, ◌∙◌, inl,
  inr, Bool, true, false, not, ◌&&◌, ◌||◌, List, [], ◌∷◌, arith,
}
use tpm2_autoenroll.Base.Ascending.{range}
use tpm2_autoenroll.Pcr.{select, select_all}

abbrev pub has_bit : ℕ → ℕ → Bool
has_bit bits bit = not (bit_and bits (2 ^ bit) == 0)

-- Whether the bitmap selects register `pcr`.
unfoldable pub selects : Bytes → ℕ → Bool
selects bitmap pcr = has_bit (get_or bitmap (pcr / 8) 0) (pcr % 8)

and_left : (a b : Bool) → a && b ≡ true → a ≡ true
and_left a b h = ground arith

and_right : (a b : Bool) → a && b ≡ true → b ≡ true
and_right a b h = ground arith

-- A test that passes on a whole range passes at each of its numbers.
all-range :
    (test : ℕ → Bool) (lo count x : ℕ)
    → all test (range lo count) ≡ true
    → lo ≤ x
    → x < lo + count
    → test x ≡ true
all-range test lo zero x passes above under = absurd (omega arith)
all-range test lo (suc count) x passes above under = elim (Bool-cases (lo == x)) [
  | inl here ↦ ap test (sym ((==_iff lo x).0 here)) ∙ and_left _ _ passes
  | inr beyond ↦
      all-range test (suc lo) count x (ground arith) (ground (arith, ==_iff lo x)) (omega arith)
]

same : Bool → Bool → Bool
same true b = b
same false b = not b

same-eq : (a b : Bool) → same a b ≡ true → a ≡ b
unfolding same
same-eq a b h = ground arith

-- Setting bit k of a byte sets that bit and no other, and leaves a byte.
abbrev sets_alone : ℕ → ℕ → ℕ → Bool
sets_alone x k j = same (has_bit (bit_or x (2 ^ k)) j) (k == j || has_bit x j)

abbrev sets_bit : ℕ → ℕ → Bool
sets_bit x k = ltb (bit_or x (2 ^ k)) 256 && all (sets_alone x k) (range 0 8)

abbrev sets_bits : ℕ → Bool
sets_bits x = all (sets_bit x) (range 0 8)

every_byte : all sets_bits (range 0 256) ≡ true
unfolding same
every_byte = refl

sets_bit-true : (x k : ℕ) → x < 256 → k < 8 → sets_bit x k ≡ true
sets_bit-true x k hx hk =
    let row : sets_bits x ≡ true =
      all-range sets_bits 0 256 x every_byte (omega arith) (omega arith) in
    all-range (sets_bit x) 0 8 k row (omega arith) (omega arith)

has_bit-bit_or :
    (x k j : ℕ) → x < 256 → k < 8 → j < 8 → has_bit (bit_or x (2 ^ k)) j ≡ k == j || has_bit x j
has_bit-bit_or x k j hx hk hj = same-eq _ _ (
    all-range (sets_alone x k) 0 8 j (and_right _ _ (sets_bit-true x k hx hk)) (omega arith)
      (omega arith))

bit_or-lt : (x k : ℕ) → x < 256 → k < 8 → bit_or x (2 ^ k) < 256
bit_or-lt x k hx hk = ltb→lt _ _ (and_left _ _ (sets_bit-true x k hx hk))

abbrev pub IsBytes : Bytes → Type 0
IsBytes = All (λ b. b < 256)

get_or-set :
    (xs : Bytes) (i j v : ℕ)
    → i < length xs
    → get_or (set xs i v) j 0 ≡ (if i == j then v else get_or xs j 0)
get_or-set [] i j v h = elim h [ ]
get_or-set (x ∷ xs) zero zero v h = refl
get_or-set (x ∷ xs) zero (suc j) v h = ground arith
get_or-set (x ∷ xs) (suc i) zero v h = ground arith
get_or-set (x ∷ xs) (suc i) (suc j) v h = ground (arith, get_or-set xs i j v)

get_or-lt : (xs : Bytes) (i : ℕ) → IsBytes xs → get_or xs i 0 < 256
get_or-lt [] i b = omega arith
get_or-lt (x ∷ xs) zero b = b.0
get_or-lt (x ∷ xs) (suc i) b = get_or-lt xs i b.1

set-IsBytes : (xs : Bytes) (i v : ℕ) → IsBytes xs → v < 256 → IsBytes (set xs i v)
set-IsBytes [] i v b h = tt
set-IsBytes (x ∷ xs) zero v b h = (h, b.1)
set-IsBytes (x ∷ xs) (suc i) v b h = (b.0, set-IsBytes xs i v b.1 h)

length-set : (xs : Bytes) (i v : ℕ) → length (set xs i v) ≡ length xs
length-set [] i v = refl
length-set (x ∷ xs) zero v = refl
length-set (x ∷ xs) (suc i) v = ap suc (length-set xs i v)

length-select : (p : ℕ) (bitmap : Bytes) → length (select p bitmap) ≡ length bitmap
unfolding select
length-select p bitmap =
    ground (arith, length-set bitmap (p / 8) (bit_or (get_or bitmap (p / 8) 0) (2 ^ (p % 8))))

select-IsBytes : (p : ℕ) (bitmap : Bytes) → IsBytes bitmap → IsBytes (select p bitmap)
unfolding select
select-IsBytes p bitmap b = elim (Bool-cases (ltb p (length bitmap * 8))) [
  | inl inside ↦ rw inside (
      set-IsBytes bitmap (p / 8) _ b
        (bit_or-lt (get_or bitmap (p / 8) 0) (p % 8) (get_or-lt bitmap (p / 8) b) (omega arith)))
  | inr outside ↦ rw outside b
]

selects-select :
    (p q : ℕ) (bitmap : Bytes)
    → IsBytes bitmap
    → p < length bitmap * 8
    → selects (select p bitmap) q ≡ p == q || selects bitmap q
unfolding select selects
selects-select p q bitmap b h =
    rw (lt→ltb p (length bitmap * 8) h, get_or-set bitmap (p / 8) (q / 8) _ (omega arith))
      (elim (Bool-cases (p / 8 == q / 8)) [
        | inl near ↦
            let byte : p / 8 ≡ q / 8 = (==_iff (p / 8) (q / 8)).0 near in
            rw
              (
                near,
                has_bit-bit_or (get_or bitmap (p / 8) 0) (p % 8) (q % 8)
                    (get_or-lt bitmap (p / 8) b) (omega arith) (omega arith),
                byte,
              )
              (ground arith)
        | inr far ↦ rw far (ground arith)
      ])

pub length-select_all :
    (indices : List ℕ) (bitmap : Bytes) → length (select_all indices bitmap) ≡ length bitmap
unfolding select_all
length-select_all [] bitmap = refl
length-select_all (p ∷ indices) bitmap =
    length-select_all indices (select p bitmap) ∙ length-select p bitmap

pub select_all-IsBytes :
    (indices : List ℕ) (bitmap : Bytes) → IsBytes bitmap → IsBytes (select_all indices bitmap)
unfolding select_all
select_all-IsBytes [] bitmap b = b
select_all-IsBytes (p ∷ indices) bitmap b =
    select_all-IsBytes indices (select p bitmap) (select-IsBytes p bitmap b)

-- The bitmap of a list of registers that it has bits for selects those registers, and those that
-- it selected before.
pub selects-select_all :
    (indices : List ℕ) (q : ℕ) (bitmap : Bytes)
    → IsBytes bitmap
    → All (λ p. p < length bitmap * 8) indices
    → selects (select_all indices bitmap) q ≡ contains q indices || selects bitmap q
unfolding select_all contains
selects-select_all [] q bitmap b h = refl
selects-select_all (p ∷ indices) q bitmap b h =
    rw
      (selects-select_all indices q (select p bitmap) (select-IsBytes p bitmap b)
        (rw (length-select p bitmap) h.1))
      (rw (selects-select p q bitmap b h.0) (ground arith))

-- ===== src/Base/Trim.antt =====
-- `str::trim`, on the bytes of a text.
use mathlib.Core.List.{reverse}
use tpm2_autoenroll.Base.{
  leb, ◌==◌, if◌then◌else◌, length, Bytes, ℕ, zero, suc, Bool, ◌&&◌, ◌||◌, Option, none, some, [],
  ◌∷◌,
}

-- The white space of Unicode in UTF-8, by the number of bytes.
unfoldable pub is_space_1 : ℕ → Bool
is_space_1 a = leb 9 a && leb a 13 || a == 32

unfoldable pub is_space_2 : ℕ → ℕ → Bool
is_space_2 a b = a == 0xc2 && (b == 0x85 || b == 0xa0)

unfoldable pub is_space_3 : ℕ → ℕ → ℕ → Bool
is_space_3 a b c =
    a == 0xe1 && b == 0x9a && c == 0x80
    || a == 0xe2 && b == 0x80 && (leb 0x80 c && leb c 0x8a || c == 0xa8 || c == 0xa9 || c == 0xaf)
    || a == 0xe2 && b == 0x81 && c == 0x9f
    || a == 0xe3 && b == 0x80 && c == 0x80

-- The text behind one white space, when it begins with one; `two` and `three` test for one of two
-- and of three bytes.
unfoldable pub behind_3 : (ℕ → ℕ → ℕ → Bool) → ℕ → ℕ → Bytes → Option Bytes
behind_3 three a b [] = none
behind_3 three a b (c ∷ s) = if three a b c then some s else none

unfoldable pub behind_2 : (ℕ → ℕ → Bool) → (ℕ → ℕ → ℕ → Bool) → ℕ → Bytes → Option Bytes
behind_2 two three a [] = none
behind_2 two three a (b ∷ s) = if two a b then some s else behind_3 three a b s

unfoldable pub behind_space : (ℕ → ℕ → Bool) → (ℕ → ℕ → ℕ → Bool) → Bytes → Option Bytes
behind_space two three [] = none
behind_space two three (a ∷ s) = if is_space_1 a then some s else behind_2 two three a s

-- All white space at the front goes; there is no more of it than there are bytes.
unfoldable pub skip : (ℕ → ℕ → Bool) → (ℕ → ℕ → ℕ → Bool) → ℕ → Bytes → Bytes
skip two three zero s = s
skip two three (suc n) s = elim (behind_space two three s) [
  | none ↦ s
  | some rest ↦ skip two three n rest
]

unfoldable pub trim_start : Bytes → Bytes
trim_start s = skip is_space_2 is_space_3 (length s) s

-- The same from the end, on the bytes in reverse.
unfoldable pub trim_end : Bytes → Bytes
trim_end s =
    reverse (skip (λ b a. is_space_2 a b) (λ c b a. is_space_3 a b c) (length s) (reverse s))

-- `trim`
unfoldable pub trim : Bytes → Bytes
trim s = trim_end (trim_start s)

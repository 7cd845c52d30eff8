-- ===== src/Base/Text.antt =====
-- Bytes, and the text operations of Rust's standard library that the program uses. A `str` is the
-- list of its bytes.
use Prim.Native.Nat.{ℕ, suc}
use Prim.Native.Char.{code}
use Prim.Native.String.{String}
use mathlib.Core.Path.{◌≡◌, refl, sym, ap, ◌∙◌}
use mathlib.Core.Bool.{Bool, true, false, ◌&&◌, ◌||◌}
use mathlib.Core.Logic.{◌↔◌}
use mathlib.Core.List.{List, [], ◌∷◌, ◌++◌}
use mathlib.Core.Option.{Option, none, some}
use native.Mathlib.Omega.{arith}
use tpm2_autoenroll.Base.Tests.{if◌then◌else◌, ◌==◌, leb}

abbrev pub Bytes : Type 0
Bytes = List ℕ

-- The bytes of a literal; every literal of the development is ASCII.
unfoldable pub codes : String → Bytes
codes String.[] = []
codes (String.◌∷◌ c s) = code c ∷ codes s

-- `==` on slices and on `str`
unfoldable pub equal : Bytes → Bytes → Bool
equal [] [] = true
equal (x ∷ xs) (y ∷ ys) = x == y && equal xs ys
equal _ _ = false

pub equal_refl : (s : Bytes) → equal s s ≡ true
unfolding equal
equal_refl [] = refl
equal_refl (c ∷ s) = ground (arith, equal_refl s)

equal-same : (s t : Bytes) → equal s t ≡ true → s ≡ t
unfolding equal
equal-same [] [] h = refl
equal-same [] (d ∷ t) h = cc
equal-same (c ∷ s) [] h = cc
equal-same (c ∷ s) (d ∷ t) h = ground (arith, equal-same s t)

-- The test is the equality of the texts.
pub equal_iff : (s t : Bytes) → (equal s t ≡ true) ↔ (s ≡ t)
equal_iff s t = (equal-same s t, λ e. ap (equal s) (sym e) ∙ equal_refl s)

-- `u8::is_ascii_alphanumeric`
unfoldable pub is_alnum : ℕ → Bool
is_alnum b = leb b'0' b && leb b b'9' || leb b'A' b && leb b b'Z' || leb b'a' b && leb b b'z'

-- `strip_prefix`
unfoldable pub strip_prefix : Bytes → Bytes → Option Bytes
strip_prefix [] s = some s
strip_prefix (p ∷ ps) [] = none
strip_prefix (p ∷ ps) (c ∷ cs) = if p == c then strip_prefix ps cs else none

pub strip_prefix_append : (p s : Bytes) → strip_prefix p (p ++ s) ≡ some s
unfolding strip_prefix
strip_prefix_append [] s = refl
strip_prefix_append (c ∷ p) s = ground (arith, strip_prefix_append p s)

pub strip_prefix_sound : (p s : Bytes) {r : Bytes} → strip_prefix p s ≡ some r → s ≡ p ++ r
unfolding strip_prefix
strip_prefix_sound [] s h = cc
strip_prefix_sound (c ∷ p) [] h = cc
strip_prefix_sound (c ∷ p) (d ∷ s) {r} h = ground (arith, strip_prefix_sound p s {r = r})

-- `starts_with`
unfoldable pub starts_with : Bytes → Bytes → Bool
starts_with [] s = true
starts_with (p ∷ ps) [] = false
starts_with (p ∷ ps) (c ∷ cs) = p == c && starts_with ps cs

-- `iter().position(|b| b == c)`
unfoldable pub position : ℕ → Bytes → Option ℕ
position c [] = none
position c (x ∷ xs) =
    if x == c then some 0 else elim (position c xs) [ none ↦ none | some i ↦ some (suc i) ]

-- `contains` of one byte
unfoldable pub contains : ℕ → Bytes → Bool
contains c [] = false
contains c (x ∷ xs) = x == c || contains c xs

-- ===== src/Base/Utf8.antt =====
-- `String::from_utf8_lossy`, on the bytes of the text that it gives.
use tpm2_autoenroll.Base.Tests.{if◌then◌else◌, ltb, leb, ◌==◌}
use tpm2_autoenroll.Base.Text.{Bytes}
use Prim.Native.Nat.{ℕ}
use mathlib.Core.Bool.{◌&&◌}
use mathlib.Core.List.{List, [], ◌∷◌, ◌++◌}

-- U+FFFD
abbrev pub replacement : Bytes
replacement = 0xef ∷ 0xbf ∷ 0xbd ∷ []

-- The ranges of the bytes that may follow the first byte of a sequence.
following : ℕ → List (ℕ × ℕ)
following b =
    if leb 0xc2 b && leb b 0xdf
    then (0x80, 0xbf) ∷ []
    else if b == 0xe0
    then (0xa0, 0xbf) ∷ (0x80, 0xbf) ∷ []
    else if b == 0xed
    then (0x80, 0x9f) ∷ (0x80, 0xbf) ∷ []
    else if leb 0xe1 b && leb b 0xef
    then (0x80, 0xbf) ∷ (0x80, 0xbf) ∷ []
    else if b == 0xf0
    then (0x90, 0xbf) ∷ (0x80, 0xbf) ∷ (0x80, 0xbf) ∷ []
    else if leb 0xf1 b && leb b 0xf3
    then (0x80, 0xbf) ∷ (0x80, 0xbf) ∷ (0x80, 0xbf) ∷ []
    else if b == 0xf4
    then (0x80, 0x8f) ∷ (0x80, 0xbf) ∷ (0x80, 0xbf) ∷ []
    else []

-- The sequence begun, and what may still follow in it; both are empty between two sequences.
abbrev Pending : Type 0
Pending = Bytes × List (ℕ × ℕ)

-- A byte that begins a sequence: the text that is complete with it, and what is pending.
start : ℕ → Bytes × Pending
start b = if ltb b 0x80 then (b ∷ [], ([], [])) else from b (following b)
  where
    from : ℕ → List (ℕ × ℕ) → Bytes × Pending
    from b [] = (replacement, ([], []))
    from b (r ∷ rs) = ([], (b ∷ [], r ∷ rs))

-- An unfinished sequence becomes one replacement, and the byte that broke it begins the next.
advance : ℕ → Pending → Bytes × Pending
advance b (seen, []) = start b
advance b (seen, (lo, hi) ∷ []) =
    if leb lo b && leb b hi
    then (seen ++ b ∷ [], ([], []))
    else (replacement ++ (start b).0, (start b).1)
advance b (seen, (lo, hi) ∷ r ∷ rs) =
    if leb lo b && leb b hi
    then ([], (seen ++ b ∷ [], r ∷ rs))
    else (replacement ++ (start b).0, (start b).1)

decode : Pending → Bytes → Bytes
decode (seen, []) [] = []
decode (seen, r ∷ rs) [] = replacement
decode pending (b ∷ bs) = (advance b pending).0 ++ decode (advance b pending).1 bs

unfoldable pub from_utf8_lossy : Bytes → Bytes
unfolding decode advance start following
from_utf8_lossy bs = decode ([], []) bs

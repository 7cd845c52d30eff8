-- ===== src/Base/Decimal.antt =====
-- Decimal numerals.
use tpm2_autoenroll.Base.Tests.{if◌then◌else◌, ltb}
use tpm2_autoenroll.Base.Text.{Bytes}
use Prim.Native.Nat.{ℕ, zero, suc, ◌+◌, ◌/◌, ◌%◌}
use mathlib.Core.List.{[], ◌∷◌, ◌++◌}

decimal_digits : ℕ → ℕ → Bytes
decimal_digits zero n = []
decimal_digits (suc fuel) n =
    let rest = decimal_digits fuel (n / 10) in
    (if ltb n 10 then [] else rest) ++ (b'0' + n % 10) ∷ []

-- The numeral of `n`, as `to_string` writes it; `n` rounds and one more are enough.
unfoldable pub decimal : ℕ → Bytes
unfolding decimal_digits
decimal n = decimal_digits (suc n) n

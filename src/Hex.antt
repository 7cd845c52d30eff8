-- ===== src/Hex.antt =====
-- Hexadecimal text: `unhex` of src/token.rs, and the `{b:02x}` of src/drift.rs and src/preflight.rs.
use tpm2_autoenroll.Base.{
  ltb, leb, ◌==◌, if◌then◌else◌, length, take, All, Bytes, codes, ℕ, ◌+◌, ◌-◌, ◌*◌, ◌/◌, ◌%◌, ◌^◌,
  ◌<◌, ◌≡◌, refl, ◌&&◌, Option, none, some, [], ◌∷◌, ◌++◌, arith,
}
use tpm2_autoenroll.Base.Options.{◌>>=◌}

-- `char::to_digit(16)`
unfoldable pub to_digit : ℕ → Option ℕ
to_digit c =
    if leb b'0' c && leb c b'9'
    then some (c - b'0')
    else if leb b'a' c && leb c b'f'
    then some (c - b'a' + 10)
    else if leb b'A' c && leb c b'F'
    then some (c - b'A' + 10)
    else none

-- The loop of `unhex` over the pairs.
unfoldable pub unhex_pairs : Bytes → Option Bytes
unhex_pairs [] = some []
unhex_pairs (c ∷ []) = none
unhex_pairs (h ∷ l ∷ rest) = do
  hi ← to_digit h
  lo ← to_digit l
  out ← unhex_pairs rest
  some ((hi * 16 + lo) % 2 ^ 8 ∷ out)

-- `unhex`
unfoldable pub unhex : Bytes → Option Bytes
unhex text = if length text % 2 == 0 then unhex_pairs text else none

-- One digit of `{:x}`
unfoldable pub hex_digit : ℕ → ℕ
hex_digit n = if ltb n 10 then b'0' + n else b'a' + (n - 10)

-- `{b:02x}` of every byte in turn, as `log_state` collects them
unfoldable pub hex : Bytes → Bytes
hex [] = []
hex (b ∷ bs) = hex_digit (b / 16) ∷ hex_digit (b % 16) ∷ hex bs

-- `short`
pub short : Bytes → Bytes
short digest = hex (take 8 digest) ++ (if ltb 8 (length digest) then codes "..." else [])

pub to_digit-hex_digit : (n : ℕ) → n < 16 → to_digit (hex_digit n) ≡ some n
unfolding to_digit hex_digit
to_digit-hex_digit n h = ground arith

pub unhex_pairs-hex : (bs : Bytes) → All (λ b. b < 256) bs → unhex_pairs (hex bs) ≡ some bs
unfolding unhex_pairs hex
unhex_pairs-hex [] small = refl
unhex_pairs-hex (b ∷ bs) small =
    let whole : ((b / 16) * 16 + b % 16) % 2 ^ 8 ≡ b = omega arith in
    rw (
      to_digit-hex_digit (b / 16) (omega arith),
      to_digit-hex_digit (b % 16) (omega arith),
      unhex_pairs-hex bs small.1,
      whole,
    )

length-hex : (bs : Bytes) → length (hex bs) ≡ 2 * length bs
unfolding hex
length-hex [] = refl
length-hex (b ∷ bs) = omega (arith, length-hex bs)

-- What is printed of a digest of bytes is read back as that digest.
pub unhex-hex : (bs : Bytes) → All (λ b. b < 256) bs → unhex (hex bs) ≡ some bs
unfolding unhex
unhex-hex bs small = ground (arith, length-hex bs, unhex_pairs-hex bs small)

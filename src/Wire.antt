-- ===== src/Wire.antt =====
-- src/tpm2.rs, the wire format: big-endian fields put at the end of a buffer, and the `Reader` that
-- takes them off a response.
pub mod Reads
use tpm2_autoenroll.Base.{
  ltb, leb, if◌then◌else◌, length, take, drop, Bytes, ℕ, ◌+◌, ◌-◌, ◌*◌, ◌/◌, ◌%◌, ◌^◌, List, [],
  ◌∷◌, ◌++◌,
}
use tpm2_autoenroll.Base.Results.{Result, ok, err, ◌>>=◌}

-- The errors of the wire format and of the exchanges with the TPM; the source formats each into a
-- message with these values.
pub data TpmError : Type 0 where
  length_overflowed : TpmError
  ended : ℕ → ℕ → TpmError
  short_response : ℕ → TpmError
  wrong_size : ℕ → ℕ → TpmError
  returned_code : ℕ → TpmError
  wrong_capability : ℕ → TpmError
  no_permanent : TpmError
  selection_count : ℕ → TpmError
  pcr_out_of_range : ℕ → TpmError
  digest_count : ℕ → ℕ → TpmError
  repeated_pcr : List ℕ → TpmError
  unasked_pcr : ℕ → List ℕ → TpmError
  no_open not_character_device : TpmError
  write_failed poll_failed read_failed : ℕ → ℕ → TpmError
  no_response : ℕ → TpmError
  command_failed : ℕ → TpmError → TpmError

-- `u16::to_be_bytes` and `u32::to_be_bytes`
abbrev pub to_be16 : ℕ → Bytes
to_be16 v = (v / 2 ^ 8 % 2 ^ 8) ∷ (v % 2 ^ 8) ∷ []

abbrev pub to_be32 : ℕ → Bytes
to_be32 v = (v / 2 ^ 24 % 2 ^ 8) ∷ (v / 2 ^ 16 % 2 ^ 8) ∷ (v / 2 ^ 8 % 2 ^ 8) ∷ (v % 2 ^ 8) ∷ []

-- `u16::from_be_bytes` and `u32::from_be_bytes`, on as many bytes as they are given
abbrev pub from_be_onto : ℕ → Bytes → ℕ
from_be_onto acc [] = acc
from_be_onto acc (b ∷ bs) = from_be_onto (acc * 2 ^ 8 + b) bs

abbrev pub from_be : Bytes → ℕ
from_be = from_be_onto 0

unfoldable pub put_u16 : Bytes → ℕ → Bytes
put_u16 out v = out ++ to_be16 v

unfoldable pub put_u32 : Bytes → ℕ → Bytes
put_u32 out v = out ++ to_be32 v

-- `bytes.len() as u16` keeps the low 16 bits.
unfoldable pub put_tpm2b : Bytes → Bytes → Bytes
put_tpm2b out bytes = put_u16 out (length bytes % 2 ^ 16) ++ bytes

pub record Reader : Type 0 where
  pub buf : Bytes
  pub at : ℕ

-- `Reader::new`
abbrev pub new : Bytes → Reader
new buf = record { buf = buf; at = 0 }

unfoldable pub remaining : Reader → ℕ
remaining r = length r.buf - r.at

abbrev pub Read : Type 0 → Type 0
Read A = Reader → Result TpmError (A × Reader)

-- `checked_add` on a 64-bit `usize`, then the bounds check, then the slice.
unfoldable pub bytes : ℕ → Read Bytes
bytes n r =
    if leb (2 ^ 64) (r.at + n)
    then err length_overflowed
    else if ltb (length r.buf) (r.at + n)
    then err (ended (length r.buf) (r.at + n))
    else ok (take n (drop r.at r.buf), record r { at = r.at + n })

unfoldable pub u8 : Read ℕ
u8 r = do (b, r') ← bytes 1 r; ok (from_be b, r')

unfoldable pub u16 : Read ℕ
u16 r = do (b, r') ← bytes 2 r; ok (from_be b, r')

unfoldable pub u32 : Read ℕ
u32 r = do (b, r') ← bytes 4 r; ok (from_be b, r')

unfoldable pub tpm2b : Read Bytes
tpm2b r = do (size, r') ← u16 r; bytes size r'

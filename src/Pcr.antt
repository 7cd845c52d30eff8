-- ===== src/Pcr.antt =====
-- src/tpm2.rs, PCR selections: the bitmap that names PCRs in a command, the PCR_Read response, and
-- how `read_pcrs` folds one round into what it has read.
mod Bitmap
mod Tests
pub mod Scan
pub mod RoundTrip
pub mod Absorb
use Prim.Native.Nat.{bit_and, bit_or, min}
use tpm2_autoenroll.Base.{
  ltb, ◌==◌, if◌then◌else◌, length, is_empty, find, filter, set, get_or, Bytes, contains, ℕ, zero,
  suc, ◌+◌, ◌*◌, ◌/◌, ◌%◌, ◌^◌, Bool, false, not, ◌||◌, none, some, List, [], ◌∷◌, ◌++◌,
}
use tpm2_autoenroll.Base.Results.{Result, ok, err, ◌>>=◌}
use tpm2_autoenroll.Wire.{
  TpmError, selection_count, pcr_out_of_range, digest_count, repeated_pcr, unasked_pcr, put_u16,
  put_u32, Reader, new, remaining, Read, bytes, u8, u16, u32, tpm2b,
}
use tpm2_autoenroll.Tpm.{Bank}

-- `bitmap[pcr / 8] |= 1 << (pcr % 8)`, for a register that the bitmap has a bit for
select : ℕ → Bytes → Bytes
select pcr bitmap =
    if ltb pcr (length bitmap * 8)
    then set bitmap (pcr / 8) (bit_or (get_or bitmap (pcr / 8) 0) (2 ^ (pcr % 8)))
    else bitmap

-- `for &pcr in indices`
pub select_all : List ℕ → Bytes → Bytes
select_all [] bitmap = bitmap
select_all (pcr ∷ indices) bitmap = select_all indices (select pcr bitmap)

-- `put_pcr_selection`
pub put_pcr_selection : Bytes → Bank → List ℕ → Bytes
put_pcr_selection out bank indices =
    let bitmap = select_all indices (0 ∷ 0 ∷ 0 ∷ []) in
    put_u16 (put_u32 out 1) bank ++ (length bitmap % 2 ^ 8) ∷ bitmap

-- The body of the loop over the bits of one byte of the bitmap.
push_bit : ℕ → ℕ → ℕ → List ℕ → Result TpmError (List ℕ)
push_bit byte bits bit returned =
    let pcr = byte * 8 + bit in
    if bit_and bits (2 ^ bit) == 0
    then ok returned
    else if ltb 23 pcr
    then err (pcr_out_of_range pcr)
    else ok (returned ++ (pcr % 2 ^ 8) ∷ [])

-- `for bit in 0..8`, with the rounds left
pub scan_bits : ℕ → ℕ → ℕ → ℕ → List ℕ → Result TpmError (List ℕ)
scan_bits zero byte bits bit returned = ok returned
scan_bits (suc n) byte bits bit returned = do
  more ← push_bit byte bits bit returned
  scan_bits n byte bits (bit + 1) more

-- `for (byte, bits) in bitmap.iter().enumerate()`
pub scan_bytes : ℕ → Bytes → List ℕ → Result TpmError (List ℕ)
scan_bytes byte [] returned = ok returned
scan_bytes byte (bits ∷ bitmap) returned = do
  more ← scan_bits 8 byte bits 0 returned
  scan_bytes (byte + 1) bitmap more

-- What `Vec::with_capacity` reserves for the digests.
pub digest_capacity : ℕ → Reader → ℕ
digest_capacity count r = min count (remaining r / 2)

-- `for _ in 0..count`
pub read_digests : ℕ → List Bytes → Read (List Bytes)
read_digests zero digests r = ok (digests, r)
read_digests (suc n) digests r = do
  (digest, r') ← tpm2b r
  read_digests n (digests ++ digest ∷ []) r'

abbrev pub PcrRead : Type 0
PcrRead = List ℕ × List Bytes

-- The part of `parse_pcr_read` up to the digest count.
pub parse_selection : Read (List ℕ)
parse_selection r = do
  (update_counter, r1) ← u32 r
  (selections, r2) ← u32 r1
  if not (selections == 1) then err (selection_count selections) else do
    (hash, r3) ← u16 r2
    (size, r4) ← u8 r3
    (bitmap, r5) ← bytes size r4
    returned ← scan_bytes 0 bitmap []
    ok (returned, r5)

pub parse_pcr_read : Bytes → Result TpmError PcrRead
parse_pcr_read payload = do
  (returned, r1) ← parse_selection (new payload)
  (count, r2) ← u32 r1
  (digests, r3) ← read_digests count [] r2
  ok (returned, digests)

-- `returned.windows(2).any(|w| w[0] == w[1])`
pub repeats : List ℕ → Bool
repeats [] = false
repeats (x ∷ []) = false
repeats (x ∷ y ∷ l) = x == y || repeats (y ∷ l)

-- `zip`
pub zip : List ℕ → List Bytes → List (ℕ × Bytes)
zip [] ds = []
zip (p ∷ ps) [] = []
zip (p ∷ ps) (d ∷ ds) = (p, d) ∷ zip ps ds

pub record Round : Type 0 where
  pub outstanding : List ℕ
  pub out : List (ℕ × Bytes)

-- `absorb`; the two `&mut` arguments are the record.
pub absorb : Round → PcrRead → Result TpmError Round
absorb s (returned, digests) =
    if is_empty returned || not (length digests == length returned)
    then err (digest_count (length digests) (length returned))
    else if repeats returned
    then err (repeated_pcr returned)
    else elim (find (λ p. not (contains p s.outstanding)) returned) [
      | some pcr ↦ err (unasked_pcr pcr s.outstanding)
      | none ↦ ok (record {
        outstanding = filter (λ p. not (contains p returned)) s.outstanding;
        out = s.out ++ zip returned digests;
      })
    ]

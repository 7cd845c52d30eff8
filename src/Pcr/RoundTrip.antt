-- ===== src/Pcr/RoundTrip.antt =====
-- A PCR_Read response for the selection that the program wrote is read back as that selection.
use Prim.Native.Nat.{bit_and-bitwise}
use mathlib.Core.List.{append_assoc, append-nil}
use tpm2_autoenroll.Base.{
  length, filter, All, get_or, Bytes, contains, ℕ, zero, suc, ◌+◌, ◌*◌, ◌/◌, ◌%◌, ◌^◌, ◌≤◌, ◌<◌,
  ◌≡◌, refl, ap, ◌∙◌, Bool, true, false, List, [], ◌∷◌, ◌++◌, arith,
}
use tpm2_autoenroll.Base.Ascending.{
  From-unique, filter-From, contains-filter, range, range-From, contains-range,
}
use tpm2_autoenroll.Base.Sort.{sort, dedup, dedup-sort-IsAscending, dedup-sort-SameMembers}
use tpm2_autoenroll.Base.Results.{ok}
use tpm2_autoenroll.Pcr.Bitmap.{selects, length-select_all, selects-select_all}
use tpm2_autoenroll.Pcr.Scan.{pick, picks, scan_bits-picks, Real}
use tpm2_autoenroll.Pcr.{
  scan_bytes, select_all, put_pcr_selection, read_digests, parse_selection, parse_pcr_read,
}
use tpm2_autoenroll.Wire.Reads.{
  Before, Before-new, bytes-Before, u8-Before, u16-Before, u32-Before, tpm2b-Before,
}
use tpm2_autoenroll.Wire.{to_be16, to_be32, put_u16, put_u32, put_tpm2b, Reader, new}
use tpm2_autoenroll.Tpm.{Bank}

filter-append : (p : ℕ → Bool) (xs ys : List ℕ) → filter p (xs ++ ys) ≡ filter p xs ++ filter p ys
unfolding filter
filter-append p [] ys = refl
filter-append p (x ∷ xs) ys = ground (arith, filter-append p xs ys)

picks-filter :
    (n byte bit : ℕ) (bitmap : Bytes)
    → bit + n ≤ 8
    → picks n byte (get_or bitmap byte 0) bit ≡ filter (selects bitmap) (range (byte * 8 + bit) n)
unfolding picks pick selects filter
picks-filter zero byte bit bitmap h = refl
picks-filter (suc n) byte bit bitmap h =
    let row : (byte * 8 + bit) / 8 ≡ byte = omega arith in
    let column : (byte * 8 + bit) % 8 ≡ bit = omega arith in
    let next : byte * 8 + (bit + 1) ≡ suc (byte * 8 + bit) = omega arith in
    let ih = rw next at (picks-filter n byte (bit + 1) bitmap (omega arith)) in
    rw (row, column) (ground (arith, ih))

scan_bytes-filter :
    (a b c : ℕ)
    → scan_bytes 0 (a ∷ b ∷ c ∷ []) [] ≡ ok (filter (selects (a ∷ b ∷ c ∷ [])) (range 0 24))
unfolding scan_bytes
scan_bytes-filter a b c =
    let bitmap : Bytes = a ∷ b ∷ c ∷ [] in
    rw (
      scan_bits-picks 8 0 a 0 [] (omega arith),
      scan_bits-picks 8 1 b 0 (picks 8 0 a 0) (omega arith),
      scan_bits-picks 8 2 c 0 (picks 8 0 a 0 ++ picks 8 1 b 0) (omega arith),
      picks-filter 8 0 0 bitmap (omega arith),
      picks-filter 8 1 0 bitmap (omega arith),
      picks-filter 8 2 0 bitmap (omega arith),
      ← (filter-append (selects bitmap) (range 0 8) (range 8 8)),
      ← (filter-append (selects bitmap) (range 0 16) (range 16 8)),
    )

nothing_at : (i : ℕ) → get_or {A = ℕ} (0 ∷ 0 ∷ 0 ∷ []) i 0 ≡ 0
nothing_at zero = refl
nothing_at (suc zero) = refl
nothing_at (suc (suc zero)) = refl
nothing_at (suc (suc (suc i))) = refl

selects_nothing : (q : ℕ) → selects (0 ∷ 0 ∷ 0 ∷ []) q ≡ false
unfolding selects
selects_nothing q = rw (nothing_at (q / 8), bit_and-bitwise 0 (2 ^ (q % 8)))

abbrev zeros : Bytes
zeros = 0 ∷ 0 ∷ 0 ∷ []

Real-contains : (c : ℕ) (xs : List ℕ) → Real xs → contains c xs ≡ true → c ≤ 23
unfolding contains
Real-contains c [] r h = cc
Real-contains c (x ∷ xs) r h = ground (arith, Real-contains c xs r.1)

Real-bits : (xs : List ℕ) → Real xs → All (λ p. p < 24) xs
Real-bits [] r = tt
Real-bits (x ∷ xs) r = (omega arith, Real-bits xs r.1)

filter-members :
    (p : ℕ → Bool) (indices : List ℕ)
    → Real indices
    → ((q : ℕ) → p q ≡ contains q indices)
    → filter p (range 0 24) ≡ dedup (sort indices)
filter-members p indices real same =
    From-unique 0 (filter p (range 0 24)) (dedup (sort indices))
      (filter-From p 0 (range 0 24) (range-From 0 24)) (dedup-sort-IsAscending indices)
      (λ c.
        contains-filter p c (range 0 24)
        ∙ ground (
          arith,
          same c,
          contains-range c 0 24,
          Real-contains c indices real,
          dedup-sort-SameMembers indices c,
        ))

abbrev bitmap_of : List ℕ → Bytes
bitmap_of indices = select_all indices zeros

three_bytes :
    (bitmap : Bytes)
    → length bitmap ≡ 3
    → scan_bytes 0 bitmap [] ≡ ok (filter (selects bitmap) (range 0 24))
three_bytes (a ∷ b ∷ c ∷ []) h = scan_bytes-filter a b c
three_bytes _ h = absurd (omega arith)

-- The scan of the bitmap that was written for `indices` gives them back, sorted and once each.
pub scan-bitmap_of :
    (indices : List ℕ)
    → Real indices
    → scan_bytes 0 (bitmap_of indices) [] ≡ ok (dedup (sort indices))
scan-bitmap_of indices real =
    three_bytes (bitmap_of indices) (length-select_all indices zeros)
    ∙ ap ok (
        filter-members (selects (bitmap_of indices)) indices real (λ q.
          selects-select_all indices q zeros (omega arith) (Real-bits indices real)
          ∙ rw (selects_nothing q) (ground arith)))

abbrev pub digests_bytes : List Bytes → Bytes
digests_bytes [] = []
digests_bytes (d ∷ ds) = put_tpm2b [] d ++ digests_bytes ds

abbrev pub Fit : List Bytes → Type 0
Fit = All (λ d. length d < 2 ^ 16)

read_digests-Before :
    (ds : List Bytes) (acc : List Bytes) (r : Reader) (rest : Bytes)
    → Fit ds
    → Before r (digests_bytes ds ++ rest)
    → (r' : Reader) × (read_digests (length ds) acc r ≡ ok (acc ++ ds, r')) × Before r' rest
unfolding read_digests
read_digests-Before [] acc r rest fit h = (r, rw append-nil, h)
read_digests-Before (d ∷ ds) acc r rest fit h =
    let (r1, e1, h1) = tpm2b-Before r d (digests_bytes ds ++ rest) fit.0 (rw append_assoc at h) in
    let (r2, e2, h2) = read_digests-Before ds (acc ++ d ∷ []) r1 rest fit.1 h1 in
    (r2, rw e1 (e2 ∙ rw append_assoc), h2)

parse_selection-Before :
    (counter bank : ℕ) (indices : List ℕ) (r : Reader) (rest : Bytes)
    → counter < 2 ^ 32
    → bank < 2 ^ 16
    → Real indices
    → Before r (to_be32 counter ++ (put_pcr_selection [] bank indices ++ rest))
    → (r' : Reader) × (parse_selection r ≡ ok (dedup (sort indices), r')) × Before r' rest
unfolding parse_selection put_pcr_selection put_u16 put_u32
parse_selection-Before counter bank indices r rest hc hb real h =
    let bitmap = bitmap_of indices in
    let three = length-select_all indices zeros in
    let (r1, e1, h1) = u32-Before r counter (put_pcr_selection [] bank indices ++ rest) hc h in
    let (r2, e2, h2) =
      u32-Before r1 1 (to_be16 bank ++ 3 ∷ (bitmap ++ rest)) (omega arith) (rw three at h1) in
    let (r3, e3, h3) = u16-Before r2 bank (3 ∷ (bitmap ++ rest)) hb h2 in
    let (r4, e4, h4) = u8-Before r3 3 (bitmap ++ rest) h3 in
    let (r5, e5, h5) = bytes-Before 3 r4 bitmap rest three h4 in
    (r5, rw (e1, e2, e3, e4, e5, scan-bitmap_of indices real), h5)

-- The response in which a TPM answers for the selection `indices` of `bank`.
abbrev pub answer : ℕ → Bank → List ℕ → List Bytes → Bytes
answer counter bank indices digests =
    to_be32 counter
    ++ (put_pcr_selection [] bank indices ++ (to_be32 (length digests) ++ digests_bytes digests))

-- A PCR_Read response that repeats the selection which `put_pcr_selection` wrote for registers up
-- to 23, and carries digests that each fit a TPM2B, is read back as those registers in ascending
-- order and once each, with the digests in the order sent, whatever the counter.
pub parse_pcr_read-answer :
    (counter bank : ℕ) (indices : List ℕ) (digests : List Bytes)
    → counter < 2 ^ 32
    → bank < 2 ^ 16
    → Real indices
    → Fit digests
    → length digests < 2 ^ 32
    → length (answer counter bank indices digests) < 2 ^ 64
    → parse_pcr_read (answer counter bank indices digests) ≡ ok (dedup (sort indices), digests)
unfolding parse_pcr_read
parse_pcr_read-answer counter bank indices digests hc hb real fit many small =
    let payload = answer counter bank indices digests in
    let (r1, e1, h1) =
      parse_selection-Before counter bank indices (new payload)
        (to_be32 (length digests) ++ digests_bytes digests) hc hb real (Before-new payload small) in
    let (r2, e2, h2) = u32-Before r1 (length digests) (digests_bytes digests) many h1 in
    let (r3, e3, h3) = read_digests-Before digests [] r2 [] fit (rw append-nil h2) in
    rw (e1, e2, e3)

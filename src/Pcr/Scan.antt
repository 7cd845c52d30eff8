-- ===== src/Pcr/Scan.antt =====
-- The scan of a returned bitmap: it gives the selected registers in ascending order, and refuses a
-- bitmap that selects a register above 23.
use mathlib.Core.List.{append_assoc, append-nil}
use tpm2_autoenroll.Base.{
  if◌then◌else◌, Bool-cases, All, Bytes, ℕ, zero, suc, ◌+◌, ◌*◌, ◌≤◌, ◌<◌, ◌≡◌, ◌∙◌, inl, inr, List,
  [], ◌∷◌, ◌++◌, arith,
}
use tpm2_autoenroll.Base.Ascending.{From, From-mono, From-append, IsAscending}
use tpm2_autoenroll.Base.Results.{ok, bind-eq-ok}
use tpm2_autoenroll.Pcr.Bitmap.{has_bit}
use tpm2_autoenroll.Pcr.{push_bit, scan_bits, scan_bytes}

-- The register of one bit, if that is set; those of n bits of one byte; those of a bitmap.
unfoldable pub pick : ℕ → ℕ → ℕ → List ℕ
pick byte bits bit = if has_bit bits bit then (byte * 8 + bit) ∷ [] else []

unfoldable pub picks : ℕ → ℕ → ℕ → ℕ → List ℕ
picks zero byte bits bit = []
picks (suc n) byte bits bit = pick byte bits bit ++ picks n byte bits (bit + 1)

pub all_picks : ℕ → Bytes → List ℕ
all_picks byte [] = []
all_picks byte (bits ∷ bitmap) = picks 8 byte bits 0 ++ all_picks (byte + 1) bitmap

abbrev pub Real : List ℕ → Type 0
Real = All (λ p. p ≤ 23)

Real-append : (xs ys : List ℕ) → Real xs → Real ys → Real (xs ++ ys)
Real-append [] ys a b = b
Real-append (x ∷ xs) ys a b = (a.0, Real-append xs ys a.1 b)

push_bit-pick :
    (byte bits bit : ℕ) (returned : List ℕ)
    → byte * 8 + bit ≤ 23
    → push_bit byte bits bit returned ≡ ok (returned ++ pick byte bits bit)
unfolding push_bit pick
push_bit-pick byte bits bit returned h = ground (arith, append-nil returned)

push_bit-eq-ok :
    (byte bits bit : ℕ) (returned r : List ℕ)
    → push_bit byte bits bit returned ≡ ok r
    → (r ≡ returned ++ pick byte bits bit) × Real (pick byte bits bit)
unfolding push_bit pick
push_bit-eq-ok byte bits bit returned r h = ground (arith, append-nil returned)

pub scan_bits-picks :
    (n byte bits bit : ℕ) (returned : List ℕ)
    → byte * 8 + bit + n ≤ 24
    → scan_bits n byte bits bit returned ≡ ok (returned ++ picks n byte bits bit)
unfolding scan_bits picks
scan_bits-picks zero byte bits bit returned h = rw append-nil
scan_bits-picks (suc n) byte bits bit returned h =
    rw (push_bit-pick byte bits bit returned (omega arith)) (
      scan_bits-picks n byte bits (bit + 1) (returned ++ pick byte bits bit) (omega arith)
      ∙ rw append_assoc)

scan_bits-eq-ok :
    (n byte bits bit : ℕ) (returned r : List ℕ)
    → scan_bits n byte bits bit returned ≡ ok r
    → (r ≡ returned ++ picks n byte bits bit) × Real (picks n byte bits bit)
unfolding scan_bits picks
scan_bits-eq-ok zero byte bits bit returned r h = (ground (arith, append-nil returned), tt)
scan_bits-eq-ok (suc n) byte bits bit returned r h =
    let (more, e, k) =
      bind-eq-ok (push_bit byte bits bit returned) (scan_bits n byte bits (bit + 1)) h in
    let (first, real) = push_bit-eq-ok byte bits bit returned more e in
    let (rest, reals) = scan_bits-eq-ok n byte bits (bit + 1) more r k in
    (
      rw (rest, first, append_assoc),
      Real-append (pick byte bits bit) (picks n byte bits (bit + 1)) real reals,
    )

scan_bytes-eq-ok :
    (byte : ℕ) (bitmap : Bytes) (returned r : List ℕ)
    → scan_bytes byte bitmap returned ≡ ok r
    → (r ≡ returned ++ all_picks byte bitmap) × Real (all_picks byte bitmap)
unfolding scan_bytes all_picks
scan_bytes-eq-ok byte [] returned r h = (ground (arith, append-nil returned), tt)
scan_bytes-eq-ok byte (bits ∷ bitmap) returned r h =
    let (more, e, k) =
      bind-eq-ok (scan_bits 8 byte bits 0 returned) (scan_bytes (byte + 1) bitmap) h in
    let (first, real) = scan_bits-eq-ok 8 byte bits 0 returned more e in
    let (rest, reals) = scan_bytes-eq-ok (byte + 1) bitmap more r k in
    (
      rw (rest, first, append_assoc),
      Real-append (picks 8 byte bits 0) (all_picks (byte + 1) bitmap) real reals,
    )

picks-From :
    (n byte bits bit : ℕ)
    → From (byte * 8 + bit) (picks n byte bits bit)
      × All (λ p. p < byte * 8 + bit + n) (picks n byte bits bit)
unfolding picks pick
picks-From zero byte bits bit = (tt, tt)
picks-From (suc n) byte bits bit =
    let next : byte * 8 + (bit + 1) ≡ suc (byte * 8 + bit) = omega arith in
    let end : suc (byte * 8 + bit) + n ≡ byte * 8 + bit + suc n = omega arith in
    let (asc, bound) = rw (next, end) at (picks-From n byte bits (bit + 1)) in
    elim (Bool-cases (has_bit bits bit)) [
      | inl on ↦ rw on (((omega arith, asc), (omega arith, bound)))
      | inr off ↦ rw off ((From-mono _ _ _ (omega arith) asc, bound))
    ]

all_picks-From : (byte : ℕ) (bitmap : Bytes) → From (byte * 8) (all_picks byte bitmap)
unfolding all_picks
all_picks-From byte [] = tt
all_picks-From byte (bits ∷ bitmap) =
    let next : (byte + 1) * 8 ≡ byte * 8 + 8 = omega arith in
    let start : byte * 8 + 0 ≡ byte * 8 = omega arith in
    let (asc, bound) = rw start at (picks-From 8 byte bits 0) in
    From-append (byte * 8) (byte * 8 + 8) (picks 8 byte bits 0) (all_picks (byte + 1) bitmap) asc
      bound (omega arith) (rw next at (all_picks-From (byte + 1) bitmap))

-- What the scan of a whole bitmap returns is ascending, and names only registers that exist.
pub scan_bytes-IsAscending :
    (bitmap : Bytes) (r : List ℕ) → scan_bytes 0 bitmap [] ≡ ok r → IsAscending r × Real r
scan_bytes-IsAscending bitmap r h =
    let (e, real) = scan_bytes-eq-ok 0 bitmap [] r h in (rw e (all_picks-From 0 bitmap), rw e real)

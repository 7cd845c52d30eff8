-- ===== src/Pcr/Absorb.antt =====
-- A round that `absorb` accepts moves PCRs from the outstanding ones to the answered ones.
use tpm2_autoenroll.Base.{
  ◌==◌, Bool-cases, length, is_empty, find, filter, Bytes, contains, ℕ, suc, ◌≤◌, ◌<◌, ◌≡◌, refl,
  ap, ◌∙◌, inl, inr, Bool, true, false, not, ◌||◌, none, List, [], ◌∷◌, ◌++◌, arith,
}
use tpm2_autoenroll.Base.Ascending.{
  From, IsAscending, contains_below, contains-filter, contains-append,
}
use tpm2_autoenroll.Base.Results.{ok, Holds, bind-Holds, Holds-eq}
use tpm2_autoenroll.Pcr.Scan.{scan_bytes-IsAscending}
use tpm2_autoenroll.Pcr.{
  scan_bytes, parse_selection, parse_pcr_read, read_digests, Round, absorb, zip,
}
use tpm2_autoenroll.Wire.{Reader, new, bytes, u8, u16, u32}

abbrev pub pcrs : List (ℕ × Bytes) → List ℕ
pcrs [] = []
pcrs (e ∷ l) = e.0 ∷ pcrs l

abbrev pub Distinct : List ℕ → Type 0
Distinct [] = Unit {0}
Distinct (x ∷ xs) = (contains x xs ≡ false) × Distinct xs

From-Distinct : (lo : ℕ) (xs : List ℕ) → From lo xs → Distinct xs
From-Distinct lo [] f = tt
From-Distinct lo (x ∷ xs) f =
    (contains_below x (suc x) xs f.1 (omega arith), From-Distinct (suc x) xs f.1)

Distinct-append :
    (xs ys : List ℕ)
    → Distinct xs
    → Distinct ys
    → ((c : ℕ) → contains c xs ≡ true → contains c ys ≡ false)
    → Distinct (xs ++ ys)
unfolding contains
Distinct-append [] ys dx dy apart = dy
Distinct-append (x ∷ xs) ys dx dy apart = (
  contains-append x xs ys ∙ ground (arith, apart x, dx.0),
  Distinct-append xs ys dx.1 dy (λ c h. apart c (ground arith)),
)

pcrs-append : (xs ys : List (ℕ × Bytes)) → pcrs (xs ++ ys) ≡ pcrs xs ++ pcrs ys
pcrs-append [] ys = refl
pcrs-append (x ∷ xs) ys = ap (◌∷◌ x.0) (pcrs-append xs ys)

pcrs-zip : (ps : List ℕ) (ds : List Bytes) → length ds ≡ length ps → pcrs (zip ps ds) ≡ ps
unfolding zip
pcrs-zip [] ds h = refl
pcrs-zip (p ∷ ps) [] h = absurd (omega arith)
pcrs-zip (p ∷ ps) (d ∷ ds) h = ap (◌∷◌ p) (pcrs-zip ps ds (omega arith))

none_missing :
    (xs ys : List ℕ) (c : ℕ)
    → find (λ p. not (contains p ys)) xs ≡ none
    → contains c xs ≡ true
    → contains c ys ≡ true
unfolding contains
none_missing [] ys c h m = cc
none_missing (x ∷ xs) ys c h m = elim (Bool-cases (contains x ys)) [
  | inl here ↦ ground (arith, none_missing xs ys c)
  | inr gone ↦ absurd (ground arith)
]

length-filter-le : (p : ℕ → Bool) (xs : List ℕ) → length (filter p xs) ≤ length xs
unfolding filter
length-filter-le p [] = omega arith
length-filter-le p (x ∷ xs) = ground (arith, length-filter-le p xs)

length-filter-lt :
    (p : ℕ → Bool) (c : ℕ) (xs : List ℕ)
    → contains c xs ≡ true
    → p c ≡ false
    → length (filter p xs) < length xs
unfolding filter contains
length-filter-lt p c [] h n = cc
length-filter-lt p c (x ∷ xs) h n = ground (arith, length-filter-lt p c xs, length-filter-le p xs)

-- A response that is read names ascending PCRs.
parse_selection-Holds : (r : Reader) → Holds (λ x. IsAscending x.0) (parse_selection r)
unfolding parse_selection
parse_selection-Holds r = bind-Holds _ (u32 r) _ (λ x1 _. bind-Holds _ (u32 x1.1) _ (λ x2 _.
    elim (Bool-cases (x2.0 == 1)) [
      | inl one ↦ rw one (
          bind-Holds _ (u16 x2.1) _ (λ x3 _. bind-Holds _ (u8 x3.1) _ (λ x4 _.
            bind-Holds _ (bytes x4.0 x4.1) _ (λ x5 _.
              bind-Holds _ (scan_bytes 0 x5.0 []) _
                (λ returned e. (scan_bytes-IsAscending x5.0 returned e).0)))))
      | inr more ↦ rw more tt
    ]))

pub parse_pcr_read-Holds : (payload : Bytes) → Holds (λ x. IsAscending x.0) (parse_pcr_read payload)
unfolding parse_pcr_read
parse_pcr_read-Holds payload = bind-Holds _ (parse_selection (new payload)) _ (λ x1 e1.
    bind-Holds _ (u32 x1.1) _ (λ x2 _.
      bind-Holds _ (read_digests x2.0 [] x2.1) _
        (λ x3 _. Holds-eq _ _ (parse_selection-Holds (new payload)) e1)))

-- What a round has been told of the PCRs asked for.
pub record IsRound (asked : List ℕ) (s : Round) : Type 0 where
  pub members : (c : ℕ) → contains c (pcrs s.out) || contains c s.outstanding ≡ contains c asked
  pub apart : (c : ℕ) → contains c (pcrs s.out) ≡ true → contains c s.outstanding ≡ false
  pub distinct : Distinct (pcrs s.out)

absorb-eq-ok :
    (s : Round) (returned : List ℕ) (digests : List Bytes) (s' : Round)
    → absorb s (returned, digests) ≡ ok s'
    → (is_empty returned ≡ false)
      × (length digests ≡ length returned)
      × (find (λ p. not (contains p s.outstanding)) returned ≡ none)
      × (s'.outstanding ≡ filter (λ p. not (contains p returned)) s.outstanding)
      × (s'.out ≡ s.out ++ zip returned digests)
unfolding absorb
absorb-eq-ok s returned digests s' h = ground arith

pub absorb-IsRound :
    (asked : List ℕ) (s : Round) (returned : List ℕ) (digests : List Bytes) (s' : Round)
    → IsAscending returned
    → absorb s (returned, digests) ≡ ok s'
    → IsRound asked s
    → IsRound asked s'
absorb-IsRound asked s returned digests s' asc h inv =
    let (some_answer, same_length, asked_for, left, got) = absorb-eq-ok s returned digests s' h in
    let now : pcrs s'.out ≡ pcrs s.out ++ returned =
      rw (got, pcrs-append s.out (zip returned digests), pcrs-zip returned digests same_length) in
    let known : (c : ℕ) → contains c returned ≡ true → contains c s.outstanding ≡ true =
      λ c. none_missing returned s.outstanding c asked_for in
    record {
      members = λ c.
          rw
            (
              now,
              left,
              contains-append c (pcrs s.out) returned,
              contains-filter (λ p. not (contains p returned)) c s.outstanding,
            )
            (ground (arith, inv.members c, known c));
      apart = λ c.
          rw
            (
              now,
              left,
              contains-append c (pcrs s.out) returned,
              contains-filter (λ p. not (contains p returned)) c s.outstanding,
            )
            (ground (arith, inv.apart c));
      distinct = rw now (
          Distinct-append (pcrs s.out) returned inv.distinct (From-Distinct 0 returned asc)
            (λ c m. ground (arith, inv.apart c, known c)));
    }

contains_head : (p : ℕ) (l : List ℕ) → contains p (p ∷ l) ≡ true
unfolding contains
contains_head p l = ground arith

pub absorb-shrinks :
    (s : Round) (returned : List ℕ) (digests : List Bytes) (s' : Round)
    → absorb s (returned, digests) ≡ ok s'
    → length s'.outstanding < length s.outstanding
absorb-shrinks s [] digests s' h = absurd (ground (arith, absorb-eq-ok s [] digests s' h))
absorb-shrinks s (p ∷ returned) digests s' h =
    let (some_answer, same_length, asked_for, left, got) =
      absorb-eq-ok s (p ∷ returned) digests s' h in
    rw left (
      length-filter-lt (λ q. not (contains q (p ∷ returned))) p s.outstanding
        (none_missing (p ∷ returned) s.outstanding p asked_for (contains_head p returned))
        (ap not (contains_head p returned)))

-- ===== src/AskPw/Candidates.antt =====
-- Passphrases that are offered one to a line are read back as they were.
use tpm2_autoenroll.Base.{
  is_empty, take, All, Bytes, contains, ℕ, ◌≡◌, refl, ap, ◌∙◌, false, List, [], ◌∷◌, ◌++◌, arith,
}
use tpm2_autoenroll.AskPw.{max_candidates, split, onto_first, non_empty, parse_candidates}

-- What an agent offers: `--multiple` separates by newlines, and `-n` leaves the last one out.
abbrev pub lines_of : List Bytes → Bytes
lines_of [] = []
lines_of (p ∷ []) = p
lines_of (p ∷ q ∷ ps) = p ++ b'\n' ∷ lines_of (q ∷ ps)

-- A passphrase has a byte at least and no newline.
abbrev pub IsPassphrase : Bytes → Type 0
IsPassphrase p = (is_empty p ≡ false) × (contains b'\n' p ≡ false)

split_line : (c : ℕ) (p : Bytes) → contains c p ≡ false → split c p ≡ p ∷ []
unfolding split onto_first contains
split_line c [] h = refl
split_line c (b ∷ p) h = ground (arith, split_line c p)

split-append :
    (c : ℕ) (p rest : Bytes) → contains c p ≡ false → split c (p ++ c ∷ rest) ≡ p ∷ split c rest
unfolding split onto_first contains
split-append c [] rest h = ground arith
split-append c (b ∷ p) rest h = ground (arith, split-append c p rest)

split-lines_of :
    (p : Bytes) (ps : List Bytes)
    → All IsPassphrase (p ∷ ps)
    → split b'\n' (lines_of (p ∷ ps)) ≡ p ∷ ps
split-lines_of p [] h = split_line b'\n' p h.0.1
split-lines_of p (q ∷ ps) h =
    split-append b'\n' p (lines_of (q ∷ ps)) h.0.1 ∙ ap (◌∷◌ p) (split-lines_of q ps h.1)

non_empty-All : (ps : List Bytes) → All IsPassphrase ps → non_empty ps ≡ ps
unfolding non_empty
non_empty-All [] h = refl
non_empty-All (p ∷ ps) h = rw (h.0.0, non_empty-All ps h.1)

-- Passphrases with a byte at least and without newlines, offered one to a line, are read back
-- unchanged and in order, and of more than four the first four.
pub parse_candidates-lines_of :
    (p : Bytes) (ps : List Bytes)
    → All IsPassphrase (p ∷ ps)
    → parse_candidates (lines_of (p ∷ ps)) ≡ take max_candidates (p ∷ ps)
unfolding parse_candidates
parse_candidates-lines_of p ps h =
    ap (take max_candidates) (ap non_empty (split-lines_of p ps h) ∙ non_empty-All (p ∷ ps) h)

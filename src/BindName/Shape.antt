-- ===== src/BindName/Shape.antt =====
-- `parse` against the format that crypttab(5) documents, RANDOM "/cryptsetup…/" VOLUME.
use tpm2_autoenroll.Base.{
  ◌==◌, Bool-cases, Option-cases, some_inj, length, take, drop, all, All, take-length-append,
  drop-length-append, take-append-drop, Bytes, codes, is_alnum, strip_prefix, strip_prefix_append,
  strip_prefix_sound, position, contains, ℕ, suc, ◌≡◌, refl, sym, ap, ◌∙◌, ◌≢◌, ◌↔◌, ◌⊎◌, inl, inr,
  true, false, Option, none, some, List, [], ◌∷◌, ◌++◌, arith,
}
use tpm2_autoenroll.Base.Options.{◌>>=◌, bind-eq-some}
use tpm2_autoenroll.BindName.{
  Phase, plain, tpm2, fido2_salt, pkcs11, unknown, PeerName, infixes, after_last_slash, named,
  match_infix, parse, parse_at,
}

abbrev IsRandom : Bytes → Type 0
IsRandom r = (r ≢ []) × All (λ b. is_alnum b ≡ true) r

-- What `make_bindname()` writes between the random part and the volume.
abbrev pub infix_of : Phase → Option Bytes
infix_of plain = some (codes "/cryptsetup/")
infix_of tpm2 = some (codes "/cryptsetup-tpm2/")
infix_of fido2_salt = some (codes "/cryptsetup-fido2-salt/")
infix_of pkcs11 = some (codes "/cryptsetup-pkcs11/")
infix_of unknown = none

abbrev HasInfix : Bytes → Type 0
HasInfix rest =
    (phase : Phase) × (i : Bytes) × (v : Bytes) × (infix_of phase ≡ some i) × (rest ≡ i ++ v)

-- The names of the documented shape, and those whose infix is none of the documented ones.
pub data Names (name : Bytes) (p : PeerName) : Type 0 where
  known :
      (random i : Bytes)
      → IsRandom random
      → infix_of p.phase ≡ some i
      → p.volume ≢ []
      → name ≡ random ++ (i ++ p.volume)
      → Names name p
  other :
      (random front rest : Bytes)
      → IsRandom random
      → p.phase ≡ unknown
      → p.volume ≢ []
      → contains b'/' p.volume ≡ false
      → b'/' ∷ rest ≡ front ++ b'/' ∷ p.volume
      → ¬ HasInfix (b'/' ∷ rest)
      → name ≡ random ++ b'/' ∷ rest
      → Names name p

position_split :
    (c : ℕ) (s : Bytes) (i : ℕ) → position c s ≡ some i → (rest : Bytes) × (drop i s ≡ c ∷ rest)
unfolding position
position_split c [] i h = cc
position_split c (x ∷ s) i h = elim (Bool-cases (x == c)) [
  | inl hit ↦
      let first : i ≡ 0 = ground arith in let same : x ≡ c = ground arith in (s, rw (first, same))
  | inr miss ↦ elim (Option-cases (position c s)) [
    | inl e ↦ absurd (ground arith)
    | inr (j, e) ↦
        let (rest, d) = position_split c s j e in
        let next : i ≡ suc j = ground arith in (rest, rw next d)
  ]
]

position-append :
    (c : ℕ) (r s : Bytes) → contains c r ≡ false → position c (r ++ c ∷ s) ≡ some (length r)
unfolding position contains
position-append c [] s h = ground arith
position-append c (x ∷ r) s h = ground (arith, position-append c r s)

alnum_no_slash : (r : Bytes) → All (λ b. is_alnum b ≡ true) r → contains b'/' r ≡ false
unfolding contains is_alnum
alnum_no_slash [] h = refl
alnum_no_slash (b ∷ r) h = ground (arith, alnum_no_slash r h.1)

all_iff : (r : Bytes) → (all is_alnum r ≡ true) ↔ All (λ b. is_alnum b ≡ true) r
all_iff [] = (λ h. tt, λ h. refl)
all_iff (b ∷ r) = (λ h. ground (arith, (all_iff r).0), λ h. ground (arith, (all_iff r).1))

after_last_slash-none : (s : Bytes) → after_last_slash s ≡ none → contains b'/' s ≡ false
unfolding after_last_slash contains
after_last_slash-none [] h = refl
after_last_slash-none (c ∷ s) h = ground (arith, after_last_slash-none s)

no_slash : (s : Bytes) → contains b'/' s ≡ false → after_last_slash s ≡ none
unfolding after_last_slash contains
no_slash [] h = refl
no_slash (c ∷ s) h = ground (arith, no_slash s)

after_last_slash_sound :
    (s v : Bytes)
    → after_last_slash s ≡ some v
    → (front : Bytes) × (s ≡ front ++ b'/' ∷ v) × (contains b'/' v ≡ false)
unfolding after_last_slash
after_last_slash_sound [] v h = cc
after_last_slash_sound (c ∷ s) v h = elim (Option-cases (after_last_slash s)) [
  | inl e ↦ ([], ground arith, ground (arith, after_last_slash-none s))
  | inr (w, e) ↦
      let (front, split, tail) = after_last_slash_sound s v (ground arith) in
      (c ∷ front, ap (◌∷◌ c) split, tail)
]

after_last_slash-append :
    (front v : Bytes) → contains b'/' v ≡ false → after_last_slash (front ++ b'/' ∷ v) ≡ some v
unfolding after_last_slash
after_last_slash-append [] v h = rw (no_slash v h, after_last_slash)
after_last_slash-append (c ∷ front) v h = rw (after_last_slash-append front v h, after_last_slash)

named-eq-some :
    (phase : Phase) (v : Bytes) (p : PeerName)
    → named phase v ≡ some p
    → (p.phase ≡ phase) × (p.volume ≡ v) × (v ≢ [])
unfolding named
named-eq-some phase [] p h = cc
named-eq-some phase (c ∷ v) p h = ground arith

named-ne-nil : (p : PeerName) → p.volume ≢ [] → named p.phase p.volume ≡ some p
unfolding named
named-ne-nil p h = ground arith

abbrev InTable : List (Bytes × Phase) → Type 0
InTable = All (λ e. infix_of e.1 ≡ some e.0)

infixes-InTable : InTable infixes
infixes-InTable = (refl, (refl, (refl, (refl, tt))))

abbrev Missed : Bytes → List (Bytes × Phase) → Type 0
Missed rest = All (λ e. strip_prefix e.0 rest ≡ none)

abbrev Hit : Bytes → PeerName → Type 0
Hit rest p = (i : Bytes) × (infix_of p.phase ≡ some i) × (p.volume ≢ []) × (rest ≡ i ++ p.volume)

match_infix_sound :
    (l : List (Bytes × Phase)) (rest : Bytes) (p : PeerName)
    → InTable l
    → match_infix l rest ≡ some p
    → Hit rest p
      ⊎ ((Missed rest l)
          × (p.phase ≡ unknown)
          × (p.volume ≢ [])
          × (after_last_slash rest ≡ some p.volume))
unfolding match_infix
match_infix_sound [] rest p t h =
    let (v, last, n) = bind-eq-some (after_last_slash rest) (named unknown) h in
    let (ph, vo, ne) = named-eq-some unknown v p n in inr (tt, ph, rw vo ne, rw vo last)
match_infix_sound ((i, phase) ∷ l) rest p t h = elim (Option-cases (strip_prefix i rest)) [
  | inl e ↦ elim (match_infix_sound l rest p t.1 (rw (e, match_infix) at h)) [
    | inl hit ↦ inl hit
    | inr (m, ph, ne, last) ↦ inr ((e, m), ph, ne, last)
  ]
  | inr (v, e) ↦
      let (ph, vo, ne) = named-eq-some phase v p (ground arith) in
      inl (i, rw ph t.0, rw vo ne, rw vo (strip_prefix_sound i rest e))
]

strip_prefix_missed : (i rest v : Bytes) → strip_prefix i rest ≡ none → rest ≢ i ++ v
strip_prefix_missed i rest v m split = cc (m, ap (strip_prefix i) split, strip_prefix_append i v)

Missed-no_infix : (rest : Bytes) → Missed rest infixes → ¬ HasInfix rest
Missed-no_infix rest m (plain, i, v, e, split) =
    strip_prefix_missed i rest v (rw (some_inj e) at m.0) split
Missed-no_infix rest m (tpm2, i, v, e, split) =
    strip_prefix_missed i rest v (rw (some_inj e) at m.1.0) split
Missed-no_infix rest m (fido2_salt, i, v, e, split) =
    strip_prefix_missed i rest v (rw (some_inj e) at m.1.1.0) split
Missed-no_infix rest m (pkcs11, i, v, e, split) =
    strip_prefix_missed i rest v (rw (some_inj e) at m.1.1.1.0) split
Missed-no_infix rest m (unknown, i, v, e, split) = cc

missed :
    (rest : Bytes) (phase : Phase) (i : Bytes)
    → ¬ HasInfix rest
    → infix_of phase ≡ some i
    → strip_prefix i rest ≡ none
missed rest phase i h t = elim (Option-cases (strip_prefix i rest)) [
  | inl e ↦ e
  | inr (v, e) ↦ absurd (h (phase, i, v, t, strip_prefix_sound i rest e))
]

no_infix-Missed : (rest : Bytes) → ¬ HasInfix rest → Missed rest infixes
no_infix-Missed rest h = (
  missed rest plain _ h refl,
  (missed rest tpm2 _ h refl, (missed rest fido2_salt _ h refl, (missed rest pkcs11 _ h refl, tt))),
)

-- On a documented infix the search finds its phase.
match_infix-known :
    (phase : Phase) (i v : Bytes)
    → infix_of phase ≡ some i
    → match_infix infixes (i ++ v) ≡ named phase v
unfolding match_infix strip_prefix codes
match_infix-known plain i v h = rw (← (some_inj h))
match_infix-known tpm2 i v h = rw (← (some_inj h))
match_infix-known fido2_salt i v h = rw (← (some_inj h))
match_infix-known pkcs11 i v h = rw (← (some_inj h))
match_infix-known unknown i v h = cc

match_infix-Missed :
    (l : List (Bytes × Phase)) (rest : Bytes)
    → Missed rest l
    → match_infix l rest ≡ (after_last_slash rest >>= named unknown)
unfolding match_infix
match_infix-Missed [] rest m = refl
match_infix-Missed ((i, phase) ∷ l) rest m = rw (m.0, match_infix) (match_infix-Missed l rest m.1)

infix_starts : (phase : Phase) (i : Bytes) → infix_of phase ≡ some i → (j : Bytes) × (i ≡ b'/' ∷ j)
unfolding codes
infix_starts plain i h = (_, sym (some_inj h))
infix_starts tpm2 i h = (_, sym (some_inj h))
infix_starts fido2_salt i h = (_, sym (some_inj h))
infix_starts pkcs11 i h = (_, sym (some_inj h))
infix_starts unknown i h = cc

-- On RANDOM and a rest that starts with a slash `parse` is the search in the rest.
parse-random :
    (random rest : Bytes)
    → IsRandom random
    → parse (random ++ b'/' ∷ rest) ≡ match_infix infixes (b'/' ∷ rest)
unfolding parse parse_at
parse-random [] rest (ne, alnum) = absurd (ne refl)
parse-random (r ∷ random) rest (ne, alnum) = rw (
  position-append b'/' (r ∷ random) rest (alnum_no_slash (r ∷ random) alnum),
  take-length-append random (b'/' ∷ rest),
  drop-length-append random (b'/' ∷ rest),
  (all_iff (r ∷ random)).1 alnum,
)

parse_at-IsRandom :
    (name : Bytes) (slash : ℕ) (p : PeerName)
    → parse_at name slash ≡ some p
    → IsRandom (take slash name) × (match_infix infixes (drop slash name) ≡ some p)
unfolding parse_at
parse_at-IsRandom name slash p h =
    let alnum : all is_alnum (take slash name) ≡ true = ground arith in
    ((ground arith, (all_iff (take slash name)).0 alnum), ground arith)

parse-Names : (name : Bytes) (p : PeerName) → parse name ≡ some p → Names name p
unfolding parse
parse-Names name p h =
    let (slash, e, k) = bind-eq-some (position b'/' name) (parse_at name) h in
    let (rest, d) = position_split b'/' name slash e in
    let (random, m) = parse_at-IsRandom name slash p k in
    let whole : take slash name ++ b'/' ∷ rest ≡ name = rw (← d) (take-append-drop slash name) in
    elim (match_infix_sound infixes (b'/' ∷ rest) p infixes-InTable (rw d at m)) [
      | inl (i, t, ne, split) ↦ known (take slash name) i random t ne (rw (← split) (sym whole))
      | inr (missed_all, u, ne, last) ↦
          let (front, split, tail) = after_last_slash_sound (b'/' ∷ rest) p.volume last in
          other (take slash name) front rest random u ne tail split
            (Missed-no_infix (b'/' ∷ rest) missed_all) (sym whole)
    ]

Names-parse : (name : Bytes) (p : PeerName) → Names name p → parse name ≡ some p
Names-parse name p (known random i r t ne split) =
    let (j, e) = infix_starts p.phase i t in
    let slashed : name ≡ random ++ b'/' ∷ (j ++ p.volume) = rw (split, e) in
    let found = match_infix-known p.phase i p.volume t in
    rw (slashed, parse-random random (j ++ p.volume) r) ((rw e at found) ∙ named-ne-nil p ne)
Names-parse name p (other random front rest r u ne tail whole noinfix split) =
    let last : after_last_slash (b'/' ∷ rest) ≡ some p.volume =
      rw whole (after_last_slash-append front p.volume tail) in
    rw
      (
        split,
        parse-random random rest r,
        match_infix-Missed infixes (b'/' ∷ rest) (no_infix-Missed (b'/' ∷ rest) noinfix),
        last,
        ← u,
      )
      (named-ne-nil p ne)

-- `parse` accepts exactly the names RANDOM "/cryptsetup…/" VOLUME with a non-empty alphanumeric
-- RANDOM and a non-empty VOLUME: it gives the phase of a documented infix with everything behind
-- the infix as the volume, and `unknown` with what follows the last slash where the part behind
-- RANDOM starts with none of the documented infixes. It refuses every other name.
pub parse-iff-Names : (name : Bytes) (p : PeerName) → (parse name ≡ some p) ↔ Names name p
parse-iff-Names name p = (parse-Names name p, Names-parse name p)

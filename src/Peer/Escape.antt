-- ===== src/Peer/Escape.antt =====
-- The unit of a volume names that volume alone.
use mathlib.Core.List.{append_cancel_left, append_cancel_right}
use tpm2_autoenroll.Base.{
  ◌==◌, if◌then◌else◌, ==_iff, Bool-cases, some_inj, All, Bytes, codes, equal, equal_iff, is_alnum,
  ℕ, ◌+◌, ◌*◌, ◌/◌, ◌%◌, ◌<◌, ◌≡◌, refl, sym, ap, ◌∙◌, ◌≢◌, inl, inr, Bool, true, false, ◌&&◌, ◌||◌,
  Option, none, some, [], ◌∷◌, ◌++◌, arith,
}
use tpm2_autoenroll.Base.Options.{◌>>=◌}
use tpm2_autoenroll.Hex.{hex, to_digit, to_digit-hex_digit}
use tpm2_autoenroll.Peer.{
  escape_byte, escape_rest, unit_escape, unit_of, in_unit, find_prefixed, lines, last_component,
}

-- The inverse: what the first byte of an escaped name stands for, and what follows it.
decode_hex : Bytes → Option (ℕ × Bytes)
decode_hex (x ∷ h ∷ l ∷ s) = do hi ← to_digit h; lo ← to_digit l; some (hi * 16 + lo, s)
decode_hex _ = none

decode_one : Bytes → Option (ℕ × Bytes)
decode_one [] = none
decode_one (c ∷ s) =
    if c == b'-' then some (b'/', s) else if c == 92 then decode_hex s else some (c, s)

decode_hex-hex :
    (x b : ℕ) (s : Bytes) → b < 256 → decode_hex (x ∷ (hex (b ∷ []) ++ s)) ≡ some (b, s)
unfolding decode_hex hex
decode_hex-hex x b s h =
    let whole : (b / 16) * 16 + b % 16 ≡ b = omega arith in
    rw (to_digit-hex_digit (b / 16) (omega arith), to_digit-hex_digit (b % 16) (omega arith), whole)

decode_one-escaped :
    (b : ℕ) (s : Bytes) → b < 256 → decode_one (codes "\\x" ++ hex (b ∷ []) ++ s) ≡ some (b, s)
unfolding decode_one codes
decode_one-escaped b s h = decode_hex-hex 120 b s h

-- A byte that stands for itself.
decode_one_self :
    (b : ℕ) (s : Bytes) → (b == b'-') ≡ false → (b == 92) ≡ false → decode_one (b ∷ s) ≡ some (b, s)
unfolding decode_one
decode_one_self b s dash slash = rw (dash, slash)

decode_one-dot : (s : Bytes) → decode_one (codes "\\x2e" ++ s) ≡ some (b'.', s)
unfolding decode_one codes decode_hex to_digit
decode_one-dot s = refl

decode_one-slash : (s : Bytes) → decode_one (codes "-" ++ s) ≡ some (b'/', s)
unfolding decode_one codes
decode_one-slash s = refl

is_dot : (b : ℕ) (first : Bool) → (b == b'.' && first) ≡ true → b ≡ b'.'
is_dot b true e = ground arith
is_dot b false e = ground arith

decode_one-escape_byte :
    (first : Bool) (b : ℕ) (s : Bytes)
    → b < 256
    → decode_one (escape_byte first b ++ s) ≡ some (b, s)
unfolding escape_byte
decode_one-escape_byte first b s h = elim (Bool-cases (b == b'.' && first)) [
  | inl e ↦ rw (e) (decode_one-dot s ∙ ap (λ x. some (x, s)) (sym (is_dot b first e)))
  | inr e ↦ elim (Bool-cases (b == b'/')) [
    | inl f ↦ rw (e, f) (decode_one-slash s ∙ ap (λ x. some (x, s)) (sym ((==_iff b b'/').0 f)))
    | inr f ↦ elim (Bool-cases (b == b'-' || b == 92)) [
      | inl g ↦ rw (e, f, g, decode_one-escaped b s h)
      | inr g ↦ elim (Bool-cases (is_alnum b || b == b':' || b == b'_' || b == b'.')) [
        | inl k ↦ rw (e, f, g, k, decode_one_self b s (ground (arith, g)) (ground (arith, g)))
        | inr k ↦ rw (e, f, g, k, decode_one-escaped b s h)
      ]
    ]
  ]
]

none≢some : {A : Type 0} {x : A} → none ≢ some x
none≢some e = cc

escape_step :
    (first : Bool) (b c : ℕ) (s t : Bytes)
    → b < 256
    → c < 256
    → escape_byte first b ++ s ≡ escape_byte first c ++ t
    → ◌≡◌ {A = ℕ × Bytes} (b, s) (c, t)
escape_step first b c s t hb hc e = some_inj (
    sym (decode_one-escape_byte first b s hb)
    ∙ ap decode_one e
    ∙ decode_one-escape_byte first c t hc)

escape_end : (first : Bool) (b : ℕ) (s : Bytes) → b < 256 → escape_byte first b ++ s ≢ []
unfolding decode_one
escape_end first b s hb e = none≢some (sym (ap decode_one e) ∙ decode_one-escape_byte first b s hb)

escape_rest_inj :
    (s t : Bytes)
    → All (λ b. b < 256) s
    → All (λ b. b < 256) t
    → escape_rest s ≡ escape_rest t
    → s ≡ t
unfolding escape_rest
escape_rest_inj [] [] hs ht e = refl
escape_rest_inj [] (c ∷ t) hs ht e = absurd (escape_end false c (escape_rest t) ht.0 (sym e))
escape_rest_inj (b ∷ s) [] hs ht e = absurd (escape_end false b (escape_rest s) hs.0 e)
escape_rest_inj (b ∷ s) (c ∷ t) hs ht e =
    let step = escape_step false b c (escape_rest s) (escape_rest t) hs.0 ht.0 e in
    let rest = escape_rest_inj s t hs.1 ht.1 (ap (λ p. p.1) step) in
    λ i. ap (λ p. p.0) step i ∷ rest i

unit_escape_inj :
    (s t : Bytes)
    → All (λ b. b < 256) s
    → All (λ b. b < 256) t
    → unit_escape s ≡ unit_escape t
    → s ≡ t
unfolding unit_escape
unit_escape_inj [] [] hs ht e = refl
unit_escape_inj [] (c ∷ t) hs ht e = absurd (escape_end true c (escape_rest t) ht.0 (sym e))
unit_escape_inj (b ∷ s) [] hs ht e = absurd (escape_end true b (escape_rest s) hs.0 e)
unit_escape_inj (b ∷ s) (c ∷ t) hs ht e =
    let step = escape_step true b c (escape_rest s) (escape_rest t) hs.0 ht.0 e in
    let rest = escape_rest_inj s t hs.1 ht.1 (ap (λ p. p.1) step) in
    λ i. ap (λ p. p.0) step i ∷ rest i

-- Two volumes with one unit are one volume.
unit_of_inj :
    (s t : Bytes) → All (λ b. b < 256) s → All (λ b. b < 256) t → unit_of s ≡ unit_of t → s ≡ t
unfolding unit_of
unit_of_inj s t hs ht e = unit_escape_inj s t hs ht (
    append_cancel_right (unit_escape s) (unit_escape t) (codes ".service") (
      append_cancel_left (codes "systemd-cryptsetup@") (unit_escape s ++ codes ".service")
        (unit_escape t ++ codes ".service") e))

names_one :
    (found : Option Bytes) (u w : Bytes)
    → elim found [ none ↦ false | some path ↦ equal (last_component path) u ] ≡ true
    → elim found [ none ↦ false | some path ↦ equal (last_component path) w ] ≡ true
    → u ≡ w
names_one none u w hu hw = cc
names_one (some path) u w hu hw =
    sym ((equal_iff (last_component path) u).0 hu) ∙ (equal_iff (last_component path) w).0 hw

in_unit-unit : (cgroup u w : Bytes) → in_unit cgroup u ≡ true → in_unit cgroup w ≡ true → u ≡ w
unfolding in_unit
in_unit-unit cgroup u w hu hw = names_one (find_prefixed (codes "0::") (lines cgroup)) u w hu hw

-- A process whose cgroup text places it in the units of two volumes, whose names are bytes, is
-- placed in the unit of one volume: the escape of unit names keeps them apart.
pub in_unit-unit_of :
    (cgroup v w : Bytes)
    → All (λ b. b < 256) v
    → All (λ b. b < 256) w
    → in_unit cgroup (unit_of v) ≡ true
    → in_unit cgroup (unit_of w) ≡ true
    → v ≡ w
in_unit-unit_of cgroup v w hv hw in_v in_w =
    unit_of_inj v w hv hw (in_unit-unit cgroup (unit_of v) (unit_of w) in_v in_w)

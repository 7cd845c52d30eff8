-- ===== src/AskPw/Unescape.antt =====
-- The id of a prompt names the device that it is about, and no other.
use tpm2_autoenroll.Base.{
  leb, ◌==◌, if◌then◌else◌, ==_iff, Bool-cases, length, All, Bytes, codes, ℕ, zero, suc, ◌+◌, ◌*◌,
  ◌/◌, ◌%◌, ◌<◌, ◌≡◌, refl, sym, ap, ◌∙◌, inl, inr, false, ◌&&◌, ◌||◌, Option, none, some, [], ◌∷◌,
  ◌++◌, arith,
}
use tpm2_autoenroll.Base.Options.{◌>>=◌}
use tpm2_autoenroll.AskPw.{escape_byte, cescape}
use tpm2_autoenroll.Hex.{hex, to_digit, to_digit-hex_digit}

-- What a letter after a backslash stands for.
letter : ℕ → Option ℕ
letter c =
    if c == b'a'
    then some 7
    else if c == b'b'
    then some 8
    else if c == b'f'
    then some 12
    else if c == b'n'
    then some 10
    else if c == b'r'
    then some 13
    else if c == b't'
    then some 9
    else if c == b'v'
    then some 11
    else if (c == 92) || (c == 34) || (c == 39)
    then some c
    else none

digits : Bytes → Option (ℕ × Bytes)
digits (h ∷ l ∷ s) = do hi ← to_digit h; lo ← to_digit l; some (hi * 16 + lo, s)
digits _ = none

after_backslash : Bytes → Option (ℕ × Bytes)
after_backslash [] = none
after_backslash (c ∷ s) = if c == b'x' then digits s else do b ← letter c; some (b, s)

-- The first byte of a text with the escapes of C, and what follows it.
unescape_one : Bytes → Option (ℕ × Bytes)
unescape_one [] = none
unescape_one (c ∷ s) = if c == 92 then after_backslash s else some (c, s)

-- The text, on fuel.
pub unescape : ℕ → Bytes → Option Bytes
unescape zero s = none
unescape (suc fuel) [] = some []
unescape (suc fuel) (c ∷ s) = do
  one ← unescape_one (c ∷ s)
  rest ← unescape fuel one.1
  some (one.0 ∷ rest)

unescape_hex :
    (b : ℕ) (s : Bytes) → b < 256 → unescape_one ((codes "\\x" ++ hex (b ∷ [])) ++ s) ≡ some (b, s)
unfolding unescape_one after_backslash digits hex codes
unescape_hex b s h =
    let whole : (b / 16) * 16 + b % 16 ≡ b = omega arith in
    rw (to_digit-hex_digit (b / 16) (omega arith), to_digit-hex_digit (b % 16) (omega arith), whole)

-- One of the tests of `escape_byte`.
by_test :
    (b k : ℕ) (x y s : Bytes)
    → unescape_one (x ++ s) ≡ some (k, s)
    → ((b == k) ≡ false → unescape_one (y ++ s) ≡ some (b, s))
    → unescape_one ((if b == k then x else y) ++ s) ≡ some (b, s)
by_test b k x y s hx hy = elim (Bool-cases (b == k)) [
  | inl e ↦ rw e (hx ∙ ap (λ n. some (n, s)) (sym ((==_iff b k).0 e)))
  | inr e ↦ rw e (hy e)
]

unescape_plain : (b : ℕ) (s : Bytes) → (b == 92) ≡ false → unescape_one (b ∷ s) ≡ some (b, s)
unfolding unescape_one
unescape_plain b s h = rw h

unescape_one-escape_byte :
    (b : ℕ) (s : Bytes) → b < 256 → unescape_one (escape_byte b ++ s) ≡ some (b, s)
unfolding escape_byte unescape_one after_backslash letter codes
unescape_one-escape_byte b s h = by_test b 7 _ _ s refl λ n7. by_test b 8 _ _ s refl λ n8.
    by_test b 12 _ _ s refl λ n12. by_test b 10 _ _ s refl λ n10. by_test b 13 _ _ s refl λ n13.
      by_test b 9 _ _ s refl λ n9. by_test b 11 _ _ s refl λ n11.
        by_test b 92 _ _ s refl
          λ slash. by_test b 34 _ _ s refl λ n34. by_test b 39 _ _ s refl λ n39. shown slash
  where
    shown :
        (b == 92) ≡ false
        → unescape_one
            ((if leb 0x20 b && leb b 0x7e then b ∷ [] else codes "\\x" ++ hex (b ∷ [])) ++ s)
          ≡ some (b, s)
    shown slash = elim (Bool-cases (leb 0x20 b && leb b 0x7e)) [
      | inl e ↦ rw e (unescape_plain b s slash)
      | inr e ↦ rw e (unescape_hex b s h)
    ]

unescape_step :
    (fuel b : ℕ) (t rest s : Bytes)
    → unescape_one t ≡ some (b, rest)
    → unescape fuel rest ≡ some s
    → unescape (suc fuel) t ≡ some (b ∷ s)
unfolding unescape unescape_one
unescape_step fuel b [] rest s one later = cc
unescape_step fuel b (c ∷ t) rest s one later = rw (unescape, one, later)

-- The escape of a device's path, whose elements are bytes, is read back as that path by the rules for the
-- escapes of C; so the ids of the prompts for two devices differ.
pub unescape-cescape :
    (s : Bytes) → All (λ b. b < 256) s → unescape (suc (length s)) (cescape s) ≡ some s
unfolding unescape cescape
unescape-cescape [] h = refl
unescape-cescape (b ∷ s) h =
    unescape_step (suc (length s)) b (escape_byte b ++ cescape s) (cescape s) s
      (unescape_one-escape_byte b (cescape s) h.0) (unescape-cescape s h.1)

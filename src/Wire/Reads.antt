-- ===== src/Wire/Reads.antt =====
-- What the `Reader` gives back of what the `put` functions wrote, and that it stays in its buffer.
use native.Mathlib.Nat.{add-zero, zero-add, suc-add}
use Prim.Native.Nat.add
use tpm2_autoenroll.Base.{
  length, take, drop, length-append, length-take, length-drop, take-length-append,
  drop-length-append, Bytes, ℕ, zero, suc, ◌+◌, ◌%◌, ◌^◌, ◌≤◌, ◌<◌, ◌≡◌, refl, ap, List, [], ◌∷◌,
  ◌++◌, arith,
}
use tpm2_autoenroll.Base.Results.{ok}
use tpm2_autoenroll.Wire.{
  to_be16, to_be32, from_be, put_u16, put_tpm2b, Reader, new, bytes, u8, u16, u32, tpm2b,
}

-- The reader stands before `rest`, inside a buffer that fits the address space.
pub record Before (r : Reader) (rest : Bytes) : Type 0 where
  pub inside : r.at ≤ length r.buf
  pub small : length r.buf < 2 ^ 64
  pub unread : drop r.at r.buf ≡ rest

pub Before-new : (buf : Bytes) → length buf < 2 ^ 64 → Before (new buf) buf
Before-new buf h = record { inside = omega arith; small = h; unread = refl }

drop-drop {ℓ} : {A : Type ℓ} (m n : ℕ) (xs : List A) → drop n (drop m xs) ≡ drop (m + n) xs
drop-drop zero n xs = rw zero-add
drop-drop (suc m) zero [] = rw add-zero
drop-drop (suc m) (suc n) [] = rw add.suc
drop-drop (suc m) n (x ∷ xs) = rw suc-add (drop-drop m n xs)

module _ (n : ℕ) (r : Reader) (xs rest : Bytes) (l : length xs ≡ n)
    (h : Before r (xs ++ rest)) where
  fits : r.at + n ≤ length r.buf
  fits =
      omega (arith, l, ap length h.unread, length-drop r.at r.buf, length-append xs rest, h.inside)

  taken : take n (drop r.at r.buf) ≡ xs
  taken = rw (h.unread, ← l) (take-length-append xs rest)

  left : drop (r.at + n) r.buf ≡ rest
  left = rw (← (drop-drop r.at n r.buf)) (rw (h.unread, ← l) (drop-length-append xs rest))

  read_all : bytes n r ≡ ok (xs, record r { at = r.at + n })
  unfolding bytes
  read_all = ground (arith, fits, taken, h.small)

  -- Reading as many bytes as `xs` has, before `xs ++ rest`, gives `xs` and stands before `rest`.
  pub bytes-Before : (r' : Reader) × (bytes n r ≡ ok (xs, r')) × Before r' rest
  bytes-Before = (
    record r { at = r.at + n },
    read_all,
    record { inside = fits; small = h.small; unread = left },
  )

from_be-to_be16 : (v : ℕ) → v < 2 ^ 16 → from_be (to_be16 v) ≡ v
from_be-to_be16 v h = omega arith

pub from_be-to_be32 : (v : ℕ) → v < 2 ^ 32 → from_be (to_be32 v) ≡ v
from_be-to_be32 v h = omega arith

pub u8-Before :
    (r : Reader) (b : ℕ) (rest : Bytes)
    → Before r (b ∷ rest)
    → (r' : Reader) × (u8 r ≡ ok (b, r')) × Before r' rest
unfolding u8
u8-Before r b rest h =
    let (r', e, h') = bytes-Before 1 r (b ∷ []) rest refl h in (r', rw e (ground arith), h')

pub u16-Before :
    (r : Reader) (v : ℕ) (rest : Bytes)
    → v < 2 ^ 16
    → Before r (to_be16 v ++ rest)
    → (r' : Reader) × (u16 r ≡ ok (v, r')) × Before r' rest
unfolding u16
u16-Before r v rest fit h =
    let (r', e, h') = bytes-Before 2 r (to_be16 v) rest refl h in
    (r', rw (e, from_be-to_be16 v fit), h')

pub u32-Before :
    (r : Reader) (v : ℕ) (rest : Bytes)
    → v < 2 ^ 32
    → Before r (to_be32 v ++ rest)
    → (r' : Reader) × (u32 r ≡ ok (v, r')) × Before r' rest
unfolding u32
u32-Before r v rest fit h =
    let (r', e, h') = bytes-Before 4 r (to_be32 v) rest refl h in
    (r', rw (e, from_be-to_be32 v fit), h')

pub tpm2b-Before :
    (r : Reader) (d rest : Bytes)
    → length d < 2 ^ 16
    → Before r (put_tpm2b [] d ++ rest)
    → (r' : Reader) × (tpm2b r ≡ ok (d, r')) × Before r' rest
unfolding tpm2b put_tpm2b put_u16
tpm2b-Before r d rest fit h =
    let whole : length d % 2 ^ 16 ≡ length d = omega arith in
    let (r1, e1, h1) = u16-Before r (length d) (d ++ rest) fit (rw whole at h) in
    let (r2, e2, h2) = bytes-Before (length d) r1 d rest refl h1 in (r2, rw (e1, e2), h2)

-- Whatever is read, the reader stays in the same buffer, does not pass its end, and has moved by
-- exactly the bytes that it gave back.
pub bytes-inside :
    (n : ℕ) (r : Reader) (xs : Bytes) (r' : Reader)
    → bytes n r ≡ ok (xs, r')
    → (r'.buf ≡ r.buf) × (r'.at ≡ r.at + n) × (r'.at ≤ length r.buf) × (length xs ≡ n)
unfolding bytes
bytes-inside n r xs r' h = ground (arith, length-take n (drop r.at r.buf), length-drop r.at r.buf)

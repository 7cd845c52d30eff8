-- ===== src/Device/Wiped.antt =====
-- `SecretFile::drop` of src/memfd.rs: what a memfd holds once it is wiped.
use Prim.Native.Nat.{min}
use mathlib.Core.List.{append_assoc}
use tpm2_autoenroll.Base.{
  ltb, ltb→lt, Bool-cases, length, take, drop, replicate, length-append, length-drop,
  length-replicate, take-length-append, Bytes, ℕ, zero, suc, ◌+◌, ◌-◌, ◌≤◌, ◌<◌, ◌≡◌, refl, sym, ap,
  ◌∙◌, inl, inr, some, [], ◌∷◌, ◌++◌, arith,
}
use tpm2_autoenroll.Base.Results.{ok}
use tpm2_autoenroll.Device.{overwritten, wipe_from, drop_secret}
use tpm2_autoenroll.Os.{Os, Sys, ask}

-- A file in memory: `pwrite` puts a start of the data, not an empty one, over what is at the offset.
pub record Memfd (os : Os) (fd : ℕ) : Type 0 where
  pub held : os.World → Bytes
  pub taken : Bytes → ℕ → os.World → ℕ
  pub accepted :
      (msg : Bytes) (at : ℕ) (w : os.World)
      → 0 < length msg
      → (os.pwrite fd msg at w).0 ≡ ok (taken msg at w)
  pub some_taken : (msg : Bytes) (at : ℕ) (w : os.World) → 0 < length msg → 0 < taken msg at w
  pub not_more : (msg : Bytes) (at : ℕ) (w : os.World) → taken msg at w ≤ length msg
  pub overwrites :
      (msg : Bytes) (at : ℕ) (w : os.World)
      → held (os.pwrite fd msg at w).1
        ≡ take at (held w) ++ (take (taken msg at w) msg ++ drop (at + taken msg at w) (held w))

abbrev pub blank : ℕ → Bytes
blank n = replicate n 0

length-blank : (n : ℕ) → length (blank n) ≡ n
length-blank n = length-replicate {A = ℕ} n 0

take-blank : (k n : ℕ) → k ≤ n → take k (blank n) ≡ blank k
take-blank zero n h = refl
take-blank (suc k) zero h = absurd (omega arith)
take-blank (suc k) (suc n) h = ap (λ l. 0 ∷ l) (take-blank k n (omega arith))

blank_add : (a b : ℕ) → blank a ++ blank b ≡ blank (a + b)
blank_add zero b = ap blank (omega arith)
blank_add (suc a) b =
    let whole : suc (a + b) ≡ suc a + b = omega arith in
    ap (λ l. 0 ∷ l) (blank_add a b) ∙ ap blank whole

pub take_whole : (c : Bytes) (n : ℕ) → length c ≤ n → take n c ≡ c
take_whole [] zero h = refl
take_whole [] (suc n) h = refl
take_whole (b ∷ c) zero h = absurd (omega arith)
take_whole (b ∷ c) (suc n) h = ap (λ l. b ∷ l) (take_whole c n (omega arith))

-- After a write of zeros the file is zeros up to the end of what was written.
blank_on :
    (c : Bytes) (at k n : ℕ)
    → take at c ≡ blank at
    → k ≤ n
    → take at c ++ (take k (blank n) ++ drop (at + k) c) ≡ blank (at + k) ++ drop (at + k) c
blank_on c at k n done h =
    ap (λ l. l ++ (take k (blank n) ++ drop (at + k) c)) done
    ∙ ap (λ l. blank at ++ (l ++ drop (at + k) c)) (take-blank k n h)
    ∙ sym (append_assoc (blank at) (blank k) (drop (at + k) c))
    ∙ ap (λ l. l ++ drop (at + k) c) (blank_add at k)

length-blank_on : (c : Bytes) (m : ℕ) → m ≤ length c → length (blank m ++ drop m c) ≡ length c
length-blank_on c m h =
    omega (arith, length-append (blank m) (drop m c), length-blank m, length-drop m c)

take-blank_on : (c : Bytes) (m : ℕ) → take m (blank m ++ drop m c) ≡ blank m
take-blank_on c m =
    ap (λ n. take n (blank m ++ drop m c)) (sym (length-blank m))
    ∙ take-length-append (blank m) (drop m c)

overwritten-ok : (k : ℕ) → 0 < k → overwritten (ok k) ≡ some k
unfolding overwritten
overwritten-ok zero h = absurd (omega arith)
overwritten-ok (suc k) h = refl

module _ {os : Os} {fd : ℕ} (file : Memfd os fd) where
  holds : Sys os → Bytes
  holds s = file.held s.world

  -- From an offset up to which the file is zeros, the loop makes all of it zeros.
  wipe_from-blank :
      (fuel at len : ℕ) (s : Sys os)
      → length (holds s) ≡ len
      → at ≤ len
      → take at (holds s) ≡ blank at
      → len - at ≤ fuel
      → holds (wipe_from os fuel fd len at s).1 ≡ blank len
  unfolding wipe_from holds ask
  wipe_from-blank zero at len s long inside done enough =
      sym (take_whole (holds s) at (omega (arith, long))) ∙ done ∙ ap blank (omega arith)
  wipe_from-blank (suc fuel) at len s long inside done enough =
      let n : ℕ = min (len - at) 4096 in
      let k : ℕ = file.taken (blank n) at s.world in
      let wrote = ask os (os.pwrite fd (blank n) at) s in
      elim (Bool-cases (ltb at len)) [
        | inr e ↦
            let over : at ≡ len = ground (arith, e) in
            rw (wipe_from, e)
              (sym (take_whole (holds s) at (omega (arith, long))) ∙ done ∙ ap blank over)
        | inl e ↦
            let room : at < len = ltb→lt at len e in
            let full : 0 < length (blank n) = omega (arith, length-blank n) in
            let fits : k ≤ n = omega (arith, length-blank n, file.not_more (blank n) at s.world) in
            let more : 0 < k = file.some_taken (blank n) at s.world full in
            let now : file.held (os.pwrite fd (blank n) at s.world).1
                ≡ blank (at + k) ++ drop (at + k) (holds s) =
              file.overwrites (blank n) at s.world ∙ blank_on (holds s) at k n done fits in
            let took : overwritten (os.pwrite fd (blank n) at s.world).0 ≡ some k =
              ap overwritten (file.accepted (blank n) at s.world full) ∙ overwritten-ok k more in
            rw (wipe_from, e, took)
              (wipe_from-blank fuel (at + k) len wrote.1
                (ap length now ∙ length-blank_on (holds s) (at + k) (omega (arith, long)) ∙ long)
                (omega arith) (ap (take (at + k)) now ∙ take-blank_on (holds s) (at + k))
                (omega arith))
      ]

  -- When a memfd that holds a secret is dropped and its writes are taken, each at least in part, then
  -- all of it holds zeros when the file is cut off, which is the last thing done to it.
  pub drop_secret-blank :
      (len : ℕ) (s : Sys os)
      → length (file.held s.world) ≡ len
      → (w : os.World) × (file.held w ≡ blank len)
        × ((drop_secret os fd len s).1.world ≡ (os.ftruncate fd 0 w).1)
  unfolding holds drop_secret ask
  drop_secret-blank len s long = (
    (wipe_from os len fd len 0 s).1.world,
    wipe_from-blank len 0 len s long (omega arith) refl (omega arith),
    refl,
  )

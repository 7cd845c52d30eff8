-- ===== src/Serve/Writes.antt =====
-- `write_all` of src/main.rs: what a connection has taken when it returns, and that it returns.
use mathlib.Core.List.{append-nil, append_assoc}
use tpm2_autoenroll.Base.{
  if◌then◌else◌, Bool-cases, length, is_empty, take, drop, length-drop, take-append-drop, Bytes, ℕ,
  zero, suc, ◌+◌, ◌≤◌, ◌<◌, ◌≡◌, refl, sym, ap, ◌∙◌, ◌≢◌, ◌⊎◌, inl, inr, true, false, List, [], ◌∷◌,
  ◌++◌, map, arith,
}
use tpm2_autoenroll.Base.Results.{Result, ok, err}
use tpm2_autoenroll.Os.{Os, Sys, sent, ask}
use tpm2_autoenroll.Serve.{
  Written, all_written, still_writing, write_failed, Next, next, go_on, again, stop, eintr,
  note_sent, write_all,
}

unfoldable pub joined : List Bytes → Bytes
joined [] = []
joined (b ∷ bs) = b ++ joined bs

-- The connection took `chunks` in this order, which is the start of `buf`, or all of it.
pub record Sends {os : Os} (fd : ℕ) (buf : Bytes) (s : Sys os) (out : Written × Sys os)
    : Type 0 where
  pub chunks : List Bytes
  pub rest : Bytes
  pub grown : out.1.trace ≡ s.trace ++ map (sent fd) chunks
  pub start : joined chunks ++ rest ≡ buf
  pub whole : out.0 ≡ all_written → rest ≡ []

pub Next-cases : (n : Next) → ((k : ℕ) × (n ≡ go_on k)) ⊎ (n ≡ again) ⊎ ((e : ℕ) × (n ≡ stop e))
Next-cases (go_on k) = inl (k, refl)
Next-cases again = inr (inl refl)
Next-cases (stop e) = inr (inr (e, refl))

is_empty-nil : (buf : Bytes) → is_empty buf ≡ true → buf ≡ []
is_empty-nil [] h = refl
is_empty-nil (b ∷ s) h = cc

failed≢all : {e : ℕ} → write_failed e ≢ all_written
failed≢all h = cc

done_when :
    (buf : Bytes)
    → (if is_empty buf then all_written else still_writing) ≡ all_written
    → is_empty buf ≡ true
done_when [] h = refl
done_when (b ∷ s) h = cc

module _ {os : Os} (fd : ℕ) where
  nothing_sent :
      (buf : Bytes) (s : Sys os) (w : Written) (t : Sys os)
      → t.trace ≡ s.trace
      → (w ≡ all_written → buf ≡ [])
      → Sends fd buf s (w, t)
  unfolding joined
  nothing_sent buf s w t same whole = record {
    chunks = [];
    rest = buf;
    grown = same ∙ sym (append-nil s.trace);
    start = refl;
    whole = whole;
  }

  same_start :
      (buf : Bytes) (s t : Sys os) {out : Written × Sys os}
      → t.trace ≡ s.trace
      → Sends fd buf t out
      → Sends fd buf s out
  same_start buf s t same sends = record {
    chunks = sends.chunks;
    rest = sends.rest;
    grown = sends.grown ∙ ap (λ l. l ++ map (sent fd) sends.chunks) same;
    start = sends.start;
    whole = sends.whole;
  }

  one_more :
      (n : ℕ) (buf : Bytes) (s : Sys os) (t : Sys os) (out : Written × Sys os)
      → t.trace ≡ s.trace
      → Sends fd (drop n buf) (note_sent os fd buf n t) out
      → Sends fd buf s out
  unfolding note_sent joined
  one_more n buf s t out same later = record {
    chunks = take n buf ∷ later.chunks;
    rest = later.rest;
    grown =
        later.grown
        ∙ ap (λ l. (l ++ sent fd (take n buf) ∷ []) ++ map (sent fd) later.chunks) same
        ∙ append_assoc s.trace (sent fd (take n buf) ∷ []) (map (sent fd) later.chunks);
    start =
        append_assoc (take n buf) (joined later.chunks) later.rest
        ∙ ap (λ l. take n buf ++ l) later.start
        ∙ take-append-drop n buf;
    whole = later.whole;
  }

  -- Whatever happens while a buffer is written, the connection has taken a start of it, in order and
  -- nothing else; when the writing succeeds, it has taken all of it.
  pub write_all-Sends :
      (fuel : ℕ) (buf : Bytes) (s : Sys os) → Sends fd buf s (write_all os fuel fd buf s)
  unfolding write_all ask
  write_all-Sends zero buf s = nothing_sent buf s _ s refl (λ h. is_empty-nil buf (done_when buf h))
  write_all-Sends (suc fuel) buf s =
      let wrote = ask os (os.write fd buf) s in
      elim (Bool-cases (is_empty buf)) [
        | inl e ↦
            rw (write_all, e) (nothing_sent buf s all_written s refl (λ h. is_empty-nil buf e))
        | inr e ↦ elim (Next-cases (next wrote.0)) [
          | inl (n, f) ↦
              rw (write_all, e, f)
                (one_more n buf s wrote.1 _ refl
                  (write_all-Sends fuel (drop n buf) (note_sent os fd buf n wrote.1)))
          | inr (inl f) ↦
              rw (write_all, e, f)
                (same_start buf s wrote.1 refl (write_all-Sends fuel buf wrote.1))
          | inr (inr (why, f)) ↦
              rw (write_all, e, f)
                (nothing_sent buf s (write_failed why) wrote.1 refl (λ h. absurd (failed≢all h)))
        ]
      ]

-- A write is interrupted finitely often: each interruption uses up some of the patience that the
-- system has left, and no write gives any back.
pub record Patient (os : Os) : Type 0 where
  pub patience : os.World → ℕ
  pub interrupts :
      (fd : ℕ) (buf : Bytes) (w : os.World)
      → (os.write fd buf w).0 ≡ err eintr
      → patience (os.write fd buf w).1 < patience w
  pub keeps : (fd : ℕ) (buf : Bytes) (w : os.World) → patience (os.write fd buf w).1 ≤ patience w

next-again : (r : Result ℕ ℕ) → next r ≡ again → r ≡ err eintr
unfolding next
next-again (ok zero) h = cc
next-again (ok (suc n)) h = cc
next-again (err e) h = ground arith

next-go_on : (r : Result ℕ ℕ) (n : ℕ) → next r ≡ go_on n → 0 < n
unfolding next
next-go_on (ok zero) n h = cc
next-go_on (ok (suc k)) n h = ground arith
next-go_on (err e) n h = ground arith

nonempty : (buf : Bytes) → is_empty buf ≡ false → 0 < length buf
nonempty [] h = cc
nonempty (b ∷ s) h = omega arith

ended : all_written ≢ still_writing
ended h = cc

failed : {e : ℕ} → write_failed e ≢ still_writing
failed h = cc

-- On a system that interrupts finitely often, fuel for each byte and each interruption is enough:
-- the writing comes to an end, with all of the buffer written or with an error.
pub write_all-ends :
    {os : Os} (patient : Patient os) (fuel fd : ℕ) (buf : Bytes) (s : Sys os)
    → length buf + patient.patience s.world ≤ fuel
    → (write_all os fuel fd buf s).0 ≢ still_writing
unfolding write_all note_sent ask
write_all-ends patient zero fd [] s enough = λ h. ended h
write_all-ends patient zero fd (b ∷ buf) s enough = omega arith
write_all-ends {os} patient (suc fuel) fd buf s enough =
    let wrote = ask os (os.write fd buf) s in
    elim (Bool-cases (is_empty buf)) [
      | inl e ↦ rw (write_all, e) ended
      | inr e ↦ elim (Next-cases (next wrote.0)) [
        | inl (n, f) ↦
            rw (write_all, e, f)
              (write_all-ends patient fuel fd (drop n buf) (note_sent os fd buf n wrote.1) (
                omega (
                  arith,
                  nonempty buf e,
                  next-go_on wrote.0 n f,
                  length-drop n buf,
                  patient.keeps fd buf s.world,
                )))
        | inr (inl f) ↦
            rw (write_all, e, f)
              (write_all-ends patient fuel fd buf wrote.1
                (omega (arith, patient.interrupts fd buf s.world (next-again wrote.0 f))))
        | inr (inr (why, f)) ↦ rw (write_all, e, f) failed
      ]
    ]

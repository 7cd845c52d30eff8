-- ===== src/Serve/Broken.antt =====
-- `write_all` of src/main.rs: a reply that fails has failed at a write to the connection.
use mathlib.Core.List.{append-nil, append_assoc}
use tpm2_autoenroll.Base.{
  if◌then◌else◌, Bool-cases, is_empty, take, drop, take-append-drop, Bytes, ℕ, zero, suc, ◌≡◌, refl,
  sym, ap, ◌∙◌, ◌≢◌, ◌⊎◌, inl, inr, Bool, true, false, List, [], ◌∷◌, ◌++◌, map, arith,
}
use tpm2_autoenroll.Base.Results.{Result, ok, err}
use tpm2_autoenroll.Os.{Os, Sys, sent, ask}
use tpm2_autoenroll.Serve.{
  all_written, still_writing, write_failed, next, stop, note_sent, write_all,
}
use tpm2_autoenroll.Serve.Writes.{joined, Next-cases}

-- The connection took `chunks`, and the write of what was left of `buf`, the last thing done, failed.
pub record Broken {os : Os} (fd : ℕ) (buf : Bytes) (why : ℕ) (s t : Sys os) : Type 0 where
  pub chunks : List Bytes
  pub rest : Bytes
  pub last : Sys os
  pub start : joined chunks ++ rest ≡ buf
  pub some_left : is_empty rest ≡ false
  pub grown : last.trace ≡ s.trace ++ map (sent fd) chunks
  pub failed :
      ((ask os (os.write fd rest) last).0 ≡ ok 0) ⊎ ((ask os (os.write fd rest) last).0 ≡ err why)
  pub ends : (ask os (os.write fd rest) last).1 ≡ t

next-stop : (r : Result ℕ ℕ) (e : ℕ) → next r ≡ stop e → (r ≡ ok 0) ⊎ (r ≡ err e)
unfolding next
next-stop (ok zero) e h = inl refl
next-stop (ok (suc n)) e h = cc
next-stop (err e') e h = inr (ground arith)

write_failed_inj : {e e' : ℕ} → write_failed e ≡ write_failed e' → e ≡ e'
write_failed_inj h = cc

finished : (b : Bool) {e : ℕ} → (if b then all_written else still_writing) ≢ write_failed e
finished true h = cc
finished false h = cc

module _ {os : Os} (fd : ℕ) where
  later_Broken :
      (buf : Bytes) (why : ℕ) (s t u : Sys os)
      → t.trace ≡ s.trace
      → Broken fd buf why t u
      → Broken fd buf why s u
  later_Broken buf why s t u same b = record {
    chunks = b.chunks;
    rest = b.rest;
    last = b.last;
    start = b.start;
    some_left = b.some_left;
    grown = b.grown ∙ ap (λ l. l ++ map (sent fd) b.chunks) same;
    failed = b.failed;
    ends = b.ends;
  }

  one_more_Broken :
      (n : ℕ) (buf : Bytes) (why : ℕ) (s t u : Sys os)
      → t.trace ≡ s.trace
      → Broken fd (drop n buf) why (note_sent os fd buf n t) u
      → Broken fd buf why s u
  unfolding note_sent joined
  one_more_Broken n buf why s t u same b = record {
    chunks = take n buf ∷ b.chunks;
    rest = b.rest;
    last = b.last;
    start =
        append_assoc (take n buf) (joined b.chunks) b.rest
        ∙ ap (λ l. take n buf ++ l) b.start
        ∙ take-append-drop n buf;
    some_left = b.some_left;
    grown =
        b.grown
        ∙ ap (λ l. (l ++ sent fd (take n buf) ∷ []) ++ map (sent fd) b.chunks) same
        ∙ append_assoc s.trace (sent fd (take n buf) ∷ []) (map (sent fd) b.chunks);
    failed = b.failed;
    ends = b.ends;
  }

  pub write_all-Broken :
      (fuel : ℕ) (buf : Bytes) (s : Sys os) (why : ℕ)
      → (write_all os fuel fd buf s).0 ≡ write_failed why
      → Broken fd buf why s (write_all os fuel fd buf s).1
  unfolding write_all ask joined
  write_all-Broken zero buf s why h = absurd (finished (is_empty buf) h)
  write_all-Broken (suc fuel) buf s why h =
      let wrote = ask os (os.write fd buf) s in
      elim (Bool-cases (is_empty buf)) [
        | inl e ↦ absurd (finished true (rw (write_all, e) at h))
        | inr e ↦ elim (Next-cases (next wrote.0)) [
          | inl (n, f) ↦
              rw (write_all, e, f)
                (one_more_Broken n buf why s wrote.1 _ refl (
                  write_all-Broken fuel (drop n buf) (note_sent os fd buf n wrote.1) why
                    (rw (write_all, e, f) at h)))
          | inr (inl f) ↦
              rw (write_all, e, f)
                (later_Broken buf why s wrote.1 _ refl
                  (write_all-Broken fuel buf wrote.1 why (rw (write_all, e, f) at h)))
          | inr (inr (e', f)) ↦
              let same : e' ≡ why = write_failed_inj (rw (write_all, e, f) at h) in
              rw (write_all, e, f)
                (record {
                  chunks = [];
                  rest = buf;
                  last = s;
                  start = refl;
                  some_left = e;
                  grown = sym (append-nil s.trace);
                  failed = next-stop wrote.0 why (f ∙ ap stop same);
                  ends = refl;
                })
        ]
      ]

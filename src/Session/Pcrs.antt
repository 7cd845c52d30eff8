-- ===== src/Session/Pcrs.antt =====
-- `read_pcrs` ends, and what it returns answers for exactly the PCRs that were asked for.
use tpm2_autoenroll.Base.{
  ◌==◌, length, is_empty, Bytes, contains, ℕ, zero, suc, ◌≤◌, ◌<◌, ◌≡◌, refl, ap, ◌∙◌, ◌⊎◌, inl,
  inr, true, false, ◌||◌, Option, none, some, List, [], ◌∷◌, arith,
}
use tpm2_autoenroll.Base.Ascending.{From, From-unique, IsAscending}
use tpm2_autoenroll.Base.Results.{Result, ok, err, Holds, Holds-eq}
use tpm2_autoenroll.Base.Exec.{lift, ◌>>=◌, bind_case}
use tpm2_autoenroll.Base.Sort.{sort, dedup, dedup-sort-IsAscending}
use tpm2_autoenroll.Os.{Os, Sys}
use tpm2_autoenroll.Pcr.Absorb.{
  pcrs, Distinct, IsRound, parse_pcr_read-Holds, absorb-IsRound, absorb-shrinks,
}
use tpm2_autoenroll.Pcr.{Round, PcrRead, absorb, parse_pcr_read, put_pcr_selection}
use tpm2_autoenroll.Session.{
  transact, read_round, read_rounds, read_pcrs, sort_by_pcr, insert_by_pcr,
}
use tpm2_autoenroll.Tpm.{Bank, cc_pcr_read}
use tpm2_autoenroll.Wire.{TpmError}

contains-insert_by_pcr :
    (c : ℕ) (e : ℕ × Bytes) (l : List (ℕ × Bytes))
    → contains c (pcrs (insert_by_pcr e l)) ≡ e.0 == c || contains c (pcrs l)
unfolding insert_by_pcr contains
contains-insert_by_pcr c e [] = ground arith
contains-insert_by_pcr c e (f ∷ l) = ground (arith, contains-insert_by_pcr c e l)

contains-sort_by_pcr :
    (c : ℕ) (l : List (ℕ × Bytes)) → contains c (pcrs (sort_by_pcr l)) ≡ contains c (pcrs l)
unfolding sort_by_pcr contains
contains-sort_by_pcr c [] = refl
contains-sort_by_pcr c (e ∷ l) =
    rw contains-insert_by_pcr (ground (arith, contains-sort_by_pcr c l))

insert_by_pcr-From :
    (lo : ℕ) (e : ℕ × Bytes) (l : List (ℕ × Bytes))
    → From lo (pcrs l)
    → contains e.0 (pcrs l) ≡ false
    → lo ≤ e.0
    → From lo (pcrs (insert_by_pcr e l))
unfolding insert_by_pcr contains
insert_by_pcr-From lo e [] f new h = (h, tt)
insert_by_pcr-From lo e (x ∷ l) f new h = ground (arith, insert_by_pcr-From (suc x.0) e l f.1)

sort_by_pcr-IsAscending :
    (l : List (ℕ × Bytes)) → Distinct (pcrs l) → IsAscending (pcrs (sort_by_pcr l))
unfolding sort_by_pcr
sort_by_pcr-IsAscending [] d = tt
sort_by_pcr-IsAscending (e ∷ l) d =
    insert_by_pcr-From 0 e (sort_by_pcr l) (sort_by_pcr-IsAscending l d.1)
      (contains-sort_by_pcr e.0 l ∙ d.0) (omega arith)

module _ (os : Os) (fd : ℕ) (bank : Bank) where
  -- A round that succeeds keeps the account of the PCRs and leaves fewer outstanding.
  read_round-Holds :
      (asked : List ℕ) (round : Round) (s : Sys os)
      → IsRound asked round
      → Holds
          (λ r. IsRound asked r × (length r.outstanding < length round.outstanding))
          (read_round os fd bank round s).0
  unfolding read_round ◌>>=◌
  read_round-Holds asked round s inv =
      bind_case (Holds _) (transact os fd cc_pcr_read (put_pcr_selection [] bank round.outstanding))
        _ s (λ e. tt)
        (λ payload _.
          bind_case (Holds _) (lift (parse_pcr_read payload)) _ _ (λ e. tt)
            (λ read e.
              absorbed read (Holds-eq _ _ (parse_pcr_read-Holds payload) e) (absorb round read)
                refl))
    where
      absorbed :
          (read : PcrRead)
          → IsAscending read.0
          → (r : Result TpmError Round) → absorb round read ≡ r
          → Holds (λ t. IsRound asked t × (length t.outstanding < length round.outstanding)) r
      absorbed read asc (err e) h = tt
      absorbed read asc (ok t) h = (
        absorb-IsRound asked round read.0 read.1 t asc h inv,
        absorb-shrinks round read.0 read.1 t h,
      )

  abbrev Finished : List ℕ → Result TpmError (Option Round) → Type 0
  Finished asked (ok (some r)) = IsRound asked r × (r.outstanding ≡ [])
  Finished asked (ok none) = ⊥
  Finished asked (err e) = Unit

  empty_or_more :
      (l : List ℕ) → ((is_empty l ≡ true) × (l ≡ [])) ⊎ ((is_empty l ≡ false) × (0 < length l))
  empty_or_more [] = inl (refl, refl)
  empty_or_more (x ∷ l) = inr (refl, omega arith)

  read_rounds-Finished :
      (fuel : ℕ) (asked : List ℕ) (round : Round) (s : Sys os)
      → length round.outstanding ≤ fuel
      → IsRound asked round
      → Finished asked (read_rounds os fuel fd bank round s).0
  unfolding read_rounds ◌>>=◌
  read_rounds-Finished zero asked round s h inv = elim (empty_or_more round.outstanding) [
    | inl (done, e) ↦ rw done (inv, e)
    | inr (more, pos) ↦ absurd (omega arith)
  ]
  read_rounds-Finished (suc fuel) asked round s h inv = elim (empty_or_more round.outstanding) [
    | inl (done, e) ↦ rw (done, read_rounds) (inv, e)
    | inr (more, pos) ↦
        rw (more, read_rounds)
          (bind_case (Finished asked) (read_round os fd bank round) (read_rounds os fuel fd bank) s
            (λ e. tt)
            (λ round' e.
              let (inv', less) = Holds-eq _ _ (read_round-Holds asked round s inv) e in
              read_rounds-Finished fuel asked round' (read_round os fd bank round s).1 (omega arith)
                inv'))
  ]

  -- What `read_pcrs` promises: an error of the TPM, or one digest for each PCR, in ascending order.
  abbrev pub Answers : List ℕ → Result TpmError (Option (List (ℕ × Bytes))) → Type 0
  Answers asked (ok (some out)) = pcrs out ≡ asked
  Answers asked (ok none) = ⊥
  Answers asked (err e) = Unit

  start-IsRound :
      (asked : List ℕ)
      → IsAscending asked
      → IsRound asked (record { outstanding = asked; out = [] })
  unfolding contains
  start-IsRound asked asc = record { members = λ c. refl; apart = λ c h. cc; distinct = tt }

  finished_pcrs :
      (asked : List ℕ) (r : Round)
      → IsAscending asked
      → IsRound asked r
      → r.outstanding ≡ []
      → pcrs (sort_by_pcr r.out) ≡ asked
  unfolding contains
  finished_pcrs asked r asc inv done =
      From-unique 0 (pcrs (sort_by_pcr r.out)) asked (sort_by_pcr-IsAscending r.out inv.distinct)
        asc
        (λ c. contains-sort_by_pcr c r.out ∙ ground (arith, inv.members c, ap (contains c) done))

  -- Whatever the TPM answers, the loop of `read_pcrs` ends within as many rounds as there are PCRs
  -- asked for; where it ends without an error the result holds one digest for each of them and for
  -- no other, in ascending order.
  pub read_pcrs-Answers :
      (indices : List ℕ) (s : Sys os)
      → Answers (dedup (sort indices)) (read_pcrs os fd bank indices s).0
  unfolding read_pcrs ◌>>=◌
  read_pcrs-Answers indices s =
      let asked = dedup (sort indices) in
      let start : Round = record { outstanding = asked; out = [] } in
      let asc = dedup-sort-IsAscending indices in
      bind_case (Answers asked) (read_rounds os (length asked) fd bank start) _ s (λ e. tt)
        (λ done e. answered done (
          rw e at (
            read_rounds-Finished (length asked) asked start s (omega arith)
              (start-IsRound asked asc))))
    where
      answered :
          (done : Option Round)
          → Finished (dedup (sort indices)) (ok done)
          → Answers
              (dedup (sort indices))
              (ok (elim done [ none ↦ none | some round ↦ some (sort_by_pcr round.out) ]))
      answered none f = f
      answered (some r) f =
          finished_pcrs (dedup (sort indices)) r (dedup-sort-IsAscending indices) f.0 f.1

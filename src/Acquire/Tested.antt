-- ===== src/Acquire/Tested.antt =====
-- No passphrase leaves `acquire`, or enters the cache, that was not tested correct.
use mathlib.Core.Path.{subst}
use tpm2_autoenroll.Base.{
  Bool-cases, some_inj, All, Bytes, ℕ, zero, suc, ◌≡◌, refl, ap, ◌⊎◌, inl, inr, Option, none, some,
  List, [], ◌∷◌,
}
use tpm2_autoenroll.Base.Results.{Result-cases}
use tpm2_autoenroll.AskPw.{Attempt, first_time, retry, ask}
use tpm2_autoenroll.Cache.{Cache, insert, Distinct, insert-Distinct, insert-All}
use tpm2_autoenroll.Config.{Volume}
use tpm2_autoenroll.Device.{Device}
use tpm2_autoenroll.Luks.{Verdict, correct, wrong, unusable, Unusable, test_passphrase}
use tpm2_autoenroll.Os.{Os, Sys}
use tpm2_autoenroll.Acquire.{
  Search, found, none_fits, give_up, terminating, try_each, prompt, acquire, tries,
}

pub Verdict-cases :
    (v : Verdict) → (v ≡ correct) ⊎ (v ≡ wrong) ⊎ ((why : Unusable) × (v ≡ unusable why))
Verdict-cases correct = inl refl
Verdict-cases wrong = inr (inl refl)
Verdict-cases (unusable why) = inr (inr (why, refl))

pub Search-cases : (r : Search) → ((c : Bytes) × (r ≡ found c)) ⊎ (r ≡ none_fits) ⊎ (r ≡ give_up)
Search-cases (found c) = inl (c, refl)
Search-cases none_fits = inr (inl refl)
Search-cases give_up = inr (inr refl)

module _ (os : Os) where
  -- Testing `secret` against `device` was the last thing done, and it was found correct.
  abbrev pub JustTested : Device → Bytes → Sys os → Type 0
  JustTested device secret after =
      (before : Sys os) × (test_passphrase os device secret before ≡ (correct, after))

  -- At some time the passphrase was found correct for some device.
  abbrev pub IsValidated : Bytes → Type 0
  IsValidated secret =
      (device : Device) × (before : Sys os) × ((test_passphrase os device secret before).0
        ≡ correct)

  abbrev Found : Device → Search × Sys os → Type 0
  Found device (found secret, s) = JustTested device secret s
  Found device (none_fits, s) = Unit
  Found device (give_up, s) = Unit

  try_each-Found :
      (device : Device) (l : List Bytes) (s : Sys os) → Found device (try_each os device l s)
  unfolding try_each
  try_each-Found device [] s = tt
  try_each-Found device (secret ∷ l) s =
      let asked = terminating os s in
      let tested = test_passphrase os device secret asked.1 in
      elim (Bool-cases asked.0) [
        | inl e ↦ rw (try_each, e) tt
        | inr e ↦ elim (Verdict-cases tested.0) [
          | inl v ↦ rw (try_each, e, v) ((asked.1, λ i. (v i, tested.1)))
          | inr (inl v) ↦ rw (try_each, e, v) (try_each-Found device l tested.1)
          | inr (inr (why, v)) ↦ rw (try_each, e, v) tt
        ]
      ]

  -- What `acquire` leaves: a passphrase only if it was just found correct, and a cache of validated
  -- passphrases, none of them twice.
  pub record IsSafe (device : Device) (r : (Option Bytes × Cache) × Sys os) : Type 0 where
    pub answer : (secret : Bytes) → r.0.0 ≡ some secret → JustTested device secret r.1
    pub validated : All IsValidated r.0.1
    pub apart : Distinct r.0.1

  IsSafe-none :
      (device : Device) (cache : Cache) (s : Sys os)
      → All IsValidated cache
      → Distinct cache
      → IsSafe device ((none, cache), s)
  IsSafe-none device cache s valid distinct = record {
    answer = λ secret h. cc;
    validated = valid;
    apart = distinct;
  }

  IsSafe-some :
      (device : Device) (secret : Bytes) (cache : Cache) (s : Sys os)
      → JustTested device secret s
      → All IsValidated cache
      → Distinct cache
      → IsSafe device ((some secret, cache), s)
  IsSafe-some device secret cache s t valid distinct = record {
    answer = λ c h. subst (λ x. JustTested device x s) (some_inj h) t;
    validated = valid;
    apart = distinct;
  }

  -- A passphrase just found correct joins a cache of validated ones.
  IsSafe-insert :
      (device : Device) (secret : Bytes) (cache : Cache) (s : Sys os)
      → JustTested device secret s
      → All IsValidated cache
      → Distinct cache
      → IsSafe device ((some secret, insert secret cache), s)
  IsSafe-insert device secret cache s t valid distinct =
      IsSafe-some device secret (insert secret cache) s t
        (insert-All IsValidated secret cache (device, t.0, ap (λ r. r.0) t.1) valid)
        (insert-Distinct secret cache distinct)

  prompt-IsSafe :
      (n : ℕ) (which : Attempt) (config : Volume) (device : Device) (cache : Cache) (s : Sys os)
      → All IsValidated cache
      → Distinct cache
      → IsSafe device (prompt os n which config device cache s)
  unfolding prompt
  prompt-IsSafe zero which config device cache s valid distinct =
      IsSafe-none device cache s valid distinct
  prompt-IsSafe (suc n) which config device cache s valid distinct =
      let asked = terminating os s in
      let offered = ask os config.name config.device which asked.1 in
      elim (Bool-cases asked.0) [
        | inl e ↦ rw (prompt, e) (IsSafe-none device cache asked.1 valid distinct)
        | inr e ↦ elim (Result-cases offered.0) [
          | inr (why, v) ↦ rw (prompt, e, v) (IsSafe-none device cache offered.1 valid distinct)
          | inl (candidates, v) ↦
              let tried = try_each os device candidates offered.1 in
              let tested = try_each-Found device candidates offered.1 in
              elim (Search-cases tried.0) [
                | inl (c, r) ↦
                    rw (prompt, e, v, r)
                      (IsSafe-insert device c cache tried.1
                        (subst (λ x. Found device (x, tried.1)) r tested) valid distinct)
                | inr (inl r) ↦
                    rw (prompt, e, v, r)
                      (prompt-IsSafe n retry config device cache tried.1 valid distinct)
                | inr (inr r) ↦
                    rw (prompt, e, v, r) (IsSafe-none device cache tried.1 valid distinct)
              ]
        ]
      ]

  -- Whatever the agents, the cache, cryptsetup and the signals do: when the cache holds validated
  -- passphrases only, and none twice, then so does the one that `acquire` leaves, and a passphrase
  -- that it returns was found correct for this device by the last test that was run.
  pub acquire-IsSafe :
      (config : Volume) (device : Device) (cache : Cache) (s : Sys os)
      → All IsValidated cache
      → Distinct cache
      → IsSafe device (acquire os config device cache s)
  unfolding acquire
  acquire-IsSafe config device cache s valid distinct =
      let tried = try_each os device cache s in
      let tested = try_each-Found device cache s in
      elim (Search-cases tried.0) [
        | inl (c, r) ↦
            rw (acquire, r)
              (IsSafe-some device c cache tried.1 (subst (λ x. Found device (x, tried.1)) r tested)
                valid distinct)
        | inr (inl r) ↦
            rw (acquire, r)
              (prompt-IsSafe tries first_time config device cache tried.1 valid distinct)
        | inr (inr r) ↦ rw (acquire, r) (IsSafe-none device cache tried.1 valid distinct)
      ]

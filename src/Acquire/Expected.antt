-- ===== src/Acquire/Expected.antt =====
-- Which passphrase `acquire` finds, where cryptsetup and the agents are reliable.
use tpm2_autoenroll.Base.{
  if◌then◌else◌, Bool-cases, Option-cases, find, Bytes, ℕ, suc, ◌≡◌, refl, ◌∙◌, inl, inr, Bool,
  false, Option, none, some, List, [], ◌∷◌,
}
use tpm2_autoenroll.AskPw
use tpm2_autoenroll.AskPw.{Attempt, first_time, retry}
use tpm2_autoenroll.Acquire.{
  Search, found, none_fits, terminating, try_each, prompt, acquire, tries,
}
use tpm2_autoenroll.Base.Results.{ok}
use tpm2_autoenroll.Cache.{Cache, insert}
use tpm2_autoenroll.Config.{Volume}
use tpm2_autoenroll.Device.{Device}
use tpm2_autoenroll.Luks.{correct, wrong, test_passphrase}
use tpm2_autoenroll.Os.{Os, Sys, ask}

-- cryptsetup accepts the passphrases that open the device, the agents offer the same at each prompt
-- of a kind, and no stop is asked for.
pub record Reliable (os : Os) (config : Volume) (device : Device) (opens : Bytes → Bool)
    (offers : Attempt → List Bytes) : Type 0 where
  pub testing :
      (c : Bytes) (s : Sys os)
      → (test_passphrase os device c s).0 ≡ (if opens c then correct else wrong)
  pub asking :
      (which : Attempt) (s : Sys os)
      → (AskPw.ask os config.name config.device which s).0 ≡ ok (offers which)
  pub going : (w : os.World) → (os.terminate w).0 ≡ false

-- What is wanted: the first cached passphrase that opens the device, else the first that a human
-- offers, which is then remembered.
unfoldable pub remembered : Option Bytes → Cache → Option Bytes × Cache → Option Bytes × Cache
remembered (some c) cache otherwise = (some c, insert c cache)
remembered none cache otherwise = otherwise

unfoldable pub expected : (Bytes → Bool) → (Attempt → List Bytes) → Cache → Option Bytes × Cache
expected opens offers cache = elim (find opens cache) [
  | some c ↦ (some c, cache)
  | none ↦
      remembered (find opens (offers first_time)) cache
        (remembered (find opens (offers retry)) cache (none, cache))
]

searched : Option Bytes → Search
searched (some c) = found c
searched none = none_fits

twice :
    (o : Option Bytes) (cache : Cache) (otherwise : Option Bytes × Cache)
    → remembered o cache (remembered o cache otherwise) ≡ remembered o cache otherwise
unfolding remembered
twice (some c) cache otherwise = refl
twice none cache otherwise = refl

module _ {os : Os} {config : Volume} {device : Device} {opens : Bytes → Bool}
    {offers : Attempt → List Bytes} (fair : Reliable os config device opens offers) where
  try_each-find :
      (l : List Bytes) (s : Sys os) → (try_each os device l s).0 ≡ searched (find opens l)
  unfolding try_each terminating ask searched
  try_each-find [] s = refl
  try_each-find (c ∷ l) s =
      let s' = (ask os os.terminate s).1 in
      elim (Bool-cases (opens c)) [
        | inl e ↦ rw (try_each, fair.going s.world, fair.testing c s', e) refl
        | inr e ↦
            rw (try_each, fair.going s.world, fair.testing c s', e)
              (try_each-find l (test_passphrase os device c s').1)
      ]

  -- A round of prompting.
  prompt_round :
      (n : ℕ) (which : Attempt) (cache : Cache) (s : Sys os) (otherwise : Option Bytes × Cache)
      → ((t : Sys os) → (prompt os n retry config device cache t).0 ≡ otherwise)
      → (prompt os (suc n) which config device cache s).0
        ≡ remembered (find opens (offers which)) cache otherwise
  unfolding prompt terminating ask searched remembered
  prompt_round n which cache s otherwise later =
      let s' = (ask os os.terminate s).1 in
      let offered = AskPw.ask os config.name config.device which s' in
      let tried = try_each os device (offers which) offered.1 in
      elim (Option-cases (find opens (offers which))) [
        | inl e ↦
            rw
              (
                prompt,
                fair.going s.world,
                fair.asking which s',
                try_each-find (offers which) offered.1,
                e,
              )
              (later tried.1)
        | inr (c, e) ↦
            rw
              (
                prompt,
                fair.going s.world,
                fair.asking which s',
                try_each-find (offers which) offered.1,
                e,
              )
              refl
      ]

  prompted :
      (cache : Cache) (s : Sys os)
      → (prompt os tries first_time config device cache s).0
        ≡ remembered
            (find opens (offers first_time))
            cache
            (remembered (find opens (offers retry)) cache (none, cache))
  unfolding prompt
  prompted cache s = prompt_round 2 first_time cache s _ λ t.
      prompt_round 1 retry cache t _ (λ u. prompt_round 0 retry cache u (none, cache) (λ v. refl))
      ∙ twice (find opens (offers retry)) cache (none, cache)

  -- Where cryptsetup and the agents are reliable and no stop is asked for, the passphrase that is
  -- acquired is the first cached one that opens the device; else the first of those offered that does, at the
  -- first prompt or at a retry, which is then in the cache; and there is none only if none opens it.
  pub acquire-expected :
      (cache : Cache) (s : Sys os)
      → (acquire os config device cache s).0 ≡ expected opens offers cache
  unfolding acquire expected searched
  acquire-expected cache s =
      let tried = try_each os device cache s in
      elim (Option-cases (find opens cache)) [
        | inr (c, e) ↦ rw (acquire, expected, try_each-find cache s, e) refl
        | inl e ↦ rw (acquire, expected, try_each-find cache s, e) (prompted cache tried.1)
      ]

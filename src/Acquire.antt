-- ===== src/Acquire.antt =====
-- src/main.rs, `acquire`: a passphrase that is known to open the volume's device.
pub mod Adds
mod Tests
pub mod Tested
pub mod Expected
pub mod Stopped
use tpm2_autoenroll.Base.{Bytes, ℕ, zero, suc, Bool, true, false, Option, none, some, List, [], ◌∷◌}
use tpm2_autoenroll.Base.Results.{ok, err}
use tpm2_autoenroll.AskPw
use tpm2_autoenroll.AskPw.{Attempt, first_time, retry}
use tpm2_autoenroll.Cache.{Cache, insert}
use tpm2_autoenroll.Config.{Volume}
use tpm2_autoenroll.Device.{Device}
use tpm2_autoenroll.Luks.{correct, wrong, unusable, test_passphrase}
use tpm2_autoenroll.Os.{Os, Sys, ask}

-- `TRIES`
abbrev pub tries : ℕ
tries = 3

-- What trying some passphrases comes to. Giving up is the early return of `None`.
pub data Search : Type 0 where
  found : Bytes → Search
  none_fits give_up : Search

module _ (os : Os) where
  -- `terminating`
  unfoldable pub terminating : Sys os → Bool × Sys os
  terminating = ask os os.terminate

  -- The loop over the cached passphrases, and the one over the candidates of a prompt.
  pub try_each : Device → List Bytes → Sys os → Search × Sys os
  try_each device [] s = (none_fits, s)
  try_each device (secret ∷ more) s =
      let asked = terminating s in
      elim asked.0 [
        | true ↦ (give_up, asked.1)
        | false ↦
            let tested = test_passphrase os device secret asked.1 in
            elim tested.0 [
              | correct ↦ (found secret, tested.1)
              | wrong ↦ try_each device more tested.1
              | unusable why ↦ (give_up, tested.1)
            ]
      ]

  -- `for attempt in 0..TRIES`, with the rounds left
  pub prompt : ℕ → Attempt → Volume → Device → Cache → Sys os → (Option Bytes × Cache) × Sys os
  prompt zero which config device cache s = ((none, cache), s)
  prompt (suc n) which config device cache s =
      let asked = terminating s in
      elim asked.0 [
        | true ↦ ((none, cache), asked.1)
        | false ↦
            let offered = AskPw.ask os config.name config.device which asked.1 in
            elim offered.0 [
              | err e ↦ ((none, cache), offered.1)
              | ok candidates ↦
                  let tried = try_each device candidates offered.1 in
                  elim tried.0 [
                    | found secret ↦ ((some secret, insert secret cache), tried.1)
                    | give_up ↦ ((none, cache), tried.1)
                    | none_fits ↦ prompt n retry config device cache tried.1
                  ]
            ]
      ]

  -- `acquire`: the passphrase and the cache that it leaves
  pub acquire : Volume → Device → Cache → Sys os → (Option Bytes × Cache) × Sys os
  acquire config device cache s =
      let tried = try_each device cache s in
      elim tried.0 [
        | found secret ↦ ((some secret, cache), tried.1)
        | give_up ↦ ((none, cache), tried.1)
        | none_fits ↦ prompt tries first_time config device cache tried.1
      ]

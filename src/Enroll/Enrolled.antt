-- ===== src/Enroll/Enrolled.antt =====
-- An enrollment that succeeds has started systemd-cryptenroll, once.
use tpm2_autoenroll.Base.{
  Bool-cases, length, is_empty, Bytes, ℕ, ◌≡◌, refl, sym, ap, ◌∙◌, inl, inr, true, false, Option,
  none, some, List, [], ◌∷◌, ◌++◌,
}
use tpm2_autoenroll.Base.Exec.{Exec, ◌>>=◌, map_err, bind_after, map_err_bind-eq-ok}
use tpm2_autoenroll.Base.Results
use tpm2_autoenroll.Base.Results.{Result, ok, err, err≢ok, Result-cases}
use tpm2_autoenroll.Os.{Os, Sys, Command, Life, spawned, perform}
use tpm2_autoenroll.Os.Adds.{still}
use tpm2_autoenroll.Child.{ChildError, Collecting, Output, collect, could_not_run}
use tpm2_autoenroll.Child.Run
use tpm2_autoenroll.Child.Run.{finish}
use tpm2_autoenroll.Device.{Device, DeviceError, secret_file, with_secret}
use tpm2_autoenroll.Device.Adds.{Adds-secret_file, Adds-drop_secret}
use tpm2_autoenroll.Enroll.{
  EnrollError, child, empty_selection, no_key_file, success, enroll_with, enroll_command, run,
}
use tpm2_autoenroll.Enroll.Adds.{Adds-success}
use tpm2_autoenroll.Tpm.{Bank}

module _ {os : Os} where
  -- From one state to the next the passphrase went into a memfd, and systemd-cryptenroll was started
  -- with it as its key file; nothing else left a trace.
  pub record Enrolled (device : Device) (tpm2_device : Bytes) (pcrs : List ℕ) (bank : Bank)
      (secret : Bytes) (s t : Sys os) : Type 0 where
    pub key : ℕ
    pub holds : (secret_file os secret s).0 ≡ ok key
    pub started :
        t.trace ≡ s.trace ++ spawned (enroll_command device key tpm2_device pcrs bank) ∷ []

  finish_still :
      (life : Life) (r : Result ChildError (Option Collecting)) (s : Sys os) {out : Output}
      → (finish os life r s).0 ≡ ok out
      → (finish os life r s).1.trace ≡ s.trace
  unfolding finish ◌>>=◌
  finish_still life (ok (some c)) s h = elim (Result-cases life.status) [
    | inl e ↦ rw (finish, e.1) refl
    | inr e ↦ rw (finish, e.1) refl
  ]
  finish_still life (ok none) s h = absurd (err≢ok h)
  finish_still life (err e) s h = absurd (err≢ok h)

  -- A child that has ended was started, and not killed.
  run_spawns :
      (cmd : Command) (timeout capacity : ℕ) (s : Sys os) {out : Output}
      → (Run.run os cmd timeout capacity s).0 ≡ ok out
      → (Run.run os cmd timeout capacity s).1.trace ≡ s.trace ++ spawned cmd ∷ []
  unfolding Run.run perform ◌>>=◌
  run_spawns cmd timeout capacity s h =
      bind_after (λ t. t.trace ≡ s.trace ++ spawned cmd ∷ [])
        (map_err could_not_run (perform os (spawned cmd) (os.spawn cmd timeout)))
        (λ life. finish os life (collect cmd capacity life)) s h
        (λ life e k. finish_still life (collect cmd capacity life) _ k)

  -- What was given the secret succeeded, and the wiping after it leaves no trace.
  with_secret-ok :
      {E A : Type 0} (put : DeviceError → E) (secret : Bytes) (use_key : ℕ → Exec (Sys os) E A)
      (s : Sys os) {a : A}
      → (with_secret os put secret use_key s).0 ≡ ok a
      → (key : ℕ) × ((secret_file os secret s).0 ≡ ok key)
        × ((use_key key (secret_file os secret s).1).0 ≡ ok a)
        × ((with_secret os put secret use_key s).1.trace
            ≡ (use_key key (secret_file os secret s).1).1.trace)
  unfolding with_secret ◌>>=◌
  with_secret-ok put secret use_key s h =
      let parts = map_err_bind-eq-ok put (secret_file os secret) _ s h in
      (
        parts.0,
        parts.1,
        parts.2,
        rw (with_secret, parts.1)
            (still (
              (Adds-drop_secret parts.0 (length secret)).at
                (use_key parts.0 (secret_file os secret s).1).1)),
      )

  module _ (device : Device) (tpm2_device : Bytes) (pcrs : List ℕ) (bank : Bank) where
    enroll_with-spawns :
        (key : ℕ) (s : Sys os)
        → (enroll_with os device tpm2_device pcrs bank key s).0 ≡ ok tt
        → (enroll_with os device tpm2_device pcrs bank key s).1.trace
          ≡ s.trace ++ spawned (enroll_command device key tpm2_device pcrs bank) ∷ []
    unfolding enroll_with ◌>>=◌
    enroll_with-spawns key s h =
        let cmd = enroll_command device key tpm2_device pcrs bank in
        bind_after (λ t. t.trace ≡ s.trace ++ spawned cmd ∷ [])
          (map_err child (Run.run os cmd 120 0)) (success os) s h
          (λ out e k.
            still ((Adds-success out).at _)
            ∙ run_spawns cmd 120 0 s (Results.map_err-eq-ok child _ e))

    -- An enrollment that succeeds has put the passphrase into a memfd and started
    -- systemd-cryptenroll once, with that memfd as its key file, and done nothing else that leaves
    -- a trace.
    pub run-Enrolled :
        (secret : Bytes) (s : Sys os)
        → (run os device tpm2_device pcrs bank secret s).0 ≡ ok tt
        → Enrolled device tpm2_device pcrs bank secret s
            (run os device tpm2_device pcrs bank secret s).1
    unfolding run ◌>>=◌
    run-Enrolled secret s h = elim (Bool-cases (is_empty pcrs)) [
      | inl e ↦ absurd (err≢ok (sym (refused e) ∙ h))
      | inr e ↦
          let used =
            with_secret-ok no_key_file secret with_key s (sym (ap (λ r. r.0) (tried e)) ∙ h) in
          record {
            key = used.0;
            holds = used.1;
            started =
                ap (λ r. r.1.trace) (tried e)
                ∙ (used.3
                    ∙ (enroll_with-spawns used.0 (secret_file os secret s).1 used.2
                        ∙ ap
                            (λ l.
                              l
                              ++ spawned (enroll_command device used.0 tpm2_device pcrs bank) ∷ [])
                            (still ((Adds-secret_file secret).at s))));
          }
    ]
      where
        with_key : ℕ → Exec (Sys os) EnrollError (Unit {0})
        with_key = enroll_with os device tpm2_device pcrs bank

        refused :
            is_empty pcrs ≡ true
            → (run os device tpm2_device pcrs bank secret s).0 ≡ err empty_selection
        refused e = rw (run, e) refl

        tried :
            is_empty pcrs ≡ false
            → run os device tpm2_device pcrs bank secret s
              ≡ with_secret os no_key_file secret with_key s
        tried e = rw (run, e) refl

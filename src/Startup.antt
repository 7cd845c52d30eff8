-- ===== src/Startup.antt =====
-- src/main.rs and src/config.rs: what surrounds the loop, from the configuration to the removal of the
-- sockets.
mod Tests
pub mod Protect
pub mod Removal
pub mod Listening
pub mod Binding
pub mod Course
pub mod Gone
pub mod Strict
use tpm2_autoenroll.Base.{
  ltb, leb, ◌==◌, if◌then◌else◌, ltb→lt, lt→ltb, leb→le, ==_iff, Bool-cases, Option-cases, some_inj,
  length, is_empty, take, drop, replicate, all, any, find, filter, All, All-snoc, length-append,
  length-take, length-drop, length-replicate, take-length-append, drop-length-append,
  take-append-drop, set, get_or, Bytes, codes, equal, equal_refl, equal_iff, is_alnum, strip_prefix,
  strip_prefix_append, strip_prefix_sound, starts_with, position, contains, ℕ, zero, suc, ◌+◌, ◌-◌,
  ◌*◌, ◌/◌, ◌%◌, ◌^◌, ◌≤◌, ◌<◌, ◌≡◌, refl, sym, ap, ◌∙◌, ◌≢◌, ◌↔◌, ◌⊎◌, inl, inr, Bool, true, false,
  not, ◌&&◌, ◌||◌, Option, none, some, List, [], ◌∷◌, ◌++◌, map, arith,
}
use tpm2_autoenroll.Args.{Mode, Args, ArgError}
use tpm2_autoenroll.Base.Results.{Result, ok, err}
use tpm2_autoenroll.Base.Exec.{Exec, lift, map_err, ◌>>=◌}
use tpm2_autoenroll.Config.{Volume, ConfigError, Loaded, parse}
use tpm2_autoenroll.Daemon.{Listener, End, success, failure, serve}
use tpm2_autoenroll.Json.{Json}
use tpm2_autoenroll.Notify.{ready}
use tpm2_autoenroll.Startup.Protect.{protect, parse_args}
use tpm2_autoenroll.Os.{Os, Sys, ask}
use tpm2_autoenroll.Sockets.{SocketError, Cleared, path, ensure_dir, bind, clear}

pub data LoadError : Type 0 where
  unreadable : ℕ → LoadError
  invalid : ConfigError → LoadError

pub data StartError : Type 0 where
  no_directory : SocketError → StartError
  no_listeners : StartError

-- How the process exits.
pub data ExitCode : Type 0 where
  exit_success exit_failure : ExitCode

pub is_ok : {E A : Type 0} → Result E A → Bool
is_ok (ok a) = true
is_ok (err e) = false

-- The exit code of `serve`; a loop that still runs has none.
pub exit_code : End → Option ExitCode
exit_code success = some exit_success
exit_code failure = some exit_failure
exit_code _ = none

module _ (os : Os) where
  -- The loop of `shutdown` and of `clear_sockets`: what `clear` makes of each path. A path that cannot
  -- be cleared does not stop the others.
  pub clear_each : List Bytes → Sys os → List (Result SocketError Cleared) × Sys os
  clear_each [] s = ([], s)
  clear_each (p ∷ paths) s =
      let cleared = clear os p s in
      let others = clear_each paths cleared.1 in (cleared.0 ∷ others.0, others.1)

  -- `shutdown`; what it logs is in the results.
  pub shutdown : List Listener → Sys os → List (Result SocketError Cleared) × Sys os
  shutdown listeners s = clear_each (map (λ l. l.path) listeners) s

  -- The loop of `listen`: a volume whose socket cannot be bound is dropped.
  pub bind_each : Bytes → List Volume → Sys os → List Listener × Sys os
  bind_each dir [] s = ([], s)
  bind_each dir (volume ∷ volumes) s =
      let got = bind os (path dir volume.name) s in
      let others = bind_each dir volumes got.1 in
      (
        elim got.0 [
          | ok fd ↦ record { fd = fd; path = path dir volume.name; volume = volume } ∷ others.0
          | err e ↦ others.0
        ],
        others.1,
      )

  after_dir :
      Bytes
      → List Volume
      → Result SocketError (Unit {0}) × Sys os
      → Result StartError (List Listener) × Sys os
  after_dir dir volumes (err e, s) = (err (no_directory e), s)
  after_dir dir volumes (ok u, s) =
      let bound = bind_each dir volumes s in
      (if is_empty bound.0 then err no_listeners else ok bound.0, bound.1)

  -- `listen`
  pub listen : Bytes → List Volume → Sys os → Result StartError (List Listener) × Sys os
  listen dir volumes s = after_dir dir volumes (ensure_dir os dir s)

  module _ (json : Json) where
    -- `config::read`
    pub read : Bytes → Exec (Sys os) LoadError Loaded
    read file = do
      text ← map_err unreadable (ask os (os.read_text file))
      map_err invalid (lift (parse json text))

    -- `config::load`; the volumes that are rejected are logged.
    pub load : Bytes → Sys os → Result LoadError (List Volume) × Sys os
    load file s =
        let got = read file s in
        (elim got.0 [ ok loaded ↦ ok loaded.volumes | err e ↦ err e ], got.1)

    -- `check_config`
    pub check_config : Bytes → Sys os → ExitCode × Sys os
    check_config file s =
        let got = read file s in
        (
          elim got.0 [
            | err e ↦ exit_failure
            | ok loaded ↦
                if is_empty loaded.rejected && not (is_empty loaded.volumes)
                then exit_success
                else exit_failure
          ],
          got.1,
        )

    -- `clear_sockets`
    pub clear_sockets : Bytes → Bytes → Sys os → ExitCode × Sys os
    clear_sockets file dir s =
        let got = read file s in
        elim got.0 [
          | err e ↦ (exit_failure, got.1)
          | ok loaded ↦
              let cleared = clear_each (map (λ v. path dir v.name) loaded.volumes) got.1 in
              (if all is_ok cleared.0 then exit_success else exit_failure, cleared.1)
        ]

    module _ (fuel passes : ℕ) where
      with_listeners : Result StartError (List Listener) × Sys os → Option ExitCode × Sys os
      with_listeners (err e, s) = (some exit_failure, s)
      with_listeners (ok listeners, s) =
          let told = ready os s in
          let served = serve os json fuel passes listeners told.1 in
          elim (exit_code served.0.0) [
            | none ↦ (none, served.1)
            | some code ↦ let closed = shutdown listeners served.1 in (some code, closed.1)
          ]

      with_volumes : Bytes → Result LoadError (List Volume) × Sys os → Option ExitCode × Sys os
      with_volumes dir (err e, s) = (some exit_failure, s)
      with_volumes dir (ok [], s) = let told = ready os s in (some exit_success, told.1)
      with_volumes dir (ok (v ∷ vs), s) = with_listeners (listen dir (v ∷ vs) s)

      -- What `main` does to serve; none means that the loop still runs.
      pub run_daemon : Bytes → Bytes → Sys os → Option ExitCode × Sys os
      run_daemon file dir s = with_volumes dir (load file (protect os s).1)

      -- The match on the mode.
      pub run_as : Mode → Args → Sys os → Option ExitCode × Sys os
      run_as Mode.serve args s = run_daemon args.config args.socket_dir s
      run_as Mode.check_config args s =
          let checked = check_config args.config s in (some checked.0, checked.1)
      run_as Mode.clear_sockets args s =
          let cleared = clear_sockets args.config args.socket_dir s in (some cleared.0, cleared.1)

      with_args : Result ArgError (Option Args) × Sys os → Option ExitCode × Sys os
      with_args (err e, s) = (some exit_failure, s)
      with_args (ok none, s) = (some exit_success, s)
      with_args (ok (some args), s) = run_as args.mode args s

      -- `main`
      pub main : Sys os → Option ExitCode × Sys os
      main s = with_args (parse_args os s)

-- ===== src/Startup/Course.antt =====
-- The order in which the program does things in one run, from its command line to its tidying up.
use tpm2_autoenroll.Base.{
  All, Bytes, ℕ, ◌≡◌, ◌≢◌, ◌⊎◌, Option, none, some, List, [], ◌∷◌, ◌++◌, map,
}
use tpm2_autoenroll.Args.{Mode, Args, ArgError}
use tpm2_autoenroll.Base.Results.{Result, ok, err}
use tpm2_autoenroll.Config.{Volume}
use tpm2_autoenroll.Daemon.{Listener, serve}
use tpm2_autoenroll.Daemon.Justified.{Justified}
use tpm2_autoenroll.Json.{Json}
use tpm2_autoenroll.Notify.{notify_socket}
use tpm2_autoenroll.Notify.Once.{TellsOnce}
use tpm2_autoenroll.Os.{Os, Sys, Event, printed, locked, undumpable, caught, ask}
use tpm2_autoenroll.Os.Adds.{Extends}
use tpm2_autoenroll.Startup.{ExitCode, exit_success, exit_failure, load, shutdown}
use tpm2_autoenroll.Startup.Binding.{Starts}
use tpm2_autoenroll.Startup.Listening.{IsFor}
use tpm2_autoenroll.Startup.Protect.{protect, version_line, sigterm, sigint}
use tpm2_autoenroll.Startup.Removal.{TidiesUp, configured}

-- What the daemon does to itself before anything else, in order.
abbrev protections : List Event
protections = locked ∷ undumpable ∷ caught sigterm ∷ caught sigint ∷ []

module _ (os : Os) (json : Json) (fuel : ℕ) where
  -- What comes of listening for some volumes in a directory, from a state: either nothing is announced and
  -- the run fails, or systemd is told once, then peers are served, then the sockets are removed.
  pub data Serves (dir : Bytes) (volumes : List Volume) (s : Sys os)
      : Option ExitCode × Sys os → Type 0 where
    fails :
        {t : Sys os}
        → Extends (Starts os dir volumes) s t
        → Serves dir volumes s (some exit_failure, t)
    nothing_to_do :
        {t : Sys os}
        → volumes ≡ []
        → TellsOnce (ask os (os.env_var notify_socket) s).0 s.trace t.trace
        → Serves dir volumes s (some exit_success, t)
    serves :
        {code : Option ExitCode} {up told out t : Sys os} (listeners : List Listener)
        → listeners ≢ []
        → All (IsFor dir volumes s up) listeners
        → Extends (Starts os dir volumes) s up
        → TellsOnce (ask os (os.env_var notify_socket) up).0 up.trace told.trace
        → Justified os json fuel listeners told out
        → Extends (TidiesUp os (map (λ l. l.path) listeners)) out t
        → (code ≡ none) ⊎ (t ≡ (shutdown os listeners out).1)
        → Serves dir volumes s (code, t)

  -- The volumes that `load` gives.
  pub loaded : Bytes → Sys os → List Volume
  loaded file s = elim (load os json file s).0 [ ok volumes ↦ volumes | err e ↦ [] ]

  -- A run of the program, by what its command line says; `t` is the state after that was read.
  pub data Run (s t : Sys os)
      : Result ArgError (Option Args) → Option ExitCode × Sys os → Type 0 where
    bad_line :
        {e : ArgError} {u : Sys os} → u.trace ≡ s.trace → Run s t (err e) (some exit_failure, u)
    version :
        {u : Sys os}
        → u.trace ≡ s.trace ++ printed version_line ∷ []
        → Run s t (ok none) (some exit_success, u)
    checks :
        {args : Args} {code : ExitCode} {u : Sys os}
        → args.mode ≡ Mode.check_config
        → u.trace ≡ s.trace
        → Run s t (ok (some args)) (some code, u)
    clears :
        {args : Args} {code : ExitCode} {u : Sys os}
        → args.mode ≡ Mode.clear_sockets
        → t.trace ≡ s.trace
        → Extends (TidiesUp os (configured json args.config args.socket_dir t)) t u
        → Run s t (ok (some args)) (some code, u)
    daemon :
        {args : Args} {out : Option ExitCode × Sys os}
        → args.mode ≡ Mode.serve
        → (protect os t).1.trace ≡ s.trace ++ protections
        → (load os json args.config (protect os t).1).1.trace ≡ s.trace ++ protections
        → Serves args.socket_dir
            (loaded args.config (protect os t).1)
            (load os json args.config (protect os t).1).1
            out
        → Run s t (ok (some args)) out

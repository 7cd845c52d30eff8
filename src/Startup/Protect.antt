-- ===== src/Startup/Protect.antt =====
-- src/main.rs: the command line and what the daemon does for itself before it reads anything.
use tpm2_autoenroll.Base.{
  if◌then◌else◌, any, Bytes, codes, equal, ℕ, Option, none, some, [], ◌∷◌, ◌++◌,
}
use tpm2_autoenroll.Args.{Args, ArgError, parse_from}
use tpm2_autoenroll.Base.Results.{Result, ok, err}
use tpm2_autoenroll.Os.{Os, Sys, ask, perform, printed, locked, undumpable, caught}

-- The name and the version of the package
abbrev pub version_line : Bytes
version_line = codes "tpm2-autoenrolld 0.1.0" ++ b'\n' ∷ []

-- SIGTERM and SIGINT
abbrev pub sigterm : ℕ
sigterm = 15

abbrev pub sigint : ℕ
sigint = 2

unfoldable pub some_ok : {E A : Type 0} → Result E A → Result E (Option A)
some_ok (ok a) = ok (some a)
some_ok (err e) = err e

module _ (os : Os) where
  -- `parse_args`; whether the line could be printed is ignored.
  unfoldable pub parse_args : Sys os → Result ArgError (Option Args) × Sys os
  parse_args s =
      let argv = ask os os.args s in
      if any (equal (codes "--version")) argv.0
      then (let out = perform os (printed version_line) (os.print version_line) argv.1 in
          (ok none, out.1))
      else (some_ok (parse_from argv.0), argv.1)

  -- `lock_memory`, `set_undumpable` and `catch_sigterm`; a failure is at most logged.
  unfoldable pub lock_memory : Sys os → Result ℕ (Unit {0}) × Sys os
  lock_memory s = perform os locked os.mlockall s

  unfoldable pub set_undumpable : Sys os → Result ℕ (Unit {0}) × Sys os
  set_undumpable s = perform os undumpable os.forbid_dumps s

  unfoldable pub catch_sigterm : Sys os → Result ℕ (Unit {0}) × Sys os
  catch_sigterm s =
      let term = perform os (caught sigterm) (os.signal sigterm) s in
      perform os (caught sigint) (os.signal sigint) term.1

  unfoldable pub protect : Sys os → Result ℕ (Unit {0}) × Sys os
  protect s =
      let pinned = lock_memory s in let hidden = set_undumpable pinned.1 in catch_sigterm hidden.1

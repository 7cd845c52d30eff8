-- ===== src/Child/Run.antt =====
-- src/child.rs: `run`, and the `/proc/self/fd` paths that name a descriptor to a child.
use tpm2_autoenroll.Base.{Bytes, codes, ℕ, Option, none, some, ◌++◌}
use tpm2_autoenroll.Base.Decimal.{decimal}
use tpm2_autoenroll.Base.Results.{Result, ok, err}
use tpm2_autoenroll.Base.Exec.{Exec, pure, raise, lift, calls, map_err, ◌>>=◌, ◌>>◌}
use tpm2_autoenroll.Child.{
  ChildError, could_not_run, waiting_failed, timed_out, Output, Collecting, collect,
}
use tpm2_autoenroll.Os.{Os, Sys, Command, Life, spawned, killed, perform}

-- `fd_path`
pub fd_path : ℕ → Bytes
fd_path fd = codes "/proc/self/fd/" ++ decimal fd

module _ (os : Os) where
  -- `child.kill()` and the `wait` after it
  unfoldable pub kill_child : Sys os → Unit {0} × Sys os
  kill_child = perform os killed (λ w. (tt, os.kill w))

  -- What `run` makes of the outcome of `collect`.
  unfoldable pub finish :
      Life → Result ChildError (Option Collecting) → Exec (Sys os) ChildError Output
  finish life (ok (some c)) = do
    status ← map_err waiting_failed (lift life.status)
    pure (record { status = status; stdout = c.stdout.into; stderr = c.stderr.into })
  finish life (ok none) = do calls kill_child; raise timed_out
  finish life (err e) = do calls kill_child; raise e

  -- `run`
  unfoldable pub run : Command → ℕ → ℕ → Exec (Sys os) ChildError Output
  run cmd timeout stdout_cap = do
    life ← map_err could_not_run (perform os (spawned cmd) (os.spawn cmd timeout))
    finish life (collect cmd stdout_cap life)

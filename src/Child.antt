-- ===== src/Child.antt =====
-- src/child.rs: running a child process with a deadline, and collecting what it writes.
pub mod Run
pub mod Adds
pub mod Bounds
pub mod Collected
mod Tests
use Prim.Native.Nat.{min}
use tpm2_autoenroll.Base.{
  ◌==◌, if◌then◌else◌, length, take, Bytes, ℕ, ◌-◌, Bool, true, false, not, ◌&&◌, ◌||◌, Option,
  none, some, List, [], ◌∷◌, ◌++◌,
}
use tpm2_autoenroll.Base.Results.{Result, ok, err, map_err, ◌>>=◌}
use tpm2_autoenroll.Os.{
  Command, ExitStatus, ReadEvent, got, interrupted, read_error, Wakeup, polled, poll_interrupted,
  poll_failed, Life,
}

-- The source formats each into a message with these values.
pub data ChildError : Type 0 where
  could_not_run waiting_failed no_pidfd poll_error reading_failed : ℕ → ChildError
  too_much : ℕ → ChildError
  timed_out : ChildError

-- `STDERR_CAP` and `CHUNK`
abbrev pub stderr_cap : ℕ
stderr_cap = 65536

abbrev pub chunk : ℕ
chunk = 65536

pub record Output : Type 0 where
  pub status : ExitStatus
  pub stdout : Bytes
  pub stderr : Bytes

-- One pipe: whether it is still open, and what was read of it.
pub record Pipe : Type 0 where
  pub is_open : Bool
  pub into : Bytes

-- A read of one byte from a pipe whose buffer is full.
unfoldable pub probe : ℕ → ReadEvent → Pipe → Result ChildError Pipe
probe cap (got []) p = ok (record p { is_open = false })
probe cap (got (b ∷ bs)) p = err (too_much cap)
probe cap interrupted p = ok p
probe cap (read_error e) p = err (reading_failed e)

-- A read into the room that is left, which takes no more than there is room for.
unfoldable pub fill : ℕ → ReadEvent → Pipe → Result ChildError Pipe
fill cap (got []) p = ok (record p { is_open = false })
fill cap (got (b ∷ bs)) p =
    ok (record p { into = p.into ++ take (min (cap - length p.into) chunk) (b ∷ bs) })
fill cap interrupted p = ok p
fill cap (read_error e) p = err (reading_failed e)

-- `drain`; `read` is what the one read of the pipe gives.
unfoldable pub drain : ℕ → ReadEvent → Pipe → Result ChildError Pipe
drain cap read p =
    if not p.is_open
    then ok p
    else if length p.into == cap
    then probe cap read p
    else fill cap read p

pub record Collecting : Type 0 where
  pub exited : Bool
  pub stdout : Pipe
  pub stderr : Pipe

-- A pipe that is ready is read once.
unfoldable pub drain_ready : ℕ → Option ReadEvent → Pipe → Result ChildError Pipe
drain_ready cap none p = ok p
drain_ready cap (some read) p = drain cap read p

-- One round of the loop of `collect` after `poll`.
unfoldable pub wake : ℕ → Wakeup → Collecting → Result ChildError Collecting
wake cap (polled ended out err_) c = do
  stdout ← drain_ready cap out c.stdout
  stderr ← drain_ready stderr_cap err_ c.stderr
  ok (record { exited = c.exited || ended; stdout = stdout; stderr = stderr })
wake cap poll_interrupted c = ok c
wake cap (poll_failed e) c = err (poll_error e)

-- The condition of the loop of `collect`, negated.
unfoldable pub is_done : Collecting → Bool
is_done c = c.exited && not c.stdout.is_open && not c.stderr.is_open

-- The loop of `collect` over the wake-ups before the deadline; none when the deadline passes first.
unfoldable pub collect_loop : ℕ → List Wakeup → Collecting → Result ChildError (Option Collecting)
collect_loop cap [] c = ok (if is_done c then some c else none)
collect_loop cap (w ∷ ws) c = elim (is_done c) [
  | true ↦ ok (some c)
  | false ↦ do c' ← wake cap w c; collect_loop cap ws c'
]

-- `collect`
unfoldable pub collect : Command → ℕ → Life → Result ChildError (Option Collecting)
collect cmd cap life = do
  fd ← map_err no_pidfd life.pidfd
  collect_loop cap life.wakeups (record {
    exited = false;
    stdout = record { is_open = cmd.stdout_piped; into = [] };
    stderr = record { is_open = cmd.stderr_piped; into = [] };
  })

-- ===== src/Os.antt =====
-- What the program asks of the operating system, through Rust's standard library, rustix and libc:
-- the parameter of every function that performs a call. A descriptor and an errno are numbers.
pub mod Emits
pub mod Adds
pub mod Files
pub mod Failing
use tpm2_autoenroll.Base.{
  ltb, leb, ◌==◌, if◌then◌else◌, ltb→lt, lt→ltb, leb→le, ==_iff, Bool-cases, Option-cases, some_inj,
  length, is_empty, take, drop, replicate, all, any, find, filter, All, All-snoc, length-append,
  length-take, length-drop, length-replicate, take-length-append, drop-length-append,
  take-append-drop, set, get_or, Bytes, codes, equal, equal_refl, equal_iff, is_alnum, strip_prefix,
  strip_prefix_append, strip_prefix_sound, starts_with, position, contains, ℕ, zero, suc, ◌+◌, ◌-◌,
  ◌*◌, ◌/◌, ◌%◌, ◌^◌, ◌≤◌, ◌<◌, ◌≡◌, refl, sym, ap, ◌∙◌, ◌≢◌, ◌↔◌, ◌⊎◌, inl, inr, Bool, true, false,
  not, ◌&&◌, ◌||◌, Option, none, some, List, [], ◌∷◌, ◌++◌, map, arith,
}
use tpm2_autoenroll.Base.Results.{Result}

pub data FileType : Type 0 where
  regular directory symlink block_device character_device fifo socket unknown : FileType

pub data Poll : Type 0 where
  ready timed_out : Poll
  poll_error : ℕ → Poll

-- A child process: program, arguments, and the descriptors kept open across its exec.
pub record Command : Type 0 where
  pub program : Bytes
  pub args : List Bytes
  pub inherited : List ℕ
  pub stdout_piped : Bool
  pub stderr_piped : Bool

-- How a child ended: its exit code, or none when a signal ended it.
abbrev pub ExitStatus : Type 0
ExitStatus = Option ℕ

-- One `read` of a pipe: bytes (none of them at the end of file), an interruption, or an error.
pub data ReadEvent : Type 0 where
  got : Bytes → ReadEvent
  interrupted : ReadEvent
  read_error : ℕ → ReadEvent

-- What one wake-up of the loop in `child::collect` finds. A pipe that is ready comes with what one
-- read of it gives.
pub data Wakeup : Type 0 where
  polled : Bool → Option ReadEvent → Option ReadEvent → Wakeup
  poll_interrupted : Wakeup
  poll_failed : ℕ → Wakeup

-- The life of a spawned child as its parent sees it: whether a pidfd could be opened for it, the
-- wake-ups before the deadline, and its exit status.
pub record Life : Type 0 where
  pub pidfd : Result ℕ (Unit {0})
  pub wakeups : List Wakeup
  pub status : Result ℕ ExitStatus

-- What `lstat` tells of a path.
pub record Stat : Type 0 where
  pub kind : FileType
  pub mode : ℕ
  pub uid : ℕ

-- Where a datagram goes.
pub data Target : Type 0 where
  to_path to_abstract : Bytes → Target

-- The name of a socket's peer, as far as it is a Unix one.
pub data Address : Type 0 where
  unnamed foreign pathname : Address
  in_abstract : Bytes → Address

pub record Os : Type 1 where
  pub World : Type 0
  -- files and directories
  pub open_file : Bytes → World → Result ℕ ℕ × World
  pub file_type : ℕ → World → Result ℕ FileType × World
  pub exists : Bytes → World → Bool × World
  pub read_text : Bytes → World → Result ℕ Bytes × World
  pub read_link : Bytes → World → Result ℕ Bytes × World
  pub read_dir : Bytes → World → Result ℕ (List Bytes) × World
  pub lstat : Bytes → World → Result ℕ Stat × World
  pub mkdir : Bytes → ℕ → World → Result ℕ (Unit {0}) × World
  pub chmod : Bytes → ℕ → World → Result ℕ (Unit {0}) × World
  pub unlink : Bytes → World → Result ℕ (Unit {0}) × World
  -- descriptors
  pub write_all : ℕ → Bytes → World → Result ℕ (Unit {0}) × World
  pub write : ℕ → Bytes → World → Result ℕ ℕ × World
  pub pwrite : ℕ → Bytes → ℕ → World → Result ℕ ℕ × World
  pub ftruncate : ℕ → ℕ → World → Result ℕ (Unit {0}) × World
  pub poll : ℕ → ℕ → World → Poll × World
  pub read : ℕ → ℕ → World → Result ℕ Bytes × World
  pub memfd_create : World → Result ℕ ℕ × World
  -- sockets
  pub socket : World → Result ℕ ℕ × World
  -- whether a path fits in a socket address
  pub socket_addr : Bytes → World → Result ℕ (Unit {0}) × World
  pub bind : ℕ → Bytes → World → Result ℕ (Unit {0}) × World
  pub listen : ℕ → ℕ → World → Result ℕ (Unit {0}) × World
  pub poll_listeners : List ℕ → World → Result ℕ (List Bool) × World
  pub accept : ℕ → World → Result ℕ ℕ × World
  pub peer_name : ℕ → World → Result ℕ Address × World
  pub peer_cred : ℕ → World → Result ℕ (ℕ × ℕ) × World
  pub peer_pidfd : ℕ → World → Result ℕ ℕ × World
  -- processes, signals and time
  pub pidfd_signal : ℕ → World → Result ℕ (Unit {0}) × World
  pub spawn : Command → ℕ → World → Result ℕ Life × World
  pub kill : World → World
  pub terminate : World → Bool × World
  pub seconds : World → ℕ × World
  -- this process
  pub args : World → List Bytes × World
  pub print : Bytes → World → Result ℕ (Unit {0}) × World
  pub mlockall : World → Result ℕ (Unit {0}) × World
  pub forbid_dumps : World → Result ℕ (Unit {0}) × World
  pub signal : ℕ → World → Result ℕ (Unit {0}) × World
  -- a variable that is set and is text
  pub env_var : Bytes → World → Option Bytes × World
  pub remove_var : Bytes → World → Unit {0} × World
  -- datagrams; whether a name fits in a socket address
  pub abstract_addr : Bytes → World → Result ℕ (Unit {0}) × World
  pub datagram_socket : World → Result ℕ ℕ × World
  pub sendto : ℕ → Bytes → Target → World → Result ℕ ℕ × World

-- What the program has done to the outside, newest last.
pub data Event : Type 0 where
  wrote : ℕ → Bytes → Event
  spawned : Command → Event
  killed : Event
  -- bytes that a connection took
  sent : ℕ → Bytes → Event
  removed : Bytes → Event
  bound : Bytes → Event
  printed : Bytes → Event
  -- pages kept out of swap, memory kept out of core dumps, a signal that sets a flag
  locked undumpable : Event
  caught : ℕ → Event
  -- a variable of the environment, and a datagram
  unset : Bytes → Event
  told : Target → Bytes → Event

pub record Sys (os : Os) : Type 0 where
  pub world : os.World
  pub trace : List Event

module _ (os : Os) where
  -- A call that leaves no mark in the trace.
  unfoldable pub ask : {A : Type 0} → (os.World → A × os.World) → Sys os → A × Sys os
  ask call s = ((call s.world).0, record s { world = (call s.world).1 })

  -- A call that the trace records.
  unfoldable pub perform : {A : Type 0} → Event → (os.World → A × os.World) → Sys os → A × Sys os
  perform event call s =
      ((call s.world).0, record { world = (call s.world).1; trace = s.trace ++ event ∷ [] })

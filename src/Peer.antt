-- ===== src/Peer.antt =====
-- src/peer.rs: who is on the other end of a key-socket connection.
mod Tests
pub mod Adds
pub mod Escape
pub mod Checked
use tpm2_autoenroll.Base.{
  leb, ◌==◌, if◌then◌else◌, is_empty, Bytes, codes, equal, is_alnum, strip_prefix, starts_with, ℕ,
  zero, suc, ◌+◌, ◌-◌, ◌*◌, Bool, true, false, ◌&&◌, ◌||◌, Option, none, some, List, [], ◌∷◌, ◌++◌,
}
use tpm2_autoenroll.Base.Decimal.{decimal}
use tpm2_autoenroll.Base.Trim.{trim}
use tpm2_autoenroll.Base.Results.{Result, ok, err}
use tpm2_autoenroll.Base.Exec.{Exec, pure, raise, attempt, map_err, ◌>>=◌}
use tpm2_autoenroll.AskPw.{split}
use tpm2_autoenroll.Hex.{hex}
use tpm2_autoenroll.Os.{Os, Sys, ask}

-- The source formats each into a message.
pub data PeerError : Type 0 where
  no_cred no_pidfd cannot_read no_link gone : ℕ → PeerError
  runs_as_uid : ℕ → PeerError
  no_pid_line exited : PeerError
  not_in_unit : ℕ → Bytes → PeerError
  wrong_exe : ℕ → Bytes → PeerError

-- `EXPECTED_SYSTEMD_BINARY`, without an override at build time
abbrev pub expected_systemd_binary : Bytes
expected_systemd_binary = codes "/usr/bin/systemd-cryptsetup"

-- The errno of an option that the kernel does not know
abbrev pub enoprotoopt : ℕ
enoprotoopt = 92

-- One byte of `unit_escape`; `first` at the start of the name.
unfoldable pub escape_byte : Bool → ℕ → Bytes
escape_byte first b =
    if b == b'.' && first
    then codes "\\x2e"
    else if b == b'/'
    then codes "-"
    else if b == b'-' || b == 92
    then codes "\\x" ++ hex (b ∷ [])
    else if is_alnum b || b == b':' || b == b'_' || b == b'.'
    then b ∷ []
    else codes "\\x" ++ hex (b ∷ [])

unfoldable pub escape_rest : Bytes → Bytes
escape_rest [] = []
escape_rest (b ∷ s) = escape_byte false b ++ escape_rest s

-- `unit_escape`
unfoldable pub unit_escape : Bytes → Bytes
unit_escape [] = []
unit_escape (b ∷ s) = escape_byte true b ++ escape_rest s

-- `unit`
unfoldable pub unit_of : Bytes → Bytes
unit_of volume = codes "systemd-cryptsetup@" ++ (unit_escape volume ++ codes ".service")

-- `lines`: the pieces between newlines, each without a return before the newline; what follows the
-- last newline is a line only when it is not empty, and keeps its return.
unfoldable pub without_return : Bytes → Bytes
without_return [] = []
without_return (b ∷ []) = if b == b'\r' then [] else b ∷ []
without_return (b ∷ c ∷ s) = b ∷ without_return (c ∷ s)

unfoldable pub ended_lines : List Bytes → List Bytes
ended_lines [] = []
ended_lines (last ∷ []) = if is_empty last then [] else last ∷ []
ended_lines (piece ∷ q ∷ pieces) = without_return piece ∷ ended_lines (q ∷ pieces)

unfoldable pub lines : Bytes → List Bytes
lines text = ended_lines (split b'\n' text)

-- `find_map(|l| l.strip_prefix(prefix))`
unfoldable pub find_prefixed : Bytes → List Bytes → Option Bytes
find_prefixed prefix [] = none
find_prefixed prefix (line ∷ more) = elim (strip_prefix prefix line) [
  | some rest ↦ some rest
  | none ↦ find_prefixed prefix more
]

unfoldable pub last_of : Bytes → List Bytes → Bytes
last_of piece [] = piece
last_of piece (q ∷ pieces) = last_of q pieces

-- `path.rsplit('/').next()`
unfoldable pub last_component : Bytes → Bytes
last_component path = last_of [] (split b'/' path)

-- `in_unit`
unfoldable pub in_unit : Bytes → Bytes → Bool
in_unit cgroup unit = elim (find_prefixed (codes "0::") (lines cgroup)) [
  | none ↦ false
  | some path ↦ equal (last_component path) unit
]

-- `Path::components`, in which repeated separators and the components `.` after the first are left
-- out: the root as "/", then the names.
unfoldable pub names_of : List Bytes → List Bytes
names_of [] = []
names_of (piece ∷ pieces) =
    let rest = names_of pieces in
    if is_empty piece || equal piece (codes ".") then rest else piece ∷ rest

unfoldable pub from_first : List Bytes → List Bytes
from_first [] = []
from_first (piece ∷ pieces) =
    if equal piece (codes ".") then piece ∷ names_of pieces else names_of (piece ∷ pieces)

unfoldable pub components : Bytes → List Bytes
components path =
    if starts_with (codes "/") path
    then codes "/" ∷ names_of (split b'/' path)
    else from_first (split b'/' path)

unfoldable pub all_equal : List Bytes → List Bytes → Bool
all_equal [] [] = true
all_equal (a ∷ l) (b ∷ m) = equal a b && all_equal l m
all_equal _ _ = false

-- `is_expected_exe`; paths are equal when their components are.
unfoldable pub is_expected_exe : Bytes → Bool
is_expected_exe link = all_equal (components link) (components expected_systemd_binary)

-- The pid of `fdinfo`, as far as the check tells them apart.
pub data Pid : Type 0 where
  positive : ℕ → Pid
  not_positive : Pid

-- Decimal digits of a number up to `limit`, checked for overflow at every digit.
unfoldable pub digits_upto : ℕ → ℕ → Bytes → Option ℕ
digits_upto limit acc [] = some acc
digits_upto limit acc (c ∷ s) =
    let more = digits_upto limit (acc * 10 + (c - b'0')) s in
    if leb b'0' c && leb c b'9' && leb (acc * 10 + (c - b'0')) limit then more else none

unfoldable pub sign_of : Option ℕ → Option Pid
sign_of none = none
sign_of (some zero) = some not_positive
sign_of (some (suc n)) = some (positive (suc n))

unfoldable pub negated : Option ℕ → Option Pid
negated none = none
negated (some n) = some not_positive

-- `parse::<i32>`: one sign is allowed, and there is a digit.
unfoldable pub parse_i32 : Bytes → Option Pid
parse_i32 [] = none
parse_i32 (c ∷ []) = sign_of (digits_upto 2147483647 0 (c ∷ []))
parse_i32 (c ∷ d ∷ s) =
    if c == b'-'
    then negated (digits_upto 2147483648 0 (d ∷ s))
    else if c == b'+'
    then sign_of (digits_upto 2147483647 0 (d ∷ s))
    else sign_of (digits_upto 2147483647 0 (c ∷ d ∷ s))

-- What `pidfd_pid` reads in the text of `fdinfo`.
unfoldable pub pid_in : Bytes → Option Pid
pid_in info = elim (find_prefixed (codes "Pid:") (lines info)) [
  | none ↦ none
  | some v ↦ parse_i32 (trim v)
]

module _ (os : Os) where
  abbrev pub Io : Type 0 → Type 0
  Io A = Exec (Sys os) PeerError A

  -- `if !… { return Err(…) }`
  unfoldable pub require : Bool → PeerError → Io (Unit {0})
  require true e = pure tt
  require false e = raise e

  unfoldable pub with_pidfd : Result ℕ ℕ → Io (Option ℕ)
  with_pidfd (ok fd) = pure (some fd)
  with_pidfd (err e) = if e == enoprotoopt then pure none else raise (no_pidfd e)

  -- `peer_pidfd`
  unfoldable pub peer_pidfd : ℕ → Io (Option ℕ)
  peer_pidfd conn = do got ← attempt (ask os (os.peer_pidfd conn)); with_pidfd got

  unfoldable pub with_pid : Option Pid → Io ℕ
  with_pid none = raise no_pid_line
  with_pid (some not_positive) = raise exited
  with_pid (some (positive pid)) = pure pid

  -- `pidfd_pid`
  unfoldable pub pidfd_pid : ℕ → Io ℕ
  pidfd_pid fd = do
    info ← map_err cannot_read (ask os (os.read_text (codes "/proc/self/fdinfo/" ++ decimal fd)))
    with_pid (pid_in info)

  unfoldable pub pid_of : Option ℕ → ℕ → Io ℕ
  pid_of (some fd) cred_pid = pidfd_pid fd
  pid_of none cred_pid = pure cred_pid

  -- `alive`, where there is a pidfd
  unfoldable pub alive : Option ℕ → Io (Unit {0})
  alive none = pure tt
  alive (some fd) = map_err gone (ask os (os.pidfd_signal fd))

  -- `check`
  unfoldable pub check : ℕ → Bytes → Io (Unit {0})
  check conn volume = do
    cred ← map_err no_cred (ask os (os.peer_cred conn))
    u0 ← require (cred.0 == 0) (runs_as_uid cred.0)
    pidfd ← peer_pidfd conn
    pid ← pid_of pidfd cred.1
    cgroup ←
        map_err cannot_read
          (ask os (os.read_text (codes "/proc/" ++ (decimal pid ++ codes "/cgroup"))))
    u1 ← require (in_unit cgroup (unit_of volume)) (not_in_unit pid (unit_of volume))
    exe ← map_err no_link (ask os (os.read_link (codes "/proc/" ++ (decimal pid ++ codes "/exe"))))
    u2 ← require (is_expected_exe exe) (wrong_exe pid exe)
    alive pidfd

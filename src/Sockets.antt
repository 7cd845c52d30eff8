-- ===== src/Sockets.antt =====
-- src/sockets.rs: the sockets where systemd-cryptsetup looks for a key.
mod Tests
pub mod Private
use tpm2_autoenroll.Base.{
  ◌==◌, if◌then◌else◌, Bytes, codes, ℕ, ◌/◌, ◌%◌, Bool, true, false, not, ◌||◌, ◌++◌,
}
use tpm2_autoenroll.Base.Results.{Result, ok, err}
use tpm2_autoenroll.Base.Exec.{Exec, pure, raise, attempt, map_err, ◌>>=◌}
use tpm2_autoenroll.Os.{Os, Sys, Stat, FileType, directory, socket, ask, perform, removed, bound}

-- The source formats each into a message.
pub data SocketError : Type 0 where
  no_mkdir no_chmod no_stat no_unlink no_addr no_socket no_bind no_listen : ℕ → SocketError
  not_directory not_socket : SocketError
  owned_by : ℕ → SocketError
  others_write : ℕ → SocketError

-- Errnos
abbrev pub enoent : ℕ
enoent = 2

abbrev eexist : ℕ
eexist = 17

-- `BACKLOG`
abbrev pub backlog : ℕ
backlog = 16

-- `Mode::RWXU`, and `Mode::RUSR | Mode::WUSR`
abbrev rwx_user : ℕ
rwx_user = 448

abbrev pub rw_user : ℕ
rw_user = 384

-- `path`
unfoldable pub path : Bytes → Bytes → Bytes
path dir volume = dir ++ (codes "/" ++ (volume ++ codes ".key"))

pub is_directory : FileType → Bool
is_directory directory = true
is_directory _ = false

unfoldable pub is_socket : FileType → Bool
is_socket socket = true
is_socket _ = false

-- `mode & 0o022 != 0`
pub is_shared : ℕ → Bool
is_shared mode = mode / 16 % 2 == 1 || mode / 2 % 2 == 1

-- `enum Cleared`
pub data Cleared : Type 0 where
  absent was_removed kept : Cleared

module _ (os : Os) where
  abbrev pub Io : Type 0 → Type 0
  Io A = Exec (Sys os) SocketError A

  -- The guards of `check_existing`, in the source's order.
  unfoldable pub judge : Stat → ℕ → Io (Unit {0})
  judge stat owner =
      if not (is_directory stat.kind)
      then raise not_directory
      else if not (stat.uid == owner)
      then raise (owned_by stat.uid)
      else if is_shared stat.mode
      then raise (others_write (stat.mode % 4096))
      else pure tt

  -- `check_existing`
  unfoldable pub check_existing : Bytes → ℕ → Io (Unit {0})
  check_existing dir owner = do stat ← map_err no_stat (ask os (os.lstat dir)); judge stat owner

  unfoldable pub after_mkdir : Bytes → Result ℕ (Unit {0}) → Io (Unit {0})
  after_mkdir dir (ok u) = map_err no_chmod (ask os (os.chmod dir rwx_user))
  after_mkdir dir (err e) = if e == eexist then check_existing dir 0 else raise (no_mkdir e)

  -- `ensure_dir`
  unfoldable pub ensure_dir : Bytes → Io (Unit {0})
  ensure_dir dir = do made ← attempt (ask os (os.mkdir dir rwx_user)); after_mkdir dir made

  unfoldable pub after_lstat : Bytes → Result ℕ Stat → Io Cleared
  after_lstat path (err e) = if e == enoent then pure absent else raise (no_stat e)
  after_lstat path (ok stat) = elim (is_socket stat.kind) [
    | false ↦ pure kept
    | true ↦ do u ← map_err no_unlink (perform os (removed path) (os.unlink path)); pure was_removed
  ]

  -- `clear`
  unfoldable pub clear : Bytes → Io Cleared
  clear path = do found ← attempt (ask os (os.lstat path)); after_lstat path found

  unfoldable pub unless_kept : Cleared → Io (Unit {0})
  unless_kept kept = raise not_socket
  unless_kept _ = pure tt

  -- `bind`
  unfoldable pub bind : Bytes → Io ℕ
  bind path = do
    cleared ← clear path
    u ← unless_kept cleared
    a ← map_err no_addr (ask os (os.socket_addr path))
    fd ← map_err no_socket (ask os os.socket)
    b ← map_err no_bind (perform os (bound path) (os.bind fd path))
    c ← map_err no_chmod (ask os (os.chmod path rw_user))
    l ← map_err no_listen (ask os (os.listen fd backlog))
    pure fd

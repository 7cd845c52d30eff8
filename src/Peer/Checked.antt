-- ===== src/Peer/Checked.antt =====
-- What `check` of src/peer.rs has seen of a peer that it lets through.
use tpm2_autoenroll.Base.{Bytes, codes, ℕ, ◌≡◌, true, Option, some, ◌++◌}
use tpm2_autoenroll.Base.Decimal.{decimal}
use tpm2_autoenroll.Base.Results.{ok}
use tpm2_autoenroll.Base.Exec.{Exec}
use tpm2_autoenroll.Os.{Os, Sys, ask}
use tpm2_autoenroll.Peer.{in_unit, unit_of, components, expected_systemd_binary, peer_pidfd, pid_of}

pub cgroup_path : ℕ → Bytes
cgroup_path pid = codes "/proc/" ++ (decimal pid ++ codes "/cgroup")

pub exe_path : ℕ → Bytes
exe_path pid = codes "/proc/" ++ (decimal pid ++ codes "/exe")

-- The state after each question, in the order that they are asked.
module _ {os : Os} (conn : ℕ) (s : Sys os) where
  abbrev pub after_cred : Sys os
  after_cred = (ask os (os.peer_cred conn) s).1

  abbrev pub after_pidfd : Sys os
  after_pidfd = (peer_pidfd os conn after_cred).1

  abbrev pub after_pid : Option ℕ → ℕ → Sys os
  after_pid pidfd cred_pid = (pid_of os pidfd cred_pid after_pidfd).1

  abbrev pub after_cgroup : Option ℕ → ℕ → ℕ → Sys os
  after_cgroup pidfd cred_pid pid =
      (ask os (os.read_text (cgroup_path pid)) (after_pid pidfd cred_pid)).1

  abbrev pub after_exe : Option ℕ → ℕ → ℕ → Sys os
  after_exe pidfd cred_pid pid =
      (ask os (os.read_link (exe_path pid)) (after_cgroup pidfd cred_pid pid)).1

-- The evidence that the peer of `conn` is the process that unlocks `volume`.
pub record Evidence {os : Os} (conn : ℕ) (volume : Bytes) (s : Sys os) : Type 0 where
  pub cred_pid : ℕ
  pub pidfd : Option ℕ
  pub pid : ℕ
  pub cgroup : Bytes
  pub exe : Bytes
  -- The kernel says that the peer runs as root
  pub root : (ask os (os.peer_cred conn) s).0 ≡ ok (0, cred_pid)
  pub pinned : (peer_pidfd os conn (after_cred conn s)).0 ≡ ok pidfd
  pub known : (pid_of os pidfd cred_pid (after_pidfd conn s)).0 ≡ ok pid
  pub placed :
      (ask os (os.read_text (cgroup_path pid)) (after_pid conn s pidfd cred_pid)).0 ≡ ok cgroup
  pub unit : in_unit cgroup (unit_of volume) ≡ true
  pub linked :
      (ask os (os.read_link (exe_path pid)) (after_cgroup conn s pidfd cred_pid pid)).0 ≡ ok exe
  pub is_systemd : components exe ≡ components expected_systemd_binary
  -- and after all that the process is still there, where the kernel gave a pidfd for it
  pub still :
      (fd : ℕ)
      → pidfd ≡ some fd
      → (ask os (os.pidfd_signal fd) (after_exe conn s pidfd cred_pid pid)).0 ≡ ok tt

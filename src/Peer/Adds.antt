-- ===== src/Peer/Adds.antt =====
-- Checking a peer leaves no mark in the trace.
use tpm2_autoenroll.Base.{Bytes, ℕ, Bool, true, false, Option, none, some}
use tpm2_autoenroll.Base.Results.{Result, ok, err}
use tpm2_autoenroll.Os.{Os, Event}
use tpm2_autoenroll.Os.Adds.{Adds, adds_rules}
use tpm2_autoenroll.Peer.{
  PeerError, Pid, positive, not_positive, require, with_pidfd, peer_pidfd, with_pid, pidfd_pid,
  pid_of, alive, check,
}

module _ {os : Os} {P : Event → Type 0} where
  Adds-require : (b : Bool) (e : PeerError) → Adds P (require os b e)
  unfolding require
  Adds-require true e = search adds_rules
  Adds-require false e = search adds_rules

  Adds-with_pidfd : (r : Result ℕ ℕ) → Adds P (with_pidfd os r)
  unfolding with_pidfd
  Adds-with_pidfd (ok fd) = search adds_rules
  Adds-with_pidfd (err e) = search adds_rules

  Adds-peer_pidfd : (conn : ℕ) → Adds P (peer_pidfd os conn)
  unfolding peer_pidfd
  Adds-peer_pidfd conn = search (adds_rules, Adds-with_pidfd)

  Adds-with_pid : (p : Option Pid) → Adds P (with_pid os p)
  unfolding with_pid
  Adds-with_pid none = search adds_rules
  Adds-with_pid (some not_positive) = search adds_rules
  Adds-with_pid (some (positive pid)) = search adds_rules

  Adds-pid_of : (pidfd : Option ℕ) (cred_pid : ℕ) → Adds P (pid_of os pidfd cred_pid)
  unfolding pid_of pidfd_pid
  Adds-pid_of none cred_pid = search adds_rules
  Adds-pid_of (some fd) cred_pid = search (adds_rules, Adds-with_pid) depth 20

  Adds-alive : (pidfd : Option ℕ) → Adds P (alive os pidfd)
  unfolding alive
  Adds-alive none = search adds_rules
  Adds-alive (some fd) = search adds_rules

  pub Adds-check_peer : (conn : ℕ) (volume : Bytes) → Adds P (check os conn volume)
  unfolding check
  Adds-check_peer conn volume =
      search (adds_rules, Adds-require, Adds-peer_pidfd, Adds-pid_of, Adds-alive) depth 40

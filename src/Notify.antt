-- ===== src/Notify.antt =====
-- src/notify.rs: telling systemd that the sockets are there.
mod Tests
pub mod Once
use tpm2_autoenroll.Base.{◌==◌, if◌then◌else◌, Bytes, codes, ℕ, Option, none, some, [], ◌∷◌, ◌++◌}
use tpm2_autoenroll.Base.Results.{Result}
use tpm2_autoenroll.Base.Exec.{Exec, pure, map_err, ◌>>=◌}
use tpm2_autoenroll.Os.{Os, Sys, Target, to_path, to_abstract, ask, perform, told, unset}

-- The source formats each into a message.
pub data NotifyError : Type 0 where
  bad_address no_socket no_sendto : ℕ → NotifyError

-- The variable's name, and the message
abbrev pub notify_socket : Bytes
notify_socket = codes "NOTIFY_SOCKET"

abbrev pub ready_message : Bytes
ready_message = codes "READY=1" ++ b'\n' ∷ []

-- `strip_prefix('@')`, and what it decides
pub target_of : Bytes → Target
target_of [] = to_path []
target_of (b ∷ name) = if b == b'@' then to_abstract name else to_path (b ∷ name)

module _ (os : Os) where
  -- Whether the target fits in an address.
  unfoldable pub fits : Target → Exec (Sys os) NotifyError (Unit {0})
  fits (to_path path) = map_err bad_address (ask os (os.socket_addr path))
  fits (to_abstract name) = map_err bad_address (ask os (os.abstract_addr name))

  -- `send`
  unfoldable pub send : Bytes → Bytes → Exec (Sys os) NotifyError (Unit {0})
  send socket message = do
    a ← fits (target_of socket)
    fd ← map_err no_socket (ask os os.datagram_socket)
    n ←
        map_err no_sendto
          (perform os (told (target_of socket) message) (os.sendto fd message (target_of socket)))
    pure tt

  -- The variable is taken out of the environment first, so that no child inherits it.
  unfoldable pub notify : Option Bytes → Sys os → Option (Result NotifyError (Unit {0})) × Sys os
  notify none s = (none, s)
  notify (some socket) s =
      let alone = perform os (unset notify_socket) (os.remove_var notify_socket) s in
      let sent = send socket ready_message alone.1 in (some sent.0, sent.1)

  -- `ready`; a failure is only logged.
  unfoldable pub ready : Sys os → Option (Result NotifyError (Unit {0})) × Sys os
  ready s = let socket = ask os (os.env_var notify_socket) s in notify socket.0 socket.1

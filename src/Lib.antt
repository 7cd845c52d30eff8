-- ===== src/Lib.antt =====
-- tpm2-autoenroll: a daemon that re-binds a LUKS2 volume to the TPM at the point of unlock.
--
-- systemd-cryptsetup connects to the daemon's key socket. The daemon reads from the peer's name in
-- which phase the unlock is (src/bindname.rs), and in the plain phase it looks whether the volume's
-- TPM binding has gone stale and can be repaired: it reads the tokens of the LUKS2 header
-- (src/token.rs, through a child process, src/child.rs), asks the TPM for its lockout state and for
-- the policy digest of the current PCRs (src/tpm2.rs, src/drift.rs), and compares both with the
-- configuration (src/config.rs, src/preflight.rs). The passphrase that it answers with comes from
-- the cache or from a prompt (src/main.rs, src/cache.rs, src/askpw.rs), and is tested against the
-- volume first (src/luks.rs). Before it is sent, the peer is checked (src/peer.rs), and a binding that
-- can be repaired is renewed if a human agrees (src/consent.rs, src/enroll.rs). The sockets are made at
-- the start and removed at the end (src/sockets.rs), which comes when each volume is open (src/dm.rs)
-- or answered, after a stretch without connections, or at a signal.
--
-- The files:
--   Base         lists, texts, results, ascending lists, sorting, UTF-8, and `Exec`, functions from a
--                state to a result and a state, in which every function that calls the system stands.
--   BindName     src/bindname.rs: `parse`; BindName/Shape is the format that it reads.
--   Wire         src/tpm2.rs: the marshalling helpers and `Reader`.
--   Tpm          src/tpm2.rs: `Bank`, `command`, `response_payload`, `parse_properties`.
--   Pcr          src/tpm2.rs: `put_pcr_selection`, `parse_pcr_read`, `absorb`.
--   Os           the system calls, as a record that every caller takes, and the trace of effects.
--   Session      src/tpm2.rs: the methods of `Tpm` that talk to the device.
--   Child        src/child.rs: `drain`, `collect`, `run`; Child/Collected is about `collect`.
--   Json         serde_json, as a record of the parser and accessors that the program uses.
--   Config       src/config.rs: `parse` and `volume`.
--   Hex          `unhex` of src/token.rs and the hexadecimal of src/drift.rs.
--   Token        src/token.rs: `parse`; Token/Read is `read`.
--   Device       src/device.rs and src/memfd.rs.
--   Drift        src/drift.rs: `check`.
--   Luks         src/luks.rs: `test_passphrase`.
--   AskPw        src/askpw.rs: `ask`; AskPw/Candidates is about what it reads back.
--   Args         src/main.rs: `parse_from`.
--   Finished     src/main.rs: `finished`.
--   Cache        src/cache.rs and src/secret.rs.
--   Acquire      src/main.rs: `acquire`; Acquire/Tested says what may leave it, Acquire/Expected which
--                passphrase is found.
--   Enroll       src/enroll.rs; Enroll/Enrolled is about `run`, Enroll/NewToken about `find_new_token`.
--   Preflight    src/preflight.rs: `check`; Preflight/Repair states its table of conditions,
--                Preflight/Steps what each step has found.
--   Consent      src/consent.rs; Consent/Clean says when an answer counts.
--   Peer         src/peer.rs; Peer/Checked is about `check`, Peer/Escape about unit names.
--   Reenroll     src/main.rs: `maybe_reenroll` and `verify`; Reenroll/Granted says when a header may be
--                rewritten, Reenroll/Repaired when it is, Reenroll/Verify is about `verify` and
--                Reenroll/Remembered and Reenroll/Later about earlier answers.
--   Serve        src/main.rs: `handle`, `serve_passphrase` and `write_all`; Serve/Reply is about what may be
--                given to a connection, Serve/Served about what is, Serve/Broken
--                about a reply that fails, Serve/Stopped about a stop.
--   Dm           src/dm.rs: `is_active`.
--   Daemon       src/main.rs: `serve`; Daemon/Sound and Daemon/Rewrites are about its
--                whole life, Daemon/Idle and Daemon/Done about its end.
--   Sockets      src/sockets.rs.
--   Notify       src/notify.rs: `ready` and `send`.
--   Startup      src/main.rs: `listen`, `shutdown`, `clear_sockets`, `check_config`, `main`; src/config.rs:
--                `read` and `load`. Startup/Protect has `parse_args` and the protection of the process;
--                Startup/Course is about a whole run, Startup/Gone about what is left after one.
-- A file named Adds says which events the calls of its parent may add to the trace.
--
-- Bytes and machine integers are native numbers, with each wrap-around written out; `str` is a list
-- of bytes. A message that the source formats is a constructor that carries the values in it. What
-- a system call answers is a parameter: the state is the world of the `Os` record and the trace of
-- what was written, sent, spawned, killed, bound, unlinked and told to systemd, and of how the process
-- protected itself. A descriptor is a number, and closing one is not modelled. The log lines of the source are values that the model returns.
--
-- `read_pcrs` runs on as many rounds as PCRs are asked for, which is enough because a round that
-- succeeds answers for one at least. A child's life is the list of wake-ups before its deadline.
-- `write_all` runs on fuel for each byte and each interruption, the accept loop on fuel for each pass;
-- Serve/Writes and Daemon/Idle say when it is enough. The loop that wipes a memfd has fuel for each byte
-- of the secret, and each pass that goes on overwrites one at least (Device/Wiped).
--
-- Not modelled: log lines (src/log.rs) and the text of most errors, which change nothing else, and the
-- wiping of the process's own memory (src/secret.rs), which the model of a secret as bytes cannot show.
pub mod Base
pub mod BindName
pub mod Wire
pub mod Tpm
pub mod Pcr
pub mod Os
pub mod Notify
pub mod Child
pub mod Session
pub mod Json
pub mod Hex
pub mod Config
pub mod Token
pub mod Device
pub mod Drift
pub mod Preflight
pub mod Luks
pub mod AskPw
pub mod Cache
pub mod Acquire
pub mod Enroll
pub mod Args
pub mod Finished
pub mod Consent
pub mod Peer
pub mod Sockets
pub mod Reenroll
pub mod Dm
pub mod Serve
pub mod Daemon
pub mod Startup

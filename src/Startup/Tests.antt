-- ===== src/Startup/Tests.antt =====
-- A configuration with one volume, on a system that lets the daemon listen.
use tpm2_autoenroll.Base.{
  if◌then◌else◌, Bool-cases, length, replicate, All, Bytes, codes, equal, starts_with, contains,
  ◌≡◌, refl, sym, ◌≢◌, ◌⊎◌, inl, inr, Bool, true, false, ◌&&◌, none, some, [], ◌∷◌, arith,
}
use tpm2_autoenroll.Base.Exec.{◌>>=◌}
use tpm2_autoenroll.Base.Results.{ok, err, err≢ok}
use tpm2_autoenroll.Config.{
  Volume, parse, refuse_key, parse_volumes, volume, guard, is_usable_name, is_volume_key, string,
  pcrs, bank_of, insert_pcrs,
}
use tpm2_autoenroll.Tpm.{from_name}
use tpm2_autoenroll.Base.Sort.{set_insert}
use tpm2_autoenroll.Daemon.{Listener}
use tpm2_autoenroll.Json.Tree.{Tree, text, number, no_items, no_fields, item, field, holding}
use tpm2_autoenroll.Os.{Os, Sys, Stat, socket, ask, perform}
use tpm2_autoenroll.Os.Failing.{failing}
use tpm2_autoenroll.Os.Files.{Files}
use tpm2_autoenroll.Serve.Genuine.{genuine}
use tpm2_autoenroll.Sockets.{
  path, ensure_dir, after_mkdir, is_socket, clear, after_lstat, unless_kept, bind,
}
use tpm2_autoenroll.Sockets.Private.{Secured}
use tpm2_autoenroll.Startup.{
  listen, after_dir, bind_each, clear_sockets, read, check_config, clear_each, is_ok, exit_success,
}
use tpm2_autoenroll.Startup.Strict.{ServesAll, check_config-ServesAll}
use tpm2_autoenroll.Startup.Gone.{IsClear, clear_sockets-IsClear}
use tpm2_autoenroll.Startup.Listening.{IsFor, listen-IsFor}
use tpm2_autoenroll.Startup.Removal.{configured}

abbrev document : Tree
document =
    field (codes "volumes")
      (field (codes "root")
        (field (codes "device") (text (codes "/dev/sda2"))
          (field (codes "pcrs") (item (number 7) no_items) no_fields))
        no_fields)
      no_fields

-- A socket is at every path, and the configuration is that document.
abbrev after_crash : Os
after_crash = record (failing (Unit {0})) {
  read_text = λ path w. (ok (codes "document"), w);
  lstat = λ path w. (ok (record { kind = socket; mode = 49536; uid = 0 }), w);
  unlink = λ path w. (ok tt, w);
}

abbrev fresh_boot : Os
fresh_boot = record (failing (Unit {0})) {
  mkdir = λ path mode w. (ok tt, w);
  chmod = λ path mode w. (ok tt, w);
  socket_addr = λ path w. (ok tt, w);
  socket = λ w. (ok 5, w);
  bind = λ fd path w. (ok tt, w);
  listen = λ fd backlog w. (ok tt, w);
}

-- No argument, the configuration is that document, and systemd waits for a message; then the peer of
-- a socket is there.
abbrev booting : Os
booting = record genuine {
  mkdir = fresh_boot.mkdir;
  chmod = fresh_boot.chmod;
  socket_addr = fresh_boot.socket_addr;
  socket = fresh_boot.socket;
  bind = fresh_boot.bind;
  listen = fresh_boot.listen;
  poll_listeners = λ fds w. (ok (replicate (length fds) true), w);
  accept = λ fd w. (ok 9, w);
  read_text = λ path w. (
    if equal path (codes "/etc/tpm2-autoenroll/config.json")
        then ok (codes "document")
        else (genuine.read_text path w).0,
    w,
  );
  env_var = λ name w. (some (codes "/run/systemd/notify"), w);
  datagram_socket = λ w. (ok 7, w);
  sendto = λ fd msg target w. (ok 8, w);
}

abbrev before_main : Sys booting
before_main = record { world = tt; trace = [] }

abbrev root : Volume
root = record {
  name = codes "root";
  device = codes "/dev/sda2";
  tpm2_device = codes "auto";
  pcrs = 7 ∷ [];
  bank = 11;
}

abbrev dir : Bytes
dir = codes "/run/cryptsetup-keys.d"

abbrev stopped : Sys after_crash
stopped = record { world = tt; trace = [] }

abbrev at_boot : Sys fresh_boot
at_boot = record { world = tt; trace = [] }

listens :
    (listen fresh_boot dir (root ∷ []) at_boot).0
    ≡ ok (record { fd = 5; path = path dir (codes "root"); volume = root } ∷ [])
unfolding listen after_dir bind_each ensure_dir after_mkdir clear after_lstat unless_kept bind ask
    perform ◌>>=◌
listens = refl

listen-IsFor_example :
    let l : Listener = record { fd = 5; path = path dir (codes "root"); volume = root } in
    Secured dir at_boot
    × (l ∷ [] ≢ [])
    × All (IsFor dir (root ∷ []) at_boot (listen fresh_boot dir (root ∷ []) at_boot).1) (l ∷ [])
listen-IsFor_example = listen-IsFor dir (root ∷ []) at_boot listens

-- The world tells whether the socket of the volume is there.
abbrev key : Bytes
key = codes "/run/cryptsetup-keys.d/root.key"

abbrev leftover : Os
leftover = record (failing Bool) {
  read_text = λ p w. (ok (codes "document"), w);
  lstat = λ p w.
      (if w && equal p key then ok (record { kind = socket; mode = 49536; uid = 0 }) else err 2, w);
  unlink = λ p w. if equal p key then (ok tt, false) else (err 2, w);
}

leftover_found :
    (p : Bytes) (w : Bool) {stat : Stat}
    → (leftover.lstat p w).0 ≡ ok stat
    → (if w && equal p key then some socket else none) ≡ some stat.kind
leftover_found p w h = ground arith

leftover_missing :
    (p : Bytes) (w : Bool)
    → (leftover.lstat p w).0 ≡ err 2
    → (if w && equal p key then some socket else none) ≡ none
leftover_missing p w h = elim (Bool-cases (w && equal p key)) [
  | inl e ↦ absurd (err≢ok {A = Stat} (sym (rw e at h)))
  | inr e ↦ rw e refl
]

leftover_gone :
    (p : Bytes) (w : Bool)
    → (leftover.unlink p w).0 ≡ ok tt
    → (if (leftover.unlink p w).1 && equal p key then some socket else none) ≡ none
leftover_gone p w h = elim (Bool-cases (equal p key)) [
  | inl e ↦ rw e refl
  | inr e ↦ absurd (err≢ok (rw e at h))
]

leftover_others :
    (p q : Bytes) (w : Bool)
    → ((if (leftover.unlink p w).1 && equal q key then some socket else none)
        ≡ (if w && equal q key then some socket else none))
      ⊎ ((if (leftover.unlink p w).1 && equal q key then some socket else none) ≡ none)
leftover_others p q w = elim (Bool-cases (equal p key)) [
  | inl e ↦ inr (rw e refl)
  | inr e ↦ inl (rw e refl)
]

leftover-Files : Files leftover
leftover-Files = record {
  at = λ w p. if w && equal p key then some socket else none;
  found = λ {p} {w} h. leftover_found p w h;
  missing = λ {p} {w} h. leftover_missing p w h;
  looking = λ p q w. refl;
  gone = λ {p} {w} h. leftover_gone p w h;
  others = leftover_others;
}

abbrev crashed : Sys leftover
crashed = record { world = true; trace = [] }

clears :
    (clear_sockets leftover (holding document) (codes "/etc/config") dir crashed).0 ≡ exit_success
unfolding clear_sockets read ◌>>=◌ ask parse equal codes refuse_key clear_each parse_volumes volume
    guard is_usable_name contains is_volume_key string starts_with pcrs set_insert bank_of
    insert_pcrs perform after_lstat clear is_socket is_ok from_name path
clears = refl

clear_sockets-IsClear_example :
    All
      (λ p.
        IsClear leftover-Files p
          (clear_sockets leftover (holding document) (codes "/etc/config") dir crashed).1)
      (configured (holding document) (codes "/etc/config") dir crashed)
clear_sockets-IsClear_example =
    clear_sockets-IsClear leftover-Files (holding document) (codes "/etc/config") dir crashed clears

checks :
    (check_config after_crash (holding document) (codes "/etc/config") stopped).0 ≡ exit_success
unfolding check_config read ◌>>=◌ ask parse equal codes refuse_key parse_volumes volume guard
    is_usable_name contains is_volume_key string starts_with pcrs set_insert bank_of insert_pcrs
    from_name
checks = refl

check_config-ServesAll_example :
    ServesAll after_crash (holding document) (codes "/etc/config") stopped
check_config-ServesAll_example =
    check_config-ServesAll after_crash (holding document) (codes "/etc/config") stopped checks

-- ===== src/Daemon/Rewrites.antt =====
-- Which headers the daemon rewrites in its life, and how.
use mathlib.Core.List.{Memᴰ, append-nil}
use tpm2_autoenroll.Base.{
  Bool-cases, Bytes, equal, ℕ, ◌≡◌, refl, sym, ap, ◌∙◌, ◌⊎◌, inl, inr, false, Option, none, some,
  List, [], ◌++◌,
}
use tpm2_autoenroll.Base.Results.{Result, ok, err, Result-cases}
use tpm2_autoenroll.BindName.{Phase, plain, PeerName, parse}
use tpm2_autoenroll.Config.{Volume}
use tpm2_autoenroll.Daemon.{Listener, serve}
use tpm2_autoenroll.Daemon.Keeps.{IsCourse, serve-Keeps}
use tpm2_autoenroll.Device.{Device, open_device}
use tpm2_autoenroll.Device.Adds.{Adds-open_device, open_device_fd}
use tpm2_autoenroll.Enroll.{enroll_command}
use tpm2_autoenroll.Json.{Json}
use tpm2_autoenroll.Os.{
  Os, Sys, Event, Address, unnamed, foreign, pathname, in_abstract, spawned, sent, ask,
}
use tpm2_autoenroll.Os.Adds.{still, Allows, Extends, Extends-refl, Adds-ask, is_enroll}
use tpm2_autoenroll.Peer
use tpm2_autoenroll.Peer.{PeerError}
use tpm2_autoenroll.Peer.Adds.{Adds-check_peer}
use tpm2_autoenroll.Reenroll.Granted.{KeepsHeader}
use tpm2_autoenroll.Serve.{
  Memory, serve_passphrase, with_device, handle, with_address, with_name, by_phase, after_check,
}
use tpm2_autoenroll.Serve.Adds.{with_device_at}
use tpm2_autoenroll.Serve.Reply.{handle-Answered}

-- A child that is systemd-cryptenroll is run on the device, with the volume's TPM, PCRs and bank.
pub OnDevice : Volume → Device → Event → Type 0
OnDevice volume device (spawned cmd) =
    (is_enroll cmd ≡ false)
    ⊎ (key : ℕ) × (cmd ≡ enroll_command device key volume.tpm2_device volume.pcrs volume.bank)
OnDevice volume device _ = Unit {0}

OnDevice-Allows : (volume : Volume) (device : Device) → Allows (OnDevice volume device)
unfolding OnDevice
OnDevice-Allows volume device = record {
  killing = tt;
  writing = λ fd msg. tt;
  spawning = λ cmd h. inl h;
}

sent-OnDevice :
    (volume : Volume) (device : Device) (conn : ℕ) (chunk : Bytes)
    → OnDevice volume device (sent conn chunk)
unfolding OnDevice
sent-OnDevice volume device conn chunk = tt

enroll_command-OnDevice :
    (volume : Volume) (device : Device) (key : ℕ)
    → OnDevice volume device
        (spawned (enroll_command device key volume.tpm2_device volume.pcrs volume.bank))
unfolding OnDevice
enroll_command-OnDevice volume device key = inr (key, refl)

module _ (os : Os) (json : Json) (fuel : ℕ) (listeners : List Listener) where
  -- From one state to another, stretches in which systemd-cryptenroll is not started alternate with
  -- stretches that begin by opening the path of a listener's volume, and in which
  -- systemd-cryptenroll is run on the descriptor that this gave, as that volume's configuration says.
  pub data AsConfigured : Sys os → Sys os → Type 0 where
    keeps_headers : {s t : Sys os} → Extends KeepsHeader s t → AsConfigured s t
    on_device :
        {s t : Sys os} (l : Listener) (device : Device)
        → Memᴰ l listeners
        → (ask os (os.open_file l.volume.device) s).0 ≡ ok device.fd
        → Extends (OnDevice l.volume device) (ask os (os.open_file l.volume.device) s).1 t
        → AsConfigured s t
    joined : {s t u : Sys os} → AsConfigured s t → AsConfigured t u → AsConfigured s u

  unchanged : {P : Event → Type 0} {s t : Sys os} → t.trace ≡ s.trace → Extends P s t
  unchanged {P} {s} same = record { new = []; grown = same ∙ sym (append-nil s.trace); each = tt }

  AsConfigured-IsCourse : IsCourse AsConfigured
  AsConfigured-IsCourse = record {
    rests = λ same. keeps_headers (unchanged same);
    joins = λ a b. joined a b;
  }

  unmarked : {s t : Sys os} → Extends (λ e. ⊥) s t → AsConfigured s t
  unmarked e = keeps_headers (unchanged (still e))

  module _ (conn : ℕ) (l : Listener) (memory : Memory) (here : Memᴰ l listeners) where
    serve_passphrase-AsConfigured :
        (s : Sys os) → AsConfigured s (serve_passphrase os json fuel conn l.volume memory s).1
    unfolding serve_passphrase with_device ask
    serve_passphrase-AsConfigured s =
        let opened = open_device os l.volume.device s in
        let reached = still ((Adds-open_device l.volume.device).at s) in
        elim (Result-cases opened.0) [
          | inr (why, e) ↦ rw (serve_passphrase, e) (keeps_headers (unchanged reached))
          | inl (device, e) ↦
              let later =
                with_device_at (OnDevice-Allows l.volume device) json fuel conn l.volume memory
                  device (sent-OnDevice l.volume device conn)
                  (enroll_command-OnDevice l.volume device) opened.1 in
              rw (serve_passphrase, e)
                (on_device l device here (open_device_fd l.volume.device s e) (record {
                  new = later.new;
                  grown = later.grown ∙ ap (λ t. t ++ later.new) reached;
                  each = later.each;
                }))
        ]

    after_check-AsConfigured :
        (r : Result PeerError (Unit {0})) (s : Sys os)
        → AsConfigured s (after_check os json fuel conn l.volume memory (r, s)).1
    unfolding after_check
    after_check-AsConfigured (err e) s = keeps_headers (Extends-refl s)
    after_check-AsConfigured (ok u) s = serve_passphrase-AsConfigured s

    by_phase-AsConfigured :
        (phase : Phase) (s : Sys os)
        → AsConfigured s (by_phase os json fuel conn l.volume memory phase s).1
    unfolding by_phase
    by_phase-AsConfigured plain s =
        let checked = Peer.check os conn l.volume.name s in
        joined (unmarked ((Adds-check_peer conn l.volume.name).at s))
          (after_check-AsConfigured checked.0 checked.1)
    by_phase-AsConfigured phase s = keeps_headers (Extends-refl s)

    with_name-AsConfigured :
        (name : Option PeerName) (s : Sys os)
        → AsConfigured s (with_name os json fuel conn l.volume memory name s).1
    unfolding with_name
    with_name-AsConfigured none s = keeps_headers (Extends-refl s)
    with_name-AsConfigured (some peer) s = elim (Bool-cases (equal peer.volume l.volume.name)) [
      | inl e ↦ rw (with_name, e) (by_phase-AsConfigured peer.phase s)
      | inr e ↦ rw (with_name, e) (keeps_headers (Extends-refl s))
    ]

    with_address-AsConfigured :
        (r : Result ℕ Address) (s : Sys os)
        → AsConfigured s (with_address os json fuel conn l.volume memory (r, s)).1
    unfolding with_address
    with_address-AsConfigured (ok (in_abstract name)) s = with_name-AsConfigured (parse name) s
    with_address-AsConfigured (err e) s = keeps_headers (Extends-refl s)
    with_address-AsConfigured (ok unnamed) s = keeps_headers (Extends-refl s)
    with_address-AsConfigured (ok foreign) s = keeps_headers (Extends-refl s)
    with_address-AsConfigured (ok pathname) s = keeps_headers (Extends-refl s)

    handle-AsConfigured :
        (s : Sys os) → AsConfigured s (handle os json fuel conn l.volume memory s).1
    unfolding handle
    handle-AsConfigured s =
        let named = ask os (os.peer_name conn) s in
        joined (unmarked ((Adds-ask (os.peer_name conn)).at s))
          (with_address-AsConfigured named.0 named.1)

  -- Over the whole life of the daemon, whatever its peers, agents, disks and signals do: when it runs
  -- systemd-cryptenroll, then on a descriptor that it got by opening the path of a listener's volume,
  -- against the TPM, the PCRs and the bank that the configuration gives for that volume, and in no
  -- other way.
  pub serve-AsConfigured :
      (n : ℕ) (s : Sys os) → AsConfigured s (serve os json fuel n listeners s).1
  serve-AsConfigured n s =
      (serve-Keeps os json fuel listeners AsConfigured AsConfigured-IsCourse
        (λ conn l memory t here accepted sound.
          let after = (ask os (os.accept l.fd) t).1 in
          (
            joined (unmarked ((Adds-ask (os.accept l.fd)).at t))
                (handle-AsConfigured conn l memory here after),
            (handle-Answered json fuel conn l.volume memory after sound).1,
          ))
        n s).0

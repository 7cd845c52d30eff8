-- ===== src/Serve.antt =====
-- src/main.rs, `serve` and what it calls: accepting and answering the connections of systemd-cryptsetup.
mod Tests
pub mod Genuine
pub mod Writes
pub mod Broken
pub mod Reply
pub mod Stopped
pub mod Adds
pub mod Served
use tpm2_autoenroll.Base.{
  ◌==◌, if◌then◌else◌, is_empty, take, drop, Bytes, equal, ℕ, zero, suc, Bool, true, false, not,
  Option, none, some, [], ◌∷◌, ◌++◌,
}
use tpm2_autoenroll.Base.Results.{Result, ok, err}
use tpm2_autoenroll.Acquire.{acquire}
use tpm2_autoenroll.BindName.{Phase, plain, PeerName, parse}
use tpm2_autoenroll.Cache.{Cache}
use tpm2_autoenroll.Config.{Volume}
use tpm2_autoenroll.Consent.{Decisions}
use tpm2_autoenroll.Device.{Device, DeviceError, open_device}
use tpm2_autoenroll.Json.{Json}
use tpm2_autoenroll.Os.{Os, Sys, Address, unnamed, foreign, pathname, in_abstract, sent, ask}
use tpm2_autoenroll.Peer.{PeerError}
use tpm2_autoenroll.Peer
use tpm2_autoenroll.Reenroll.{maybe_reenroll}

-- Errnos
abbrev pub eintr : ℕ
eintr = 4

abbrev pub epipe : ℕ
epipe = 32

-- What the daemon remembers from one connection to the next.
pub record Memory : Type 0 where
  pub cache : Cache
  pub decided : Decisions

-- How the writing of the reply went; `still_writing` means that the fuel ran out.
pub data Written : Type 0 where
  all_written still_writing : Written
  write_failed : ℕ → Written

-- What a connection came to. The source formats the first seven into a message.
pub data Contact : Type 0 where
  no_peer_name : ℕ → Contact
  unnamed_peer not_unix not_abstract unparseable : Contact
  other_volume : Bytes → Contact
  peer_refused : PeerError → Contact
  other_phase : Phase → Contact
  no_device : DeviceError → Contact
  no_passphrase : Contact
  replied : Written → Contact

-- `handle` returns true when the plain phase of the volume was handled.
pub counts : Contact → Bool
counts (no_device e) = true
counts no_passphrase = true
counts (replied w) = true
counts _ = false

-- The match of `write_all` on what `write` returns.
pub data Next : Type 0 where
  go_on : ℕ → Next
  again : Next
  stop : ℕ → Next

pub next : Result ℕ ℕ → Next
next (ok zero) = stop epipe
next (ok (suc n)) = go_on (suc n)
next (err e) = if e == eintr then again else stop e

module _ (os : Os) where
  -- The trace keeps the bytes that the connection took.
  note_sent : ℕ → Bytes → ℕ → Sys os → Sys os
  note_sent fd buf n s = record s { trace = s.trace ++ sent fd (take n buf) ∷ [] }

  -- `write_all` of main.rs, on fuel. The source would panic at an `n` beyond the buffer.
  pub write_all : ℕ → ℕ → Bytes → Sys os → Written × Sys os
  write_all zero fd buf s = (if is_empty buf then all_written else still_writing, s)
  write_all (suc fuel) fd buf s = elim (is_empty buf) [
    | true ↦ (all_written, s)
    | false ↦
        let wrote = ask os (os.write fd buf) s in
        elim (next wrote.0) [
          | go_on n ↦ write_all fuel fd (drop n buf) (note_sent fd buf n wrote.1)
          | again ↦ write_all fuel fd buf wrote.1
          | stop e ↦ (write_failed e, wrote.1)
        ]
  ]

  module _ (json : Json) (fuel : ℕ) where
    -- The match of `serve_passphrase` on what `acquire` returns.
    unfoldable pub give :
        ℕ
        → Volume
        → Device
        → Decisions
        → (Option Bytes × Cache) × Sys os
        → (Contact × Memory) × Sys os
    give conn config device decided ((none, cache), s) =
        ((no_passphrase, record { cache = cache; decided = decided }), s)
    give conn config device decided ((some secret, cache), s) =
        let repaired = maybe_reenroll os json config device secret decided s in
        let wrote = write_all fuel conn secret repaired.1 in
        ((replied wrote.0, record { cache = cache; decided = repaired.0.1 }), wrote.1)

    unfoldable pub with_device :
        ℕ → Volume → Memory → Result DeviceError Device × Sys os → (Contact × Memory) × Sys os
    with_device conn config memory (err e, s) = ((no_device e, memory), s)
    with_device conn config memory (ok device, s) =
        give conn config device memory.decided (acquire os config device memory.cache s)

    -- `serve_passphrase`
    unfoldable pub serve_passphrase : ℕ → Volume → Memory → Sys os → (Contact × Memory) × Sys os
    serve_passphrase conn config memory s =
        with_device conn config memory (open_device os config.device s)

    unfoldable pub after_check :
        ℕ → Volume → Memory → Result PeerError (Unit {0}) × Sys os → (Contact × Memory) × Sys os
    after_check conn managed memory (err e, s) = ((peer_refused e, memory), s)
    after_check conn managed memory (ok u, s) = serve_passphrase conn managed memory s

    -- The match of `handle` on the phase.
    unfoldable pub by_phase : ℕ → Volume → Memory → Phase → Sys os → (Contact × Memory) × Sys os
    by_phase conn managed memory plain s =
        after_check conn managed memory (Peer.check os conn managed.name s)
    by_phase conn managed memory phase s = ((other_phase phase, memory), s)

    unfoldable pub with_name :
        ℕ → Volume → Memory → Option PeerName → Sys os → (Contact × Memory) × Sys os
    with_name conn managed memory none s = ((unparseable, memory), s)
    with_name conn managed memory (some peer) s =
        if not (equal peer.volume managed.name)
        then ((other_volume peer.volume, memory), s)
        else by_phase conn managed memory peer.phase s

    unfoldable pub with_address :
        ℕ → Volume → Memory → Result ℕ Address × Sys os → (Contact × Memory) × Sys os
    with_address conn managed memory (err e, s) = ((no_peer_name e, memory), s)
    with_address conn managed memory (ok unnamed, s) = ((unnamed_peer, memory), s)
    with_address conn managed memory (ok foreign, s) = ((not_unix, memory), s)
    with_address conn managed memory (ok pathname, s) = ((not_abstract, memory), s)
    with_address conn managed memory (ok (in_abstract name), s) =
        with_name conn managed memory (parse name) s

    -- `handle`; `counts` of the contact is what the source returns.
    unfoldable pub handle : ℕ → Volume → Memory → Sys os → (Contact × Memory) × Sys os
    handle conn managed memory s = with_address conn managed memory (ask os (os.peer_name conn) s)

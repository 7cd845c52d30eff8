-- ===== src/Serve/Reply.antt =====
-- When a connection is given anything, and what.
use tpm2_autoenroll.Base.{
  Bool-cases, All, Bytes, equal, equal_iff, ℕ, ◌≡◌, refl, ◌∙◌, ◌⊎◌, inl, inr, Option, none, some,
}
use tpm2_autoenroll.Base.Results.{Result, ok, Result-cases}
use tpm2_autoenroll.Acquire.{acquire}
use tpm2_autoenroll.Acquire.Adds.{Adds-acquire}
use tpm2_autoenroll.Acquire.Tested.{JustTested, IsValidated, IsSafe, acquire-IsSafe}
use tpm2_autoenroll.BindName.{Phase, plain, PeerName, parse}
use tpm2_autoenroll.Cache.{Cache, Distinct}
use tpm2_autoenroll.Config.{Volume}
use tpm2_autoenroll.Consent.{Decisions}
use tpm2_autoenroll.Device.{Device, open_device}
use tpm2_autoenroll.Device.Adds.{Adds-open_device}
use tpm2_autoenroll.Json.{Json}
use tpm2_autoenroll.Os.{Os, Sys, Event, Address, in_abstract, sent, ask}
use tpm2_autoenroll.Os.Adds.{Allows, Extends, Extends-refl, Extends-trans, Adds-ask}
use tpm2_autoenroll.Peer
use tpm2_autoenroll.Peer.Adds.{Adds-check_peer}
use tpm2_autoenroll.Reenroll.{maybe_reenroll}
use tpm2_autoenroll.Reenroll.Adds.{Adds-maybe_reenroll}
use tpm2_autoenroll.Serve.{
  Memory, Contact, Written, replied, serve_passphrase, with_device, give, handle, with_address,
  with_name, by_phase, after_check, write_all,
}
use tpm2_autoenroll.Serve.Writes.{Sends, write_all-Sends}

-- Nothing is given to a connection.
unfoldable pub Silent : Event → Type 0
Silent (sent fd buf) = ⊥
Silent _ = Unit {0}

pub Silent-Allows : Allows Silent
unfolding Silent
Silent-Allows = record { killing = tt; writing = λ fd msg. tt; spawning = λ cmd h. tt }

-- The cache holds passphrases that were found correct, and none twice.
unfoldable pub IsSound : Os → Memory → Type 0
IsSound os memory = All (IsValidated os) memory.cache × Distinct memory.cache

module _ {os : Os} where
  -- What a connection was given: the passphrase that the last test found correct, and only that.
  pub record Given (conn : ℕ) (s : Sys os) (out : (Contact × Memory) × Sys os) : Type 0 where
    pub device : Device
    pub secret : Bytes
    pub acquired : Sys os
    pub ready : Sys os
    pub written : Written
    pub before : Extends Silent s acquired
    pub tested : JustTested os device secret acquired
    pub between : Extends Silent acquired ready
    pub sends : Sends conn secret ready (written, out.1)
    pub told : out.0.0 ≡ replied written

  -- Nothing was given, or what may be; and the memory stays sound.
  Fair : ℕ → Sys os → (Contact × Memory) × Sys os → Type 0
  Fair conn s out = (Extends Silent s out.1 ⊎ Given conn s out) × IsSound os out.0.1

  module _ (json : Json) (fuel conn : ℕ) (managed : Volume) where
    give-Given :
        (device : Device) (decided : Decisions) (s : Sys os) (r : Option Bytes × Cache) (t : Sys os)
        → Extends Silent s t
        → IsSafe os device (r, t)
        → Fair conn s (give os json fuel conn managed device decided (r, t))
    unfolding give IsSound Fair Silent
    give-Given device decided s (none, cache) t quiet safe =
        (inl quiet, (safe.validated, safe.apart))
    give-Given device decided s (some secret, cache) t quiet safe =
        let repaired = maybe_reenroll os json managed device secret decided t in
        (
          inr (record {
            device = device;
            secret = secret;
            acquired = t;
            ready = repaired.1;
            written = (write_all os fuel conn secret repaired.1).0;
            before = quiet;
            tested = safe.answer secret refl;
            between =
                (Adds-maybe_reenroll Silent-Allows json managed device secret (λ key. tt)
                    decided).at
                  t;
            sends = write_all-Sends conn fuel secret repaired.1;
            told = refl;
          }),
          (safe.validated, safe.apart),
        )

    serve_passphrase-Fair :
        (memory : Memory) (s : Sys os)
        → IsSound os memory
        → Fair conn s (serve_passphrase os json fuel conn managed memory s)
    unfolding serve_passphrase with_device IsSound Fair
    serve_passphrase-Fair memory s sound =
        let opened = open_device os managed.device s in
        let to_open = (Adds-open_device managed.device).at s in
        elim (Result-cases opened.0) [
          | inr (why, r) ↦ rw (serve_passphrase, r) ((inl to_open, sound))
          | inl (device, r) ↦
              let got = acquire os managed device memory.cache opened.1 in
              rw (serve_passphrase, r)
                (give-Given device memory.decided s got.0 got.1
                  (Extends-trans to_open
                    ((Adds-acquire Silent-Allows device managed memory.cache).at opened.1))
                  (acquire-IsSafe os managed device memory.cache opened.1 sound.0 sound.1))
        ]

    -- What stands before anything is given: the peer's name asks for the plain phase of this very volume,
    -- and the peer was found to be who unlocks it.
    pub record Answered (s : Sys os) (out : (Contact × Memory) × Sys os) : Type 0 where
      pub name : Bytes
      pub named : (ask os (os.peer_name conn) s).0 ≡ ok (in_abstract name)
      pub parsed : parse name ≡ some (record { phase = plain; volume = managed.name })
      pub checked : (Peer.check os conn managed.name (ask os (os.peer_name conn) s).1).0 ≡ ok tt
      pub given :
          Given conn (Peer.check os conn managed.name (ask os (os.peer_name conn) s).1).1 out

    -- The same for what follows the peer's name.
    Checked : Phase → Sys os → (Contact × Memory) × Sys os → Type 0
    Checked phase s out =
        let checked = Peer.check os conn managed.name s in
        (Extends Silent s out.1 ⊎ (phase ≡ plain) × (checked.0 ≡ ok tt) × Given conn checked.1 out)
        × IsSound os out.0.1

    by_phase-Checked :
        (memory : Memory) (phase : Phase) (s : Sys os)
        → IsSound os memory
        → Checked phase s (by_phase os json fuel conn managed memory phase s)
    unfolding by_phase after_check Checked Fair
    by_phase-Checked memory plain s sound =
        let checked = Peer.check os conn managed.name s in
        let to_check = (Adds-check_peer conn managed.name).at s in
        elim (Result-cases checked.0) [
          | inr (why, r) ↦ rw (by_phase, r) ((inl to_check, sound))
          | inl (u, r) ↦
              let fair = serve_passphrase-Fair memory checked.1 sound in
              rw (by_phase, r)
                ((
                  elim fair.0 [
                    | inl quiet ↦ inl (Extends-trans to_check quiet)
                    | inr given ↦ inr (refl, refl, given)
                  ],
                  fair.1,
                ))
        ]
    by_phase-Checked memory phase s sound = (inl (Extends-refl s), sound)

    Outcome : Sys os → (Contact × Memory) × Sys os → Type 0
    Outcome s out = (Extends Silent s out.1 ⊎ Answered s out) × IsSound os out.0.1

    name-Answered :
        (memory : Memory) (s : Sys os) (name : Bytes) (peer : Option PeerName)
        → (ask os (os.peer_name conn) s).0 ≡ ok (in_abstract name)
        → parse name ≡ peer
        → IsSound os memory
        → Outcome s
            (with_name os json fuel conn managed memory peer (ask os (os.peer_name conn) s).1)
    unfolding with_name Outcome Checked
    name-Answered memory s name none named parsed sound =
        (inl ((Adds-ask (os.peer_name conn)).at s), sound)
    name-Answered memory s name (some peer) named parsed sound =
        let asked = ask os (os.peer_name conn) s in
        let to_name = (Adds-ask (os.peer_name conn)).at s in
        elim (Bool-cases (equal peer.volume managed.name)) [
          | inr e ↦ rw (with_name, e) ((inl to_name, sound))
          | inl e ↦
              let fair = by_phase-Checked memory peer.phase asked.1 sound in
              rw (with_name, e)
                ((
                  elim fair.0 [
                    | inl quiet ↦ inl (Extends-trans to_name quiet)
                    | inr (is_plain, checked, given) ↦ inr (record {
                      name = name;
                      named = named;
                      parsed = parsed ∙ λ i. some (record {
                        phase = is_plain i;
                        volume = (equal_iff peer.volume managed.name).0 e i;
                      });
                      checked = checked;
                      given = given;
                    })
                  ],
                  fair.1,
                ))
        ]

    address-Answered :
        (memory : Memory) (s : Sys os) (address : Result ℕ Address)
        → (ask os (os.peer_name conn) s).0 ≡ address
        → IsSound os memory
        → Outcome s (
            with_address os json fuel conn managed memory
              (address, (ask os (os.peer_name conn) s).1))
    unfolding with_address Outcome
    address-Answered memory s (ok (in_abstract name)) named sound =
        name-Answered memory s name (parse name) named refl sound
    address-Answered memory s address named sound =
        (inl ((Adds-ask (os.peer_name conn)).at s), sound)

    -- Whatever the peer, the agents and the disks do: a connection is given nothing, unless its name asks
    -- for the plain phase of the volume of this socket and the peer is found to be the process that
    -- unlocks the volume; then it is given, after everything else, a start of the passphrase that the
    -- last test found correct, or all of it. The cache keeps validated passphrases only, each once.
    pub handle-Answered :
        (memory : Memory) (s : Sys os)
        → IsSound os memory
        → (Extends Silent s (handle os json fuel conn managed memory s).1
            ⊎ Answered s (handle os json fuel conn managed memory s))
          × IsSound os (handle os json fuel conn managed memory s).0.1
    unfolding handle Outcome
    handle-Answered memory s sound =
        address-Answered memory s (ask os (os.peer_name conn) s).0 refl sound

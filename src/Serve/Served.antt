-- ===== src/Serve/Served.antt =====
-- A genuine peer gets the passphrase.
use mathlib.Core.Path.{subst}
use tpm2_autoenroll.Base.{
  length, Bytes, equal_refl, ℕ, ◌+◌, ◌≤◌, ◌≡◌, refl, sym, ap, ◌∙◌, ◌≢◌, Bool, Option, some, List,
}
use tpm2_autoenroll.Acquire.{acquire}
use tpm2_autoenroll.Acquire.Expected.{Reliable, expected, acquire-expected}
use tpm2_autoenroll.AskPw.{Attempt}
use tpm2_autoenroll.Base.Results.{Result, ok}
use tpm2_autoenroll.BindName.{plain, parse}
use tpm2_autoenroll.Cache.{Cache}
use tpm2_autoenroll.Config.{Volume}
use tpm2_autoenroll.Device.{Device, DeviceError, open_device}
use tpm2_autoenroll.Json.{Json}
use tpm2_autoenroll.Os.{Os, Sys, in_abstract, ask}
use tpm2_autoenroll.Peer
use tpm2_autoenroll.Peer.{PeerError}
use tpm2_autoenroll.Reenroll.{maybe_reenroll}
use tpm2_autoenroll.Serve.{
  Memory, Contact, Written, replied, still_writing, write_failed, write_all, give, serve_passphrase,
  with_device, handle, with_address, with_name, by_phase, after_check,
}
use tpm2_autoenroll.Acquire.Adds.{Adds-acquire}
use tpm2_autoenroll.Device.Adds.{Adds-open_device}
use tpm2_autoenroll.Os.Adds.{Extends, Extends-trans, Adds-ask}
use tpm2_autoenroll.Peer.Adds.{Adds-check_peer}
use tpm2_autoenroll.Reenroll.Adds.{Adds-maybe_reenroll}
use tpm2_autoenroll.Serve.Broken.{Broken, write_all-Broken}
use tpm2_autoenroll.Serve.Reply.{Silent, Silent-Allows}
use tpm2_autoenroll.Serve.Writes.{Sends, write_all-Sends, Patient, write_all-ends}

-- Nothing was sent before the reply. It came to an end, and what the connection took in it is all of the
-- passphrase, or a start of it when a write of the rest to the connection failed.
pub record Served {os : Os} (conn : ℕ) (secret : Bytes) (s : Sys os)
    (out : (Contact × Memory) × Sys os) : Type 0 where
  pub ready : Sys os
  pub written : Written
  pub before : Extends Silent s ready
  pub told : out.0.0 ≡ replied written
  pub ended : written ≢ still_writing
  pub sends : Sends conn secret ready (written, out.1)
  pub broken : (why : ℕ) → written ≡ write_failed why → Broken conn secret why ready out.1

module _ {os : Os} (json : Json) (fuel conn : ℕ) (managed : Volume) (memory : Memory)
    (patient : Patient os) (secret : Bytes)
    (enough : (w : os.World) → length secret + patient.patience w ≤ fuel) where
  give-Served :
      (device : Device) (answer : Option Bytes) (cache : Cache) (s t : Sys os)
      → Extends Silent s t
      → some secret ≡ answer
      → Served conn secret s
          (give os json fuel conn managed device memory.decided ((answer, cache), t))
  unfolding give Silent
  give-Served device answer cache s t quiet e =
      subst
        (λ a.
          Served conn secret s
            (give os json fuel conn managed device memory.decided ((a, cache), t)))
        e given
    where
      given :
          Served conn secret s
            (give os json fuel conn managed device memory.decided ((some secret, cache), t))
      given =
          let repaired = maybe_reenroll os json managed device secret memory.decided t in
          record {
            ready = repaired.1;
            written = (write_all os fuel conn secret repaired.1).0;
            before = Extends-trans quiet (
                (Adds-maybe_reenroll Silent-Allows json managed device secret (λ key. tt)
                    memory.decided).at
                  t);
            told = refl;
            broken = λ why e. write_all-Broken conn fuel secret repaired.1 why e;
            ended = write_all-ends patient fuel conn secret repaired.1 (enough repaired.1.world);
            sends = write_all-Sends conn fuel secret repaired.1;
          }

  with_device-Served :
      (device : Device) {opens : Bytes → Bool} {offers : Attempt → List Bytes}
      (fair : Reliable os managed device opens offers) (r : Result DeviceError Device)
      (s t : Sys os)
      → Extends Silent s t
      → r ≡ ok device
      → (expected opens offers memory.cache).0 ≡ some secret
      → Served conn secret s (with_device os json fuel conn managed memory (r, t))
  unfolding with_device
  with_device-Served device fair r s t quiet opened known =
      let got = acquire os managed device memory.cache t in
      rw (opened, with_device)
        (give-Served device got.0.0 got.0.1 s got.1
          (Extends-trans quiet ((Adds-acquire Silent-Allows device managed memory.cache).at t))
          (sym (ap (λ x. x.0) (acquire-expected fair memory.cache t) ∙ known)))

  -- On a system where cryptsetup and the agents are reliable, no stop is asked for, and connections
  -- interrupt finitely often: when the peer's name asks for the plain phase of this volume, the peer
  -- passes the check and the device can be opened, and a cached or an offered passphrase opens it, then
  -- the peer is sent that passphrase and nothing before it; the reply comes to an end, and is
  -- the whole passphrase unless a write of what is left of it fails.
  pub handle-Served :
      (name : Bytes) (device : Device) {opens : Bytes → Bool} {offers : Attempt → List Bytes}
      (fair : Reliable os managed device opens offers) (s : Sys os)
      → (ask os (os.peer_name conn) s).0 ≡ ok (in_abstract name)
      → parse name ≡ some (record { phase = plain; volume = managed.name })
      → (Peer.check os conn managed.name (ask os (os.peer_name conn) s).1).0 ≡ ok tt
      → (open_device os managed.device
          (Peer.check os conn managed.name (ask os (os.peer_name conn) s).1).1).0
        ≡ ok device
      → (expected opens offers memory.cache).0 ≡ some secret
      → Served conn secret s (handle os json fuel conn managed memory s)
  unfolding handle with_address with_name by_phase after_check serve_passphrase
  handle-Served name device fair s named parsed checked opened known =
      let asked = ask os (os.peer_name conn) s in
      let peer = Peer.check os conn managed.name asked.1 in
      let disk = open_device os managed.device peer.1 in
      rw
        (handle, with_address, named, parsed, with_name, equal_refl managed.name, by_phase, checked)
        (with_device-Served device fair disk.0 s disk.1
          (Extends-trans ((Adds-ask (os.peer_name conn)).at s) (
            Extends-trans ((Adds-check_peer conn managed.name).at asked.1)
              ((Adds-open_device managed.device).at peer.1)))
          opened known)

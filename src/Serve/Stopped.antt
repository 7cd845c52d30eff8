-- ===== src/Serve/Stopped.antt =====
-- What becomes of a connection once a stop has been asked for.
use tpm2_autoenroll.Base.{
  Bool-cases, Bytes, equal, ℕ, ◌≡◌, refl, ap, ◌∙◌, ◌≢◌, inl, inr, Option, none, some,
}
use tpm2_autoenroll.Acquire.{acquire}
use tpm2_autoenroll.Acquire.Stopped.{Stopping, acquire_stops}
use tpm2_autoenroll.Base.Results.{Result, ok, err}
use tpm2_autoenroll.BindName.{Phase, plain, PeerName, parse}
use tpm2_autoenroll.Cache.{Cache}
use tpm2_autoenroll.Config.{Volume}
use tpm2_autoenroll.Device.{Device, DeviceError, open_device}
use tpm2_autoenroll.Device.Adds.{Adds-open_device}
use tpm2_autoenroll.Json.{Json}
use tpm2_autoenroll.Os.{Os, Sys, Address, unnamed, foreign, pathname, in_abstract, ask}
use tpm2_autoenroll.Os.Adds.{still}
use tpm2_autoenroll.Peer
use tpm2_autoenroll.Peer.{PeerError}
use tpm2_autoenroll.Peer.Adds.{Adds-check_peer}
use tpm2_autoenroll.Serve.{
  Memory, Contact, give, serve_passphrase, with_device, handle, with_address, with_name, by_phase,
  after_check,
}

some≢nothing : {A : Type 0} {a : A} → ◌≢◌ {A = Option A} (some a) none
some≢nothing h = cc

-- Nothing is done to the outside, and the memory is as it was.
pub Untouched : {os : Os} → Memory → Sys os → (Contact × Memory) × Sys os → Type 0
Untouched memory s out = (out.1.trace ≡ s.trace) × (out.0.1 ≡ memory)

module _ {os : Os} (stop : Stopping os) (json : Json) (fuel conn : ℕ) (managed : Volume)
    (memory : Memory) where
  give-Untouched :
      (device : Device) (s : Sys os) (r : Option Bytes × Cache) (t : Sys os)
      → r ≡ (none, memory.cache)
      → t.trace ≡ s.trace
      → Untouched memory s (give os json fuel conn managed device memory.decided (r, t))
  unfolding give Untouched
  give-Untouched device s (none, cache) t e same = (same, λ i. record memory { cache = (e i).1 })
  give-Untouched device s (some secret, cache) t e same = absurd (gives e)
    where
      gives : ◌≢◌ {A = Option Bytes × Cache} (some secret, cache) (none, memory.cache)
      gives h = some≢nothing (ap (λ r. r.0) h)

  with_device-Untouched :
      (s : Sys os) (r : Result DeviceError Device) (t : Sys os)
      → t.trace ≡ s.trace
      → Untouched memory s (with_device os json fuel conn managed memory (r, t))
  unfolding with_device Untouched
  with_device-Untouched s (err e) t same = (same, refl)
  with_device-Untouched s (ok device) t same =
      let got = acquire os managed device memory.cache t in
      let nothing = acquire_stops stop managed device memory.cache t in
      give-Untouched device s got.0 got.1 nothing.0 (nothing.1 ∙ same)

  after_check-Untouched :
      (s : Sys os) (r : Result PeerError (Unit {0})) (t : Sys os)
      → t.trace ≡ s.trace
      → Untouched memory s (after_check os json fuel conn managed memory (r, t))
  unfolding after_check serve_passphrase Untouched
  after_check-Untouched s (err e) t same = (same, refl)
  after_check-Untouched s (ok u) t same =
      let opened = open_device os managed.device t in
      with_device-Untouched s opened.0 opened.1
        (still ((Adds-open_device managed.device).at t) ∙ same)

  by_phase-Untouched :
      (phase : Phase) (s : Sys os)
      → Untouched memory s (by_phase os json fuel conn managed memory phase s)
  unfolding by_phase Untouched
  by_phase-Untouched plain s =
      let checked = Peer.check os conn managed.name s in
      after_check-Untouched s checked.0 checked.1 (still ((Adds-check_peer conn managed.name).at s))
  by_phase-Untouched phase s = (refl, refl)

  with_name-Untouched :
      (name : Option PeerName) (s : Sys os)
      → Untouched memory s (with_name os json fuel conn managed memory name s)
  unfolding with_name Untouched
  with_name-Untouched none s = (refl, refl)
  with_name-Untouched (some peer) s = elim (Bool-cases (equal peer.volume managed.name)) [
    | inl e ↦ rw (with_name, e) (by_phase-Untouched peer.phase s)
    | inr e ↦ rw (with_name, e) (refl, refl)
  ]

  with_address-Untouched :
      (s : Sys os) (r : Result ℕ Address)
      → Untouched memory s (with_address os json fuel conn managed memory (r, s))
  unfolding with_address Untouched
  with_address-Untouched s (err e) = (refl, refl)
  with_address-Untouched s (ok unnamed) = (refl, refl)
  with_address-Untouched s (ok foreign) = (refl, refl)
  with_address-Untouched s (ok pathname) = (refl, refl)
  with_address-Untouched s (ok (in_abstract name)) = with_name-Untouched (parse name) s

  -- Once a stop has been asked for, a connection that is still handled is given nothing: no
  -- child is started for it, no passphrase is tested or asked for, nothing is written or killed, and
  -- the cache and the decisions are as they were.
  pub handle-Untouched :
      (s : Sys os) → Untouched memory s (handle os json fuel conn managed memory s)
  unfolding handle ask Untouched
  handle-Untouched s =
      let named = ask os (os.peer_name conn) s in with_address-Untouched named.1 named.0

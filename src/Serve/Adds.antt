-- ===== src/Serve/Adds.antt =====
-- What answering a connection adds to the trace.
use tpm2_autoenroll.Base.{All, Bytes, ℕ, Option, none, some, List, [], ◌∷◌, map}
use tpm2_autoenroll.Acquire.{acquire}
use tpm2_autoenroll.Acquire.Adds.{Adds-acquire}
use tpm2_autoenroll.Base.Results.{ok}
use tpm2_autoenroll.Cache.{Cache}
use tpm2_autoenroll.Config.{Volume}
use tpm2_autoenroll.Device.{Device}
use tpm2_autoenroll.Enroll.{enroll_command}
use tpm2_autoenroll.Json.{Json}
use tpm2_autoenroll.Os.{Os, Sys, Event, spawned, sent}
use tpm2_autoenroll.Os.Adds.{Allows, Extends, Extends-refl, Extends-trans}
use tpm2_autoenroll.Reenroll.{maybe_reenroll}
use tpm2_autoenroll.Reenroll.Adds.{Adds-maybe_reenroll}
use tpm2_autoenroll.Serve.{Memory, write_all, give, with_device}
use tpm2_autoenroll.Serve.Writes.{write_all-Sends}

-- Once the device is open.
module _ {os : Os} {P : Event → Type 0} (h : Allows P) (json : Json) (fuel conn : ℕ)
    (managed : Volume) (memory : Memory) (device : Device)
    (sends : (chunk : Bytes) → P (sent conn chunk))
    (spawns : (key : ℕ)
      → P (spawned (enroll_command device key managed.tpm2_device managed.pcrs managed.bank))) where
  write_all_at : (buf : Bytes) (s : Sys os) → Extends P s (write_all os fuel conn buf s).1
  write_all_at buf s =
      let given = write_all-Sends conn fuel buf s in
      record { new = map (sent conn) given.chunks; grown = given.grown; each = each given.chunks }
    where
      each : (l : List Bytes) → All P (map (sent conn) l)
      each [] = tt
      each (c ∷ l) = (sends c, each l)

  give_at :
      (answer : Option Bytes) (cache : Cache) (s : Sys os)
      → Extends P s (give os json fuel conn managed device memory.decided ((answer, cache), s)).1
  unfolding give
  give_at none cache s = Extends-refl s
  give_at (some secret) cache s =
      let repaired = maybe_reenroll os json managed device secret memory.decided s in
      Extends-trans ((Adds-maybe_reenroll h json managed device secret spawns memory.decided).at s)
        (write_all_at secret repaired.1)

  pub with_device_at :
      (s : Sys os) → Extends P s (with_device os json fuel conn managed memory (ok device, s)).1
  unfolding with_device
  with_device_at s =
      let got = acquire os managed device memory.cache s in
      Extends-trans ((Adds-acquire h device managed memory.cache).at s)
        (give_at got.0.0 got.0.1 got.1)

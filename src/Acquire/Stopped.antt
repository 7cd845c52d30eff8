-- ===== src/Acquire/Stopped.antt =====
-- What is done for a volume once a stop has been asked for.
use tpm2_autoenroll.Base.{Bytes, ◌≡◌, refl, ap, true, none, List, [], ◌∷◌}
use tpm2_autoenroll.Acquire.{give_up, terminating, try_each, prompt, acquire}
use tpm2_autoenroll.Cache.{Cache}
use tpm2_autoenroll.Config.{Volume}
use tpm2_autoenroll.Device.{Device}
use tpm2_autoenroll.Os.{Os, Sys, ask}

-- The flag that the handler of SIGTERM sets is set, and stays so.
unfoldable pub Stopping : Os → Type 0
Stopping os = (w : os.World) → (os.terminate w).0 ≡ true

module _ {os : Os} (stop : Stopping os) where
  try_each_stops :
      (device : Device) (secret : Bytes) (more : List Bytes) (s : Sys os)
      → try_each os device (secret ∷ more) s ≡ (give_up, (ask os os.terminate s).1)
  unfolding try_each terminating ask Stopping
  try_each_stops device secret more s = rw (try_each, stop s.world) refl

  -- Nothing is done and nothing is found.
  pub acquire_stops :
      (config : Volume) (device : Device) (cache : Cache) (s : Sys os)
      → ((acquire os config device cache s).0 ≡ (none, cache))
        × ((acquire os config device cache s).1.trace ≡ s.trace)
  unfolding acquire try_each prompt terminating ask Stopping
  acquire_stops config device [] s = rw (acquire, prompt, stop s.world) (refl, refl)
  acquire_stops config device (secret ∷ cache) s =
      let nothing = try_each_stops device secret cache s in
      rw (acquire, nothing) (refl, ap (λ r. r.1.trace) nothing)

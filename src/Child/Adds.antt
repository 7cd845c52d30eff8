-- ===== src/Child/Adds.antt =====
-- What running a child adds to the trace: the spawn, and at most the kill.
use tpm2_autoenroll.Base.{ℕ, ◌≡◌, false, Option, none, some}
use tpm2_autoenroll.Base.Results.{Result, ok, err}
use tpm2_autoenroll.Child.{ChildError, Collecting}
use tpm2_autoenroll.Child.Run.{kill_child, finish, run}
use tpm2_autoenroll.Os.{Os, Event, Command, Life, spawned, killed}
use tpm2_autoenroll.Os.Adds.{Adds, Allows, is_enroll, adds_rules}

module _ {os : Os} {P : Event → Type 0} where
  Adds-kill_child : P killed → Adds P (kill_child os)
  unfolding kill_child
  Adds-kill_child h = search (adds_rules, h)

  Adds-finish :
      P killed
      → (life : Life) (r : Result ChildError (Option Collecting)) → Adds P (finish os life r)
  unfolding finish
  Adds-finish h life (ok (some c)) = search adds_rules
  Adds-finish h life (ok none) = search (adds_rules, Adds-kill_child h)
  Adds-finish h life (err e) = search (adds_rules, Adds-kill_child h)

  pub Adds-run :
      (cmd : Command) (timeout cap : ℕ)
      → P (spawned cmd)
      → P killed
      → Adds P (run os cmd timeout cap)
  unfolding run
  Adds-run cmd timeout cap spawns kills = search (adds_rules, Adds-finish kills, spawns)

  -- Any command but that which rewrites a header.
  pub Adds-run-Allows :
      Allows P
      → (cmd : Command) (timeout cap : ℕ) → is_enroll cmd ≡ false
      → Adds P (run os cmd timeout cap)
  Adds-run-Allows h cmd timeout cap harmless =
      Adds-run cmd timeout cap (h.spawning cmd harmless) h.killing

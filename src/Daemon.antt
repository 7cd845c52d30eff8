-- ===== src/Daemon.antt =====
-- src/main.rs, `serve`: the loop that accepts connections until the daemon is no longer needed.
mod Tests
pub mod Justified
pub mod Sound
pub mod Keeps
pub mod Rewrites
pub mod Idle
pub mod Done
use tpm2_autoenroll.Base.{
  leb, ◌==◌, if◌then◌else◌, Bytes, ℕ, zero, suc, ◌-◌, Bool, true, false, Option, none, some, List,
  [], ◌∷◌, map,
}
use tpm2_autoenroll.Base.Results.{Result, ok, err}
use tpm2_autoenroll.Acquire.{terminating}
use tpm2_autoenroll.Config.{Volume}
use tpm2_autoenroll.Consent.{undecided, add_member, is_member}
use tpm2_autoenroll.Dm.{is_active, sys_block}
use tpm2_autoenroll.Finished.{Stop, all_answered, idle_too_long, idle_limit}
use tpm2_autoenroll.Json.{Json}
use tpm2_autoenroll.Os.{Os, Sys, ask}
use tpm2_autoenroll.Serve.{Memory, Contact, counts, handle, replied, still_writing, eintr}

-- `struct Listener`
pub record Listener : Type 0 where
  pub fd : ℕ
  pub path : Bytes
  pub volume : Volume

-- The variables of `serve`.
pub record Loop : Type 0 where
  pub memory : Memory
  pub served : List Bytes
  pub last_contact : ℕ

-- How `serve` ends; `running` means that the fuel ran out.
pub data End : Type 0 where
  success failure running : End

-- What a pass through the loop comes to: the next pass, or the end.
pub data Turn : Type 0 where
  go_on : Loop → Turn
  leave : End → Loop → Turn

-- The listeners whose sockets are ready.
pub pick : List Listener → List Bool → List Listener
pick [] readies = []
pick (l ∷ ls) [] = []
pick (l ∷ ls) (true ∷ readies) = l ∷ pick ls readies
pick (l ∷ ls) (false ∷ readies) = pick ls readies

-- Whether the reply to a connection is still being written.
pub is_writing : Contact → Bool
is_writing (replied still_writing) = true
is_writing _ = false

module _ (os : Os) where
  -- `all(|v| served.contains(v) || active(v))`, which asks about a volume only when it has to.
  pub all_done : List Bytes → List Bytes → Sys os → Bool × Sys os
  all_done served [] s = (true, s)
  all_done served (v ∷ volumes) s = elim (is_member v served) [
    | true ↦ all_done served volumes s
    | false ↦
        let active = is_active os sys_block v s in
        elim active.0 [ true ↦ all_done served volumes active.1 | false ↦ (false, active.1) ]
  ]

  -- The call of `finished` in `serve`.
  pub finished_now : List Bytes → Loop → Sys os → Option Stop × Sys os
  finished_now volumes loop s =
      let now = ask os os.seconds s in
      let done = all_done loop.served volumes now.1 in
      (
        if done.0
            then some all_answered
            else if leb idle_limit (now.0 - loop.last_contact)
            then some idle_too_long
            else none,
        done.1,
      )

  module _ (json : Json) (fuel : ℕ) where
    -- What `serve` keeps of a connection that was handled.
    after_contact : Volume → Loop → (Contact × Memory) × Sys os → Turn × Sys os
    after_contact volume loop ((contact, memory), s) =
        let now = ask os os.seconds s in
        if is_writing contact
        then (leave running (record loop { memory = memory }), s)
        else if counts contact
        then (
          go_on (record {
            memory = memory;
            served = add_member volume.name loop.served;
            last_contact = now.0;
          }),
          now.1,
        )
        else (go_on (record loop { memory = memory }), s)

    -- A failure of `accept` is at most logged.
    after_accept : Volume → Loop → Result ℕ ℕ × Sys os → Turn × Sys os
    after_accept volume loop (ok conn, s) =
        after_contact volume loop (handle os json fuel conn volume loop.memory s)
    after_accept volume loop (err e, s) = (go_on loop, s)

    -- `for i in ready`
    pub answer_each : List Listener → Loop → Sys os → Turn × Sys os
    answer_each [] loop s = (go_on loop, s)
    answer_each (l ∷ ls) loop s =
        let answered = after_accept l.volume loop (ask os (os.accept l.fd) s) in
        elim answered.0 [
          | leave end loop' ↦ (leave end loop', answered.1)
          | go_on loop' ↦
              let asked = terminating os answered.1 in
              elim asked.0 [
                | true ↦ (leave success loop', asked.1)
                | false ↦ answer_each ls loop' asked.1
              ]
        ]

    -- The match on what `poll` returned.
    after_poll : List Listener → Loop → Result ℕ (List Bool) → Sys os → Turn × Sys os
    after_poll listeners loop (ok readies) s = answer_each (pick listeners readies) loop s
    after_poll listeners loop (err e) s = (if e == eintr then go_on loop else leave failure loop, s)

    -- A pass through the loop that does not find the daemon finished.
    poll_once : List Listener → Loop → Sys os → Turn × Sys os
    poll_once listeners loop s =
        let woken = ask os (os.poll_listeners (map (λ l. l.fd) listeners)) s in
        let asked = terminating os woken.1 in
        elim asked.0 [
          | true ↦ (leave success loop, asked.1)
          | false ↦ after_poll listeners loop woken.0 asked.1
        ]

    -- The body of the loop.
    pub turn : List Listener → Loop → Sys os → Turn × Sys os
    turn listeners loop s =
        let stop = finished_now (map (λ l. l.volume.name) listeners) loop s in
        elim stop.0 [
          | some why ↦ (leave success loop, stop.1)
          | none ↦ poll_once listeners loop stop.1
        ]

    -- The loop, on fuel.
    pub serve_from : ℕ → List Listener → Loop → Sys os → (End × Loop) × Sys os
    serve_from zero listeners loop s = ((running, loop), s)
    serve_from (suc n) listeners loop s =
        let turned = turn listeners loop s in
        elim turned.0 [
          | leave end loop' ↦ ((end, loop'), turned.1)
          | go_on loop' ↦ serve_from n listeners loop' turned.1
        ]

    -- `serve`
    pub serve : ℕ → List Listener → Sys os → (End × Loop) × Sys os
    serve n listeners s =
        let now = ask os os.seconds s in
        serve_from n listeners
          (record {
            memory = record { cache = []; decided = undecided };
            served = [];
            last_contact = now.0;
          })
          now.1

-- ===== src/Daemon/Idle.antt =====
-- A daemon that nobody contacts comes to an end.
use tpm2_autoenroll.Base.{
  leb, if◌then◌else◌, Bool-cases, Option-cases, length, replicate, Bytes, ℕ, zero, suc, ◌+◌, ◌-◌,
  ◌≤◌, ◌<◌, ◌≡◌, refl, ap, ◌⊎◌, inl, inr, Bool, false, none, some, List, [], ◌∷◌, map, arith,
}
use tpm2_autoenroll.Base.Results.{Result, ok, err}
use tpm2_autoenroll.Acquire.{terminating}
use tpm2_autoenroll.Consent.{is_member}
use tpm2_autoenroll.Daemon.{
  Listener, Loop, success, go_on, leave, pick, all_done, finished_now, answer_each, after_poll,
  poll_once, turn, serve_from, serve,
}
use tpm2_autoenroll.Dm.{
  is_dm, check_entry, any_entry, with_dir, is_active, sys_block, name_path, uuid_path,
}
use tpm2_autoenroll.Finished.{all_answered, idle_too_long}
use tpm2_autoenroll.Json.{Json}
use tpm2_autoenroll.Os.{Os, Sys, ask}

-- A system on which no socket becomes ready. Its clock never goes back, and a poll that times out
-- takes a second at least.
pub record Idle (os : Os) : Type 0 where
  pub time : os.World → ℕ
  pub clock : (w : os.World) → ((os.seconds w).0 ≡ time w) × (time w ≤ time (os.seconds w).1)
  pub polled :
      (fds : List ℕ) (w : os.World)
      → (os.poll_listeners fds w).0 ≡ ok (replicate (length fds) false)
  pub tick : (fds : List ℕ) (w : os.World) → time w < time (os.poll_listeners fds w).1
  pub dir : (path : Bytes) (w : os.World) → time w ≤ time (os.read_dir path w).1
  pub text : (path : Bytes) (w : os.World) → time w ≤ time (os.read_text path w).1
  pub flag : (w : os.World) → time w ≤ time (os.terminate w).1

pick-none : (ls : List Listener) (n : ℕ) → pick ls (replicate n false) ≡ []
unfolding pick
pick-none [] n = refl
pick-none (l ∷ ls) zero = refl
pick-none (l ∷ ls) (suc n) = pick-none ls n

none_yet :
    (done late : Bool)
    → (if done then some all_answered else if late then some idle_too_long else none) ≡ none
    → late ≡ false
none_yet done late h = ground arith

module _ {os : Os} (idle : Idle os) where
  now : Sys os → ℕ
  now s = idle.time s.world

  check_later :
      (dir volume entry : Bytes) (s : Sys os) → now s ≤ now (check_entry os dir volume entry s).1
  unfolding check_entry now ask
  check_later dir volume entry s = omega (
    arith,
    idle.text (name_path dir entry) s.world,
    idle.text (uuid_path dir entry) (os.read_text (name_path dir entry) s.world).1,
  )

  any_later :
      (dir volume : Bytes) (entries : List Bytes) (s : Sys os)
      → now s ≤ now (any_entry os dir volume entries s).1
  unfolding any_entry
  any_later dir volume [] s = omega arith
  any_later dir volume (entry ∷ entries) s =
      let checked = check_entry os dir volume entry s in
      elim (Bool-cases (is_dm entry)) [
        | inr e ↦ rw (any_entry, e) (any_later dir volume entries s)
        | inl e ↦ elim (Bool-cases checked.0) [
          | inl f ↦ rw (any_entry, e, f) (check_later dir volume entry s)
          | inr f ↦
              rw (any_entry, e, f)
                (omega
                  (arith, check_later dir volume entry s, any_later dir volume entries checked.1))
        ]
      ]

  dir_later :
      (dir volume : Bytes) (r : Result ℕ (List Bytes)) (s : Sys os)
      → now s ≤ now (with_dir os dir volume (r, s)).1
  unfolding with_dir
  dir_later dir volume (ok entries) s = any_later dir volume entries s
  dir_later dir volume (err e) s = omega arith

  active_later : (dir volume : Bytes) (s : Sys os) → now s ≤ now (is_active os dir volume s).1
  unfolding is_active now ask
  active_later dir volume s =
      let listed = ask os (os.read_dir dir) s in
      omega (arith, idle.dir dir s.world, dir_later dir volume listed.0 listed.1)

  done_later :
      (served volumes : List Bytes) (s : Sys os) → now s ≤ now (all_done os served volumes s).1
  unfolding all_done
  done_later served [] s = omega arith
  done_later served (v ∷ volumes) s =
      let active = is_active os sys_block v s in
      elim (Bool-cases (is_member v served)) [
        | inl e ↦ rw (all_done, e) (done_later served volumes s)
        | inr e ↦ elim (Bool-cases active.0) [
          | inl f ↦
              rw (all_done, e, f)
                (omega (arith, active_later sys_block v s, done_later served volumes active.1))
          | inr f ↦ rw (all_done, e, f) (active_later sys_block v s)
        ]
      ]

  finished_later :
      (volumes : List Bytes) (loop : Loop) (s : Sys os)
      → now s ≤ now (finished_now os volumes loop s).1
  unfolding finished_now now ask
  finished_later volumes loop s =
      let asked = ask os os.seconds s in
      omega (arith, (idle.clock s.world).1, done_later loop.served volumes asked.1)

  -- While the daemon goes on, the last contact is less than five minutes ago.
  going_on :
      (volumes : List Bytes) (loop : Loop) (s : Sys os)
      → (finished_now os volumes loop s).0 ≡ none
      → now s < loop.last_contact + 300
  unfolding finished_now now ask
  going_on volumes loop s h =
      let late : leb 300 ((os.seconds s.world).0 - loop.last_contact) ≡ false =
        none_yet (all_done os loop.served volumes (ask os os.seconds s).1).0 _ h in
      ground (arith, (idle.clock s.world).0, late)

  module _ (json : Json) (fuel : ℕ) (listeners : List Listener) where
    quiet_poll :
        (loop : Loop) (s t : Sys os)
        → after_poll os json fuel listeners loop
            (ask os (os.poll_listeners (map (λ l. l.fd) listeners)) s).0
            t
          ≡ (go_on loop, t)
    unfolding after_poll answer_each ask
    quiet_poll loop s t =
        let fds = map (λ l. l.fd) listeners in
        rw (idle.polled fds s.world, pick-none listeners (length fds))

    -- What a pass comes to on this system.
    turned :
        (loop : Loop) (s : Sys os)
        → let stop = finished_now os (map (λ l. l.volume.name) listeners) loop s in
          let asked =
            terminating os (ask os (os.poll_listeners (map (λ l. l.fd) listeners)) stop.1).1 in
          ((t : Sys os) × (turn os json fuel listeners loop s ≡ (leave success loop, t)))
          ⊎ (stop.0 ≡ none) × (turn os json fuel listeners loop s ≡ (go_on loop, asked.1))
    unfolding turn poll_once
    turned loop s =
        let stop = finished_now os (map (λ l. l.volume.name) listeners) loop s in
        let asked =
          terminating os (ask os (os.poll_listeners (map (λ l. l.fd) listeners)) stop.1).1 in
        elim (Option-cases stop.0) [
          | inr (why, e) ↦ inl (stop.1, rw (turn, e))
          | inl e ↦ elim (Bool-cases asked.0) [
            | inl f ↦ inl (asked.1, rw (turn, e, poll_once, f))
            | inr f ↦ inr (e, rw (turn, e, poll_once, f, quiet_poll loop stop.1 asked.1))
          ]
        ]

    tick_later :
        (s : Sys os)
        → now s
          < now (terminating os (ask os (os.poll_listeners (map (λ l. l.fd) listeners)) s).1).1
    unfolding now ask terminating
    tick_later s =
        let fds = map (λ l. l.fd) listeners in
        omega (arith, idle.tick fds s.world, idle.flag (os.poll_listeners fds s.world).1)

    serve_from-idle :
        (n : ℕ) (loop : Loop) (s : Sys os)
        → loop.last_contact + 300 < now s + n
        → 0 < n
        → (serve_from os json fuel n listeners loop s).0.0 ≡ success
    unfolding serve_from
    serve_from-idle zero loop s enough some_fuel = absurd (omega arith)
    serve_from-idle (suc n) loop s enough some_fuel =
        let volumes = map (λ l. l.volume.name) listeners in
        let stop = finished_now os volumes loop s in
        elim (turned loop s) [
          | inl (t, e) ↦ rw (serve_from, e)
          | inr (e, f) ↦
              let same : now (turn os json fuel listeners loop s).1 ≡ now _ = ap (λ r. now r.1) f in
              rw (serve_from, f)
                (serve_from-idle n loop _
                  (omega (arith, same, tick_later stop.1, finished_later volumes loop s))
                  (omega (arith, going_on volumes loop s e)))
        ]

    -- When no socket becomes ready and the clock goes on, then 301 passes through the loop are enough: the
    -- daemon ends by itself, with success.
    pub serve-ends :
        (n : ℕ) (s : Sys os) → 300 < n → (serve os json fuel n listeners s).0.0 ≡ success
    unfolding serve now ask
    serve-ends n s enough =
        serve_from-idle n _ (ask os os.seconds s).1
          (omega (arith, (idle.clock s.world).0, (idle.clock s.world).1)) (omega arith)

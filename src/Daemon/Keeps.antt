-- ===== src/Daemon/Keeps.antt =====
-- What the handling of each connection keeps, the whole life of the daemon keeps.
use mathlib.Core.List.{Memᴰ}
use mathlib.Core.Path.{subst}
use tpm2_autoenroll.Base.{
  ◌==◌, Bool-cases, Option-cases, Bytes, ℕ, zero, suc, ◌≡◌, refl, ◌⊎◌, inl, inr, Bool, true, false,
  List, [], ◌∷◌, map,
}
use tpm2_autoenroll.Base.Results.{Result, ok, err}
use tpm2_autoenroll.Acquire.{terminating}
use tpm2_autoenroll.Acquire.Adds.{Adds-terminating}
use tpm2_autoenroll.Cache.{Distinct}
use tpm2_autoenroll.Config.{Volume}
use tpm2_autoenroll.Consent.{is_member}
use tpm2_autoenroll.Daemon.{
  Listener, Loop, End, Turn, go_on, leave, pick, is_writing, all_done, finished_now, after_contact,
  after_accept, answer_each, after_poll, poll_once, turn, serve_from, serve,
}
use tpm2_autoenroll.Dm.{is_active, sys_block}
use tpm2_autoenroll.Dm.Adds.{Adds-is_active}
use tpm2_autoenroll.Json.{Json}
use tpm2_autoenroll.Os.{Os, Sys, ask}
use tpm2_autoenroll.Os.Adds.{still, Extends, Extends-refl, Extends-trans, Adds-ask}
use tpm2_autoenroll.Serve.{Memory, Contact, counts, handle, eintr}
use tpm2_autoenroll.Serve.Reply.{IsSound}

loop_of : Turn → Loop
loop_of (go_on loop) = loop
loop_of (leave end loop) = loop

pick_sub :
    (l : Listener) (ls : List Listener) (readies : List Bool) → Memᴰ l (pick ls readies) → Memᴰ l ls
unfolding pick
pick_sub l [] readies m = m
pick_sub l (k ∷ ls) [] m = elim m [ ]
pick_sub l (k ∷ ls) (true ∷ readies) (Memᴰ.head e) = Memᴰ.head e
pick_sub l (k ∷ ls) (true ∷ readies) (Memᴰ.tail m) = Memᴰ.tail (pick_sub l ls readies m)
pick_sub l (k ∷ ls) (false ∷ readies) m = Memᴰ.tail (pick_sub l ls readies m)

Turn-cases :
    (t : Turn)
    → ((loop : Loop) × (t ≡ go_on loop)) ⊎ ((end : End) × (loop : Loop) × (t ≡ leave end loop))
Turn-cases (go_on loop) = inl (loop, refl)
Turn-cases (leave end loop) = inr (end, loop, refl)

-- A relation between the states of a run: it holds where nothing is done to the outside, and two
-- stretches make one.
pub record IsCourse {os : Os} (R : Sys os → Sys os → Type 0) : Type 0 where
  pub rests : {s t : Sys os} → t.trace ≡ s.trace → R s t
  pub joins : {s t u : Sys os} → R s t → R t u → R s u

-- Such a relation that holds wherever a connection is accepted and handled.
module _ (os : Os) (json : Json) (fuel : ℕ) (listeners : List Listener)
    (R : Sys os → Sys os → Type 0) (course : IsCourse R)
    (keeps : (conn : ℕ) (l : Listener) (memory : Memory) (s : Sys os)
      → Memᴰ l listeners
      → (ask os (os.accept l.fd) s).0 ≡ ok conn
      → IsSound os memory
      → R s (handle os json fuel conn l.volume memory (ask os (os.accept l.fd) s).1).1
        × IsSound os
            (handle os json fuel conn l.volume memory (ask os (os.accept l.fd) s).1).0.1) where
  unmarked : {s t : Sys os} → Extends (λ e. ⊥) s t → R s t
  unmarked e = course.rests (still e)

  -- The relation, and a sound memory.
  record Keeps (s : Sys os) (out : Turn × Sys os) : Type 0 where
    grown : R s out.1
    sound : IsSound os (loop_of out.0).memory

  contact_Keeps :
      (volume : Volume) (loop : Loop) (r : Contact × Memory) (s : Sys os)
      → IsSound os r.1
      → Keeps s (after_contact os json fuel volume loop (r, s))
  unfolding after_contact loop_of
  contact_Keeps volume loop (contact, memory) s sound = elim (Bool-cases (is_writing contact)) [
    | inl e ↦ rw (after_contact, e) (record { grown = course.rests refl; sound = sound })
    | inr e ↦ elim (Bool-cases (counts contact)) [
      | inl f ↦
          rw (after_contact, e, f)
            (record { grown = unmarked ((Adds-ask os.seconds).at s); sound = sound })
      | inr f ↦ rw (after_contact, e, f) (record { grown = course.rests refl; sound = sound })
    ]
  ]

  then_Keeps : {s t : Sys os} {out : Turn × Sys os} → R s t → Keeps t out → Keeps s out
  then_Keeps e k = record { grown = course.joins e k.grown; sound = k.sound }

  accept_Keeps :
      (l : Listener) (loop : Loop) (r : Result ℕ ℕ) (s : Sys os)
      → Memᴰ l listeners
      → (ask os (os.accept l.fd) s).0 ≡ r
      → IsSound os loop.memory
      → Keeps s (after_accept os json fuel l.volume loop (r, (ask os (os.accept l.fd) s).1))
  unfolding after_accept loop_of
  accept_Keeps l loop (err e) s here got sound = record {
    grown = unmarked ((Adds-ask (os.accept l.fd)).at s);
    sound = sound;
  }
  accept_Keeps l loop (ok conn) s here got sound =
      let accepted = (ask os (os.accept l.fd) s).1 in
      let handled = handle os json fuel conn l.volume loop.memory accepted in
      let fair = keeps conn l loop.memory s here got sound in
      then_Keeps fair.0 (contact_Keeps l.volume loop handled.0 handled.1 fair.1)

  each_Keeps :
      (ls : List Listener) (loop : Loop) (s : Sys os)
      → ((l : Listener) → Memᴰ l ls → Memᴰ l listeners)
      → IsSound os loop.memory
      → Keeps s (answer_each os json fuel ls loop s)
  unfolding answer_each loop_of
  each_Keeps [] loop s here sound = record { grown = course.rests refl; sound = sound }
  each_Keeps (l ∷ ls) loop s here sound =
      let accepted = ask os (os.accept l.fd) s in
      let answered = after_accept os json fuel l.volume loop accepted in
      let asked = terminating os answered.1 in
      let kept = accept_Keeps l loop accepted.0 s (here l (Memᴰ.head refl)) refl sound in
      elim (Turn-cases answered.0) [
        | inr (end, loop', e) ↦
            rw (answer_each, e)
              (record {
                grown = kept.grown;
                sound = subst (λ r. IsSound os (loop_of r).memory) e kept.sound;
              })
        | inl (loop', e) ↦
            let sound' : IsSound os loop'.memory =
              subst (λ r. IsSound os (loop_of r).memory) e kept.sound in
            let so_far = course.joins kept.grown (unmarked (Adds-terminating.at answered.1)) in
            elim (Bool-cases asked.0) [
              | inl f ↦ rw (answer_each, e, f) (record { grown = so_far; sound = sound' })
              | inr f ↦
                  rw (answer_each, e, f)
                    (then_Keeps so_far
                      (each_Keeps ls loop' asked.1 (λ k m. here k (Memᴰ.tail m)) sound'))
            ]
      ]

  all_done_at :
      (served volumes : List Bytes) (s : Sys os)
      → Extends (λ e. ⊥) s (all_done os served volumes s).1
  unfolding all_done
  all_done_at served [] s = Extends-refl s
  all_done_at served (v ∷ volumes) s =
      let active = is_active os sys_block v s in
      let looked = (Adds-is_active sys_block v).at s in
      elim (Bool-cases (is_member v served)) [
        | inl e ↦ rw (all_done, e) (all_done_at served volumes s)
        | inr e ↦ elim (Bool-cases active.0) [
          | inl f ↦ rw (all_done, e, f) (Extends-trans looked (all_done_at served volumes active.1))
          | inr f ↦ rw (all_done, e, f) looked
        ]
      ]

  finished_at :
      (volumes : List Bytes) (loop : Loop) (s : Sys os)
      → Extends (λ e. ⊥) s (finished_now os volumes loop s).1
  unfolding finished_now
  finished_at volumes loop s =
      Extends-trans ((Adds-ask os.seconds).at s)
        (all_done_at loop.served volumes (ask os os.seconds s).1)

  poll_Keeps :
      (loop : Loop) (r : Result ℕ (List Bool)) (s : Sys os)
      → IsSound os loop.memory
      → Keeps s (after_poll os json fuel listeners loop r s)
  unfolding after_poll loop_of
  poll_Keeps loop (ok readies) s sound =
      each_Keeps (pick listeners readies) loop s (λ l. pick_sub l listeners readies) sound
  poll_Keeps loop (err e) s sound = elim (Bool-cases (e == eintr)) [
    | inl f ↦ rw (after_poll, f) (record { grown = course.rests refl; sound = sound })
    | inr f ↦ rw (after_poll, f) (record { grown = course.rests refl; sound = sound })
  ]

  once_Keeps :
      (loop : Loop) (s : Sys os)
      → IsSound os loop.memory
      → Keeps s (poll_once os json fuel listeners loop s)
  unfolding poll_once loop_of
  once_Keeps loop s sound =
      let woken = ask os (os.poll_listeners (map (λ l. l.fd) listeners)) s in
      let asked = terminating os woken.1 in
      let so_far =
        course.joins (unmarked ((Adds-ask (os.poll_listeners (map (λ l. l.fd) listeners))).at s))
          (unmarked (Adds-terminating.at woken.1)) in
      elim (Bool-cases asked.0) [
        | inl e ↦ rw (poll_once, e) (record { grown = so_far; sound = sound })
        | inr e ↦ rw (poll_once, e) (then_Keeps so_far (poll_Keeps loop woken.0 asked.1 sound))
      ]

  turn-Keeps :
      (loop : Loop) (s : Sys os)
      → IsSound os loop.memory
      → Keeps s (turn os json fuel listeners loop s)
  unfolding turn loop_of
  turn-Keeps loop s sound =
      let volumes = map (λ l. l.volume.name) listeners in
      let stop = finished_now os volumes loop s in
      elim (Option-cases stop.0) [
        | inr (why, e) ↦
            rw (turn, e) (record { grown = unmarked (finished_at volumes loop s); sound = sound })
        | inl e ↦
            rw (turn, e)
              (then_Keeps (unmarked (finished_at volumes loop s)) (once_Keeps loop stop.1 sound))
      ]

  serve_from_Keeps :
      (n : ℕ) (loop : Loop) (s : Sys os)
      → IsSound os loop.memory
      → R s (serve_from os json fuel n listeners loop s).1
        × IsSound os (serve_from os json fuel n listeners loop s).0.1.memory
  unfolding serve_from loop_of
  serve_from_Keeps zero loop s sound = (course.rests refl, sound)
  serve_from_Keeps (suc n) loop s sound =
      let turned = turn os json fuel listeners loop s in
      let kept = turn-Keeps loop s sound in
      elim (Turn-cases turned.0) [
        | inr (end, loop', e) ↦
            rw (serve_from, e)
              ((kept.grown, subst (λ r. IsSound os (loop_of r).memory) e kept.sound))
        | inl (loop', e) ↦
            let later =
              serve_from_Keeps n loop' turned.1
                (subst (λ r. IsSound os (loop_of r).memory) e kept.sound) in
            rw (serve_from, e) ((course.joins kept.grown later.0, later.1))
      ]

  -- The cache is empty at the start, so it is sound.
  pub serve-Keeps :
      (n : ℕ) (s : Sys os)
      → R s (serve os json fuel n listeners s).1
        × IsSound os (serve os json fuel n listeners s).0.1.memory
  unfolding serve IsSound Distinct
  serve-Keeps n s =
      let later = serve_from_Keeps n _ (ask os os.seconds s).1 (tt, tt) in
      (course.joins (unmarked ((Adds-ask os.seconds).at s)) later.0, later.1)

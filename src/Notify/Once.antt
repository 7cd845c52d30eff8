-- ===== src/Notify/Once.antt =====
-- What systemd is told, and when.
use mathlib.Core.List.{append-nil, append_assoc}
use tpm2_autoenroll.Base.{
  Bytes, ℕ, ◌≡◌, refl, ap, ◌∙◌, ◌⊎◌, inl, inr, Option, none, some, List, [], ◌∷◌, ◌++◌,
}
use tpm2_autoenroll.Base.Results.{Result, ok, err}
use tpm2_autoenroll.Base.Exec.{Exec, pure, map_err, ◌>>=◌, continue}
use tpm2_autoenroll.Notify.{
  fits, send, notify, ready, target_of, notify_socket, ready_message, no_sendto,
}
use tpm2_autoenroll.Os.{Os, Sys, Target, to_path, to_abstract, Event, ask, perform, told, unset}
use tpm2_autoenroll.Os.Emits.{Emits, emits_rules}

-- From the trace `s` to the trace `t` nothing was done, or exactly `e`.
pub AtMost : Event → List Event → List Event → Type 0
AtMost e s t = (t ≡ s) ⊎ (t ≡ s ++ e ∷ [])

-- From the trace `s` to the trace `t` nothing was done when the variable is not set; when it is, it
-- was removed, and then the message was sent at most once, to the address that it gives.
pub TellsOnce : Option Bytes → List Event → List Event → Type 0
TellsOnce none s t = t ≡ s
TellsOnce (some name) s t =
    (t ≡ s ++ unset notify_socket ∷ [])
    ⊎ (t ≡ s ++ unset notify_socket ∷ told (target_of name) ready_message ∷ [])

module _ {os : Os} where
  AtMost-bind :
      {E A B : Type 0} (e : Event) (m : Exec (Sys os) E A) (f : A → Exec (Sys os) E B) (s : Sys os)
      → Emits [] m
      → ((a : A) (t : Sys os) → AtMost e t.trace (f a t).1.trace)
      → AtMost e s.trace ((m >>= f) s).1.trace
  unfolding ◌>>=◌ AtMost
  AtMost-bind {E} {A} e m f s quiet next = rest (m s).0 (m s).1 (quiet.at s ∙ append-nil s.trace)
    where
      rest :
          (r : Result E A) (t : Sys os)
          → t.trace ≡ s.trace
          → AtMost e s.trace (continue r f t).1.trace
      rest (err why) t same = inl same
      rest (ok a) t same = elim (next a t) [
        | inl quiet' ↦ inl (quiet' ∙ same)
        | inr grown ↦ inr (grown ∙ ap (λ l. l ++ e ∷ []) same)
      ]

  Emits-fits : (target : Target) → Emits [] (fits os target)
  unfolding fits
  Emits-fits (to_path path) = search emits_rules
  Emits-fits (to_abstract name) = search emits_rules

  send-AtMost :
      (socket message : Bytes) (s : Sys os)
      → AtMost (told (target_of socket) message) s.trace (send os socket message s).1.trace
  unfolding send AtMost
  send-AtMost socket message s =
      AtMost-bind _ (fits os (target_of socket)) _ s (Emits-fits (target_of socket))
        λ a t. AtMost-bind _ _ _ t (search emits_rules) λ fd u. inr ((last fd).at u)
    where
      last :
          (fd : ℕ)
          → Emits (told (target_of socket) message ∷ []) (
              map_err no_sendto (
                perform os
                  (told (target_of socket) message)
                  (os.sendto fd message (target_of socket)))
              >>= λ n. pure tt)
      last fd = search emits_rules depth 20

  notify-TellsOnce :
      (socket : Option Bytes) (s : Sys os) → TellsOnce socket s.trace (notify os socket s).1.trace
  unfolding notify TellsOnce AtMost perform
  notify-TellsOnce none s = refl
  notify-TellsOnce (some socket) s =
      let alone = perform os (unset notify_socket) (os.remove_var notify_socket) s in
      elim (send-AtMost socket ready_message alone.1) [
        | inl quiet ↦ inl quiet
        | inr sent ↦ inr (sent ∙ append_assoc s.trace _ _)
      ]

  -- Telling systemd that the daemon is ready removes NOTIFY_SOCKET from the environment before anything
  -- is sent, and sends READY=1 at most once, to the address that the variable gave; when it is not set,
  -- nothing is done.
  pub ready-TellsOnce :
      (s : Sys os) → TellsOnce (ask os (os.env_var notify_socket) s).0 s.trace (ready os s).1.trace
  unfolding ready ask
  ready-TellsOnce s =
      notify-TellsOnce (ask os (os.env_var notify_socket) s).0
        (ask os (os.env_var notify_socket) s).1

-- ===== src/Daemon/Justified.antt =====
-- What connections are sent is asked for and tested.
use mathlib.Core.List.{Memᴰ}
use tpm2_autoenroll.Base.{ℕ, ◌≡◌, sym, ◌∙◌, inl, inr, List, []}
use tpm2_autoenroll.Base.Results.{ok}
use tpm2_autoenroll.Daemon.{Listener}
use tpm2_autoenroll.Daemon.Keeps.{IsCourse}
use tpm2_autoenroll.Json.{Json}
use tpm2_autoenroll.Os.{Os, Sys, ask}
use mathlib.Core.List.{append-nil}
use tpm2_autoenroll.Os.Adds.{Extends, Extends-trans, Adds-ask}
use mathlib.Core.List.{append-nil}
use tpm2_autoenroll.Serve.{Memory, Contact, handle}
use tpm2_autoenroll.Serve.Reply.{Silent, IsSound, Answered, handle-Answered}

module _ (os : Os) (json : Json) (fuel : ℕ) (listeners : List Listener) where
  -- From one state to another, stretches in which no connection is sent anything alternate with
  -- contacts: a connection that was accepted on the socket of a listener, and was answered for the
  -- volume of that listener from the state after the accept on.
  pub data Justified : Sys os → Sys os → Type 0 where
    quiet : {s t : Sys os} → Extends Silent s t → Justified s t
    answered :
        {s : Sys os} {out : (Contact × Memory) × Sys os} (l : Listener) (conn : ℕ)
        → Memᴰ l listeners
        → (ask os (os.accept l.fd) s).0 ≡ ok conn
        → Answered json fuel conn l.volume (ask os (os.accept l.fd) s).1 out
        → Justified s out.1
    joined : {s t u : Sys os} → Justified s t → Justified t u → Justified s u

  pub Justified-IsCourse : IsCourse Justified
  Justified-IsCourse = record {
    rests =
        λ {s} same. quiet (record { new = []; grown = same ∙ sym (append-nil s.trace); each = tt });
    joins = λ a b. joined a b;
  }

  pub handle-Justified :
      (conn : ℕ) (l : Listener) (memory : Memory) (s : Sys os)
      → Memᴰ l listeners
      → (ask os (os.accept l.fd) s).0 ≡ ok conn
      → IsSound os memory
      → Justified s (handle os json fuel conn l.volume memory (ask os (os.accept l.fd) s).1).1
        × IsSound os (handle os json fuel conn l.volume memory (ask os (os.accept l.fd) s).1).0.1
  handle-Justified conn l memory s here accepted sound =
      let fair =
        handle-Answered json fuel conn l.volume memory (ask os (os.accept l.fd) s).1 sound in
      (
        elim fair.0 [
          | inl e ↦ quiet (Extends-trans ((Adds-ask (os.accept l.fd)).at s) e)
          | inr a ↦ answered l conn here accepted a
        ],
        fair.1,
      )

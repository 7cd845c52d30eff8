-- ===== src/Os/Emits.antt =====
-- Which events a call adds to the trace, one rule for each way to build a call.
use mathlib.Core.List.{append-nil}
use tpm2_autoenroll.Base.{◌≡◌, refl, ◌∙◌, List, [], ◌∷◌, ◌++◌}
use tpm2_autoenroll.Base.Results.{Result, ok, err}
use tpm2_autoenroll.Base.Exec.{Exec, pure, raise, lift, calls, attempt, map_err, ◌>>=◌, continue}
use tpm2_autoenroll.Os.{Os, Sys, Event, ask, perform}

-- `m` adds the events `new`, whether it succeeds or fails.
pub record Emits {os : Os} {E A : Type 0} (new : List Event) (m : Exec (Sys os) E A) : Type 0 where
  pub at : (s : Sys os) → (m s).1.trace ≡ s.trace ++ new

module _ {os : Os} {E A : Type 0} where
  pub Emits-pure : (a : A) → Emits {os = os} {E = E} [] (pure a)
  unfolding ◌>>=◌
  Emits-pure a = record { at = λ s. rw append-nil }

  pub Emits-raise : (e : E) → Emits {os = os} {A = A} [] (raise e)
  unfolding ◌>>=◌
  Emits-raise e = record { at = λ s. rw append-nil }

  pub Emits-lift : (r : Result E A) → Emits {os = os} [] (lift r)
  unfolding ◌>>=◌
  Emits-lift r = record { at = λ s. rw append-nil }

  pub Emits-ask : (call : os.World → Result E A × os.World) → Emits [] (ask os call)
  unfolding ask
  Emits-ask call = record { at = λ s. rw append-nil }

  pub Emits-calls : (call : os.World → A × os.World) → Emits {E = E} [] (calls (ask os call))
  unfolding ◌>>=◌ ask
  Emits-calls call = record { at = λ s. rw append-nil }

  pub Emits-perform :
      (e : Event) (call : os.World → Result E A × os.World) → Emits (e ∷ []) (perform os e call)
  unfolding perform
  Emits-perform e call = record { at = λ s. refl }

  pub Emits-attempt :
      {F : Type 0} {new : List Event} (m : Exec (Sys os) E A)
      → Emits new m
      → Emits {E = F} new (attempt m)
  unfolding ◌>>=◌
  Emits-attempt m h = record { at = h.at }

  pub Emits-map_err :
      {F : Type 0} {new : List Event} (f : E → F) (m : Exec (Sys os) E A)
      → Emits new m
      → Emits new (map_err f m)
  unfolding ◌>>=◌
  Emits-map_err f m h = record { at = h.at }

module _ {os : Os} {E A B : Type 0} where
  -- What follows a call adds nothing.
  pub Emits-bind :
      {new : List Event} (m : Exec (Sys os) E A) (f : A → Exec (Sys os) E B)
      → Emits new m
      → ((a : A) → Emits [] (f a))
      → Emits new (m >>= f)
  unfolding ◌>>=◌
  Emits-bind {new} m f hm hf = record { at = λ s. rest (m s).0 (m s).1 ∙ hm.at s }
    where
      rest : (r : Result E A) (t : Sys os) → (continue r f t).1.trace ≡ t.trace
      rest (ok a) t = (hf a).at t ∙ append-nil t.trace
      rest (err e) t = refl

pub ruleset emits_rules = (
  Emits-pure, Emits-raise, Emits-lift, Emits-ask, Emits-calls, Emits-perform, Emits-attempt,
  Emits-map_err, Emits-bind,
)

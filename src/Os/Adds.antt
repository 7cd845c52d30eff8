-- ===== src/Os/Adds.antt =====
-- Which events a call may add to the trace, one rule for each way to build a call.
use mathlib.Core.List.{append-nil, append_assoc}
use tpm2_autoenroll.Base.{
  if◌then◌else◌, All, Bytes, codes, equal, ℕ, ◌≡◌, refl, sym, ap, ◌∙◌, Bool, true, false, List, [],
  ◌∷◌, ◌++◌,
}
use tpm2_autoenroll.Base.Results.{Result, ok, err}
use tpm2_autoenroll.Base.Exec.{Exec, pure, raise, lift, calls, attempt, map_err, ◌>>=◌, continue}
use tpm2_autoenroll.Os.{Os, Sys, Event, Command, killed, wrote, spawned, ask, perform}

-- From `s` to `t` the trace has grown by events of the kind `P` only.
pub record Extends {os : Os} (P : Event → Type 0) (s t : Sys os) : Type 0 where
  pub new : List Event
  pub grown : t.trace ≡ s.trace ++ new
  pub each : All P new

All-append-of : (P : Event → Type 0) (l m : List Event) → All P l → All P m → All P (l ++ m)
All-append-of P [] m hl hm = hm
All-append-of P (e ∷ l) m hl hm = (hl.0, All-append-of P l m hl.1 hm)

module _ {os : Os} {P : Event → Type 0} where
  pub Extends-refl : (s : Sys os) → Extends P s s
  Extends-refl s = record { new = []; grown = sym (append-nil s.trace); each = tt }

  pub Extends-trans : {s t u : Sys os} → Extends P s t → Extends P t u → Extends P s u
  Extends-trans {s} a b = record {
    new = a.new ++ b.new;
    grown = b.grown ∙ ap (λ l. l ++ b.new) a.grown ∙ append_assoc s.trace a.new b.new;
    each = All-append-of P a.new b.new a.each b.each;
  }

-- Events of one kind are events of a kind that includes it.
pub Extends-widen :
    {os : Os} {P Q : Event → Type 0} {s t : Sys os}
    → ((e : Event) → P e → Q e)
    → Extends P s t
    → Extends Q s t
Extends-widen {os} {P} {Q} h x = record { new = x.new; grown = x.grown; each = each x.new x.each }
  where
    each : (l : List Event) → All P l → All Q l
    each [] a = tt
    each (e ∷ l) a = (h e a.0, each l a.1)

-- Events of no kind are no events.
pub still : {os : Os} {s t : Sys os} → Extends (λ e. ⊥) s t → t.trace ≡ s.trace
still {os} {s} x = x.grown ∙ none_new x.new x.each
  where
    none_new : (l : List Event) → All (λ e. ⊥) l → s.trace ++ l ≡ s.trace
    none_new [] h = append-nil s.trace
    none_new (e ∷ l) h = absurd h.0

-- `m` adds events of the kind `P` only, whatever it returns.
pub record Adds {os : Os} {A : Type 0} (P : Event → Type 0) (m : Sys os → A × Sys os) : Type 0 where
  pub at : (s : Sys os) → Extends P s (m s).1

module _ {os : Os} {P : Event → Type 0} {A : Type 0} where
  pub Adds-ask : (call : os.World → A × os.World) → Adds P (ask os call)
  unfolding ask
  Adds-ask call = record {
    at = λ s. record { new = []; grown = sym (append-nil s.trace); each = tt };
  }

  pub Adds-perform : (e : Event) (call : os.World → A × os.World) → P e → Adds P (perform os e call)
  unfolding perform
  Adds-perform e call h = record { at = λ s. record { new = e ∷ []; grown = refl; each = (h, tt) } }

module _ {os : Os} {P : Event → Type 0} {E A : Type 0} where
  pub Adds-pure : (a : A) → Adds {os = os} {A = Result E A} P (pure a)
  unfolding ◌>>=◌
  Adds-pure a = record { at = λ s. Extends-refl s }

  pub Adds-raise : (e : E) → Adds {os = os} {A = Result E A} P (raise e)
  unfolding ◌>>=◌
  Adds-raise e = record { at = λ s. Extends-refl s }

  pub Adds-lift : (r : Result E A) → Adds {os = os} P (lift r)
  unfolding ◌>>=◌
  Adds-lift r = record { at = λ s. Extends-refl s }

  pub Adds-calls : (m : Sys os → A × Sys os) → Adds P m → Adds {A = Result E A} P (calls m)
  unfolding ◌>>=◌
  Adds-calls m h = record { at = h.at }

  pub Adds-attempt :
      {F : Type 0} (m : Exec (Sys os) E A)
      → Adds P m
      → Adds {A = Result F (Result E A)} P (attempt m)
  unfolding ◌>>=◌
  Adds-attempt m h = record { at = h.at }

  pub Adds-map_err :
      {F : Type 0} (f : E → F) (m : Exec (Sys os) E A) → Adds P m → Adds P (map_err f m)
  unfolding ◌>>=◌
  Adds-map_err f m h = record { at = h.at }

  pub Adds-if :
      (b : Bool) (m n : Exec (Sys os) E A) → Adds P m → Adds P n → Adds P (if b then m else n)
  Adds-if true m n hm hn = hm
  Adds-if false m n hm hn = hn

module _ {os : Os} {P : Event → Type 0} {E A B : Type 0} where
  pub Adds-bind :
      (m : Exec (Sys os) E A) (f : A → Exec (Sys os) E B)
      → Adds P m
      → ((a : A) → Adds P (f a))
      → Adds P (m >>= f)
  unfolding ◌>>=◌
  Adds-bind m f hm hf = record { at = λ s. Extends-trans (hm.at s) (rest (m s).0 (m s).1) }
    where
      rest : (r : Result E A) (t : Sys os) → Extends P t (continue r f t).1
      rest (ok a) t = (hf a).at t
      rest (err e) t = Extends-refl t

pub ruleset adds_rules = (
  Adds-ask, Adds-perform, Adds-pure, Adds-raise, Adds-lift, Adds-calls, Adds-attempt, Adds-map_err,
  Adds-if, Adds-bind,
)

-- Whether a command rewrites a header.
unfoldable pub is_enroll : Command → Bool
is_enroll cmd = equal cmd.program (codes "systemd-cryptenroll")

-- Events of the kind `P` include all that is done without a header being rewritten, or a socket
-- touched.
pub record Allows (P : Event → Type 0) : Type 0 where
  pub killing : P killed
  pub writing : (fd : ℕ) (msg : Bytes) → P (wrote fd msg)
  pub spawning : (cmd : Command) → is_enroll cmd ≡ false → P (spawned cmd)

-- A call that cannot fail, followed by one that depends on what it gave.
pub Adds-then :
    {os : Os} {P : Event → Type 0} {A B : Type 0} (m : Sys os → A × Sys os)
    (f : A → Sys os → B × Sys os)
    → Adds P m
    → ((a : A) → Adds P (f a))
    → Adds P (λ s. f (m s).0 (m s).1)
Adds-then m f hm hf = record { at = λ s. Extends-trans (hm.at s) ((hf (m s).0).at (m s).1) }

-- A call whose value is changed afterwards.
pub Adds-with :
    {os : Os} {P : Event → Type 0} {A B : Type 0} (m : Sys os → A × Sys os) (f : A → B)
    → Adds P m
    → Adds {os = os} P (λ s. (f (m s).0, (m s).1))
Adds-with m f hm = record { at = hm.at }

-- A value that needs no call.
pub Adds-value :
    {os : Os} {P : Event → Type 0} {A : Type 0} (a : A) → Adds {os = os} P (λ s. (a, s))
Adds-value a = record { at = Extends-refl }

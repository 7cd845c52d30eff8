-- ===== src/Base/Results.antt =====
-- Rust's `Result` with the error first, and chains of `?` on it.
use mathlib.Core.Path.{◌≡◌, refl}
use mathlib.Core.Logic.{◌≢◌, ◌⊎◌, inl, inr}
use mathlib.Core.Option.{Option, none, some}

pub data Result {ℓ} (E A : Type ℓ) : Type ℓ where
  ok : A → Result E A
  err : E → Result E A

infixl 5 ◌>>=◌
abbrev pub ◌>>=◌ {ℓ} : {E A B : Type ℓ} → Result E A → (A → Result E B) → Result E B
ok a >>= f = f a
err e >>= f = err e

-- `ok_or`
abbrev pub ok_or {ℓ} : {E A : Type ℓ} → E → Option A → Result E A
ok_or e (some a) = ok a
ok_or e none = err e

-- `map_err`
abbrev pub map_err {ℓ} : {E F A : Type ℓ} → (E → F) → Result E A → Result F A
map_err f (ok a) = ok a
map_err f (err e) = err (f e)

module _ {ℓ} {E A : Type ℓ} where
  pub Result-cases : (r : Result E A) → ((a : A) × (r ≡ ok a)) ⊎ ((e : E) × (r ≡ err e))
  Result-cases (ok a) = inl (a, refl)
  Result-cases (err e) = inr (e, refl)

  pub ok_or-eq-ok : (e : E) (o : Option A) {a : A} → ok_or e o ≡ ok a → o ≡ some a
  ok_or-eq-ok e (some a) h = cc
  ok_or-eq-ok e none h = cc

  pub map_err-eq-ok :
      {F : Type ℓ} (f : E → F) (r : Result E A) {a : A} → map_err f r ≡ ok a → r ≡ ok a
  map_err-eq-ok f (ok a) h = cc
  map_err-eq-ok f (err e) h = cc

  pub bind-eq-ok :
      {B : Type ℓ} (m : Result E A) (f : A → Result E B) {b : B}
      → (m >>= f) ≡ ok b
      → (a : A) × (m ≡ ok a) × (f a ≡ ok b)
  bind-eq-ok (ok a) f h = (a, refl, h)
  bind-eq-ok (err e) f h = cc

pub err≢ok {ℓ} : {E A : Type ℓ} {e : E} {a : A} → ◌≢◌ {A = Result E A} (err e) (ok a)
err≢ok h = cc

pub ok_inj {ℓ} : {E A : Type ℓ} {a b : A} → ◌≡◌ {A = Result E A} (ok a) (ok b) → a ≡ b
ok_inj h = cc

-- What holds of the value of a successful result.
abbrev pub Holds {ℓ κ} : {E A : Type ℓ} → (A → Type κ) → Result E A → Type κ
Holds P (ok a) = P a
Holds P (err e) = Unit

pub bind-Holds {ℓ κ} :
    {E A B : Type ℓ} (P : B → Type κ) (m : Result E A) (f : A → Result E B)
    → ((a : A) → m ≡ ok a → Holds P (f a))
    → Holds P (m >>= f)
bind-Holds P (ok a) f h = h a refl
bind-Holds P (err e) f h = tt

pub Holds-eq {ℓ κ} :
    {E A : Type ℓ} (P : A → Type κ) (r : Result E A) {a : A} → Holds P r → r ≡ ok a → P a
Holds-eq P r h e = rw e at h

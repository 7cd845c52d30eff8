-- ===== src/Base/Exec.antt =====
-- Functions that call the operating system and may fail: the state comes back beside an error too,
-- since what was done before the failure stays done.
use mathlib.Core.Path.{◌≡◌, refl}
use tpm2_autoenroll.Base.Results
use tpm2_autoenroll.Base.Results.{Result, ok, err, err≢ok}

abbrev pub Exec {ℓ} : Type ℓ → Type ℓ → Type ℓ → Type ℓ
Exec S E A = S → Result E A × S

module _ {ℓ} {S E A : Type ℓ} where
  pub pure : A → Exec S E A
  pure a s = (ok a, s)

  pub raise : E → Exec S E A
  raise e s = (err e, s)

  pub lift : Result E A → Exec S E A
  lift r s = (r, s)

  -- A call that cannot fail.
  pub calls : (S → A × S) → Exec S E A
  calls m s = (ok (m s).0, (m s).1)

  -- A call whose failure is a value for what follows.
  pub attempt : {F : Type ℓ} → Exec S E A → Exec S F (Result E A)
  attempt m s = (ok (m s).0, (m s).1)

module _ {ℓ} {S E F A : Type ℓ} where
  -- `map_err` on a call
  pub map_err : (E → F) → Exec S E A → Exec S F A
  map_err f m s = (Results.map_err f (m s).0, (m s).1)

module _ {ℓ} {S E A B : Type ℓ} where
  abbrev pub continue : Result E A → (A → Exec S E B) → Exec S E B
  continue (ok a) f s = f a s
  continue (err e) f s = (err e, s)

  infixl 5 ◌>>=◌ ◌>>◌
  -- Opening this opens the other ways to build a call too.
  unfoldable pub ◌>>=◌ : Exec S E A → (A → Exec S E B) → Exec S E B
  unfolding pure raise lift calls attempt map_err
  ◌>>=◌ m f s = continue (m s).0 f (m s).1

  abbrev pub ◌>>◌ : Exec S E A → Exec S E B → Exec S E B
  m >> k = m >>= λ _. k

  continue_case {κ} :
      (Q : Result E B → Type κ) (r : Result E A) (f : A → Exec S E B) (s : S)
      → ((e : E) → Q (err e))
      → ((a : A) → r ≡ ok a → Q (f a s).0)
      → Q (continue r f s).0
  continue_case Q (ok a) f s failed more = more a refl
  continue_case Q (err e) f s failed more = failed e

  -- The result of a chain is an error, or that of what follows a first success.
  pub bind_case {κ} :
      (Q : Result E B → Type κ) (m : Exec S E A) (f : A → Exec S E B) (s : S)
      → ((e : E) → Q (err e))
      → ((a : A) → (m s).0 ≡ ok a → Q (f a (m s).1).0)
      → Q ((m >>= f) s).0
  unfolding ◌>>=◌
  bind_case Q m f s = continue_case Q (m s).0 f (m s).1

  bind_result :
      (r : Result E A) (f : A → Exec S E B) (s : S) {b : B}
      → (continue r f s).0 ≡ ok b
      → (a : A) × (r ≡ ok a) × ((f a s).0 ≡ ok b)
  bind_result (ok a) f s h = (a, refl, h)
  bind_result (err e) f s h = cc

  -- A chain that succeeds has succeeded in each part.
  pub bind-eq-ok :
      (m : Exec S E A) (f : A → Exec S E B) (s : S) {b : B}
      → ((m >>= f) s).0 ≡ ok b
      → (a : A) × ((m s).0 ≡ ok a) × ((f a (m s).1).0 ≡ ok b)
  unfolding ◌>>=◌
  bind-eq-ok m f s h = bind_result (m s).0 f (m s).1 h

  after_result {κ} :
      (Q : S → Type κ) (r : Result E A) (f : A → Exec S E B) (s : S) {b : B}
      → (continue r f s).0 ≡ ok b
      → ((a : A) → r ≡ ok a → (f a s).0 ≡ ok b → Q (f a s).1)
      → Q (continue r f s).1
  after_result Q (ok a) f s h more = more a refl h
  after_result Q (err e) f s h more = absurd (err≢ok h)

  -- The state after a chain that succeeds is that of what follows a first success.
  pub bind_after {κ} :
      (Q : S → Type κ) (m : Exec S E A) (f : A → Exec S E B) (s : S) {b : B}
      → ((m >>= f) s).0 ≡ ok b
      → ((a : A) → (m s).0 ≡ ok a → (f a (m s).1).0 ≡ ok b → Q (f a (m s).1).1)
      → Q ((m >>= f) s).1
  unfolding ◌>>=◌
  bind_after Q m f s h more = after_result Q (m s).0 f (m s).1 h more

module _ {ℓ} {S E F A B : Type ℓ} where
  -- `?` on a call whose error is put into words.
  pub map_err_bind-eq-ok :
      (f : E → F) (m : Exec S E A) (k : A → Exec S F B) (s : S) {b : B}
      → ((map_err f m >>= k) s).0 ≡ ok b
      → (a : A) × ((m s).0 ≡ ok a) × ((k a (m s).1).0 ≡ ok b)
  unfolding map_err
  map_err_bind-eq-ok f m k s h =
      let parts = bind-eq-ok (map_err f m) k s h in
      (parts.0, Results.map_err-eq-ok f (m s).0 parts.1, parts.2)

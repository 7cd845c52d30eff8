-- ===== src/Startup/Binding.antt =====
-- What starting to listen does to the outside.
use mathlib.Core.List.{Memᴰ}
use tpm2_autoenroll.Base.{Bytes, ℕ, ◌≡◌, refl, ◌⊎◌, inl, inr, List, [], ◌∷◌}
use tpm2_autoenroll.Base.Results.{Result, ok, err}
use tpm2_autoenroll.Config.{Volume}
use tpm2_autoenroll.Os.{Os, Sys, Event, bound, ask}
use tpm2_autoenroll.Os.Adds.{
  Adds, Adds-bind, Extends, Extends-refl, Extends-trans, Extends-widen, adds_rules,
}
use tpm2_autoenroll.Sockets.{
  path, clear, unless_kept, bind, ensure_dir, after_mkdir, check_existing, judge, SocketError,
  Cleared,
}
use tpm2_autoenroll.Sockets.Private.{UnlinksSocket, clear-UnlinksSocket}
use tpm2_autoenroll.Startup.{bind_each, after_dir, listen}

-- A stale socket is unlinked at the path, or a socket is bound to it.
pub Binds : Os → Bytes → Event → Type 0
Binds os p e = (e ≡ bound p) ⊎ ((t : Sys os) × UnlinksSocket p (ask os (os.lstat p) t).0 e)

-- This is done at the path of one of the volumes.
pub Starts : Os → Bytes → List Volume → Event → Type 0
Starts os dir volumes e = (v : Volume) × Memᴰ v volumes × Binds os (path dir v.name) e

pub is_bound : (os : Os) (p : Bytes) → Binds os p (bound p)
unfolding Binds
is_bound os p = inl refl

module _ {os : Os} where
  pub Adds-clear : (p : Bytes) → Adds (Binds os p) (clear os p)
  unfolding Binds
  Adds-clear p = record { at = λ s. Extends-widen (λ e u. inr (s, u)) (clear-UnlinksSocket p s) }

  pub Adds-unless_kept : {P : Event → Type 0} (cleared : Cleared) → Adds P (unless_kept os cleared)
  unfolding unless_kept
  Adds-unless_kept Cleared.kept = search adds_rules
  Adds-unless_kept Cleared.absent = search adds_rules
  Adds-unless_kept Cleared.was_removed = search adds_rules

  pub Adds-bind_socket :
      {P : Event → Type 0} (p : Bytes) → Adds P (clear os p) → P (bound p) → Adds P (bind os p)
  unfolding bind
  Adds-bind_socket p cleared h =
      Adds-bind (clear os p) _ cleared λ c.
        Adds-bind (unless_kept os c) _ (Adds-unless_kept c) λ u. search (adds_rules, h) depth 30

  module _ {P : Event → Type 0} where
    Adds-after_mkdir : (dir : Bytes) (made : Result ℕ (Unit {0})) → Adds P (after_mkdir os dir made)
    unfolding after_mkdir check_existing judge
    Adds-after_mkdir dir (ok u) = search adds_rules depth 20
    Adds-after_mkdir dir (err e) = search adds_rules depth 20

    pub Adds-ensure_dir : (dir : Bytes) → Adds P (ensure_dir os dir)
    unfolding ensure_dir
    Adds-ensure_dir dir = search (adds_rules, Adds-after_mkdir dir) depth 20

  pub bind_each-Starts :
      (dir : Bytes) (volumes : List Volume) (s : Sys os)
      → Extends (Starts os dir volumes) s (bind_each os dir volumes s).1
  unfolding bind_each Starts
  bind_each-Starts dir [] s = Extends-refl s
  bind_each-Starts dir (v ∷ volumes) s =
      let got = bind os (path dir v.name) s in
      Extends-trans
        (Extends-widen (λ e u. (v, Memᴰ.head refl, u))
          ((Adds-bind_socket (path dir v.name) (Adds-clear (path dir v.name))
              (is_bound os (path dir v.name))).at
            s))
        (Extends-widen (λ e u. (u.0, Memᴰ.tail u.1, u.2)) (bind_each-Starts dir volumes got.1))

  after_dir-Starts :
      (dir : Bytes) (volumes : List Volume) (r : Result SocketError (Unit {0})) (s : Sys os)
      → Extends (Starts os dir volumes) s (after_dir os dir volumes (r, s)).1
  unfolding after_dir
  after_dir-Starts dir volumes (err e) s = Extends-refl s
  after_dir-Starts dir volumes (ok u) s = bind_each-Starts dir volumes s

  pub listen-Starts :
      (dir : Bytes) (volumes : List Volume) (s : Sys os)
      → Extends (Starts os dir volumes) s (listen os dir volumes s).1
  unfolding listen
  listen-Starts dir volumes s =
      let made = ensure_dir os dir s in
      Extends-trans ((Adds-ensure_dir dir).at s) (after_dir-Starts dir volumes made.0 made.1)

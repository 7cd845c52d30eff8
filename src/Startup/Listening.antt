-- ===== src/Startup/Listening.antt =====
-- What the daemon listens on when it starts.
use mathlib.Core.List.{Memᴰ}
use mathlib.Core.Path.{subst}
use tpm2_autoenroll.Base.{
  if◌then◌else◌, is_empty, All, Bytes, ℕ, ◌≡◌, refl, ◌∙◌, ◌≢◌, inl, inr, List, [], ◌∷◌,
}
use tpm2_autoenroll.Base.Results.{Result, ok, err, ok_inj, err≢ok, Result-cases}
use tpm2_autoenroll.Config.{Volume}
use tpm2_autoenroll.Daemon.{Listener}
use tpm2_autoenroll.Os.{Os, Sys, Event, bound, ask, perform}
use tpm2_autoenroll.Sockets.{
  SocketError, no_addr, no_socket, no_bind, no_chmod, no_listen, path, ensure_dir, bind, clear,
  unless_kept, backlog, rw_user,
}
use tpm2_autoenroll.Startup.Binding.{
  Adds-clear, Adds-unless_kept, Adds-bind_socket, Adds-ensure_dir, bind_each-Starts, is_bound,
}
use tpm2_autoenroll.Base.Exec.{map_err, bind_after, ◌>>=◌}
use tpm2_autoenroll.Base.Results
use tpm2_autoenroll.Os.Adds.{Extends, Extends-refl, Extends-trans, Extends-widen, Adds-ask}
use tpm2_autoenroll.Sockets.Private.{Secured, ensure_dir-Secured}
use tpm2_autoenroll.Startup.{bind_each, after_dir, listen, no_listeners, StartError}

-- Anything.
abbrev pub Any : Event → Type 0
Any e = Unit {0}

any_kind : {os : Os} {P : Event → Type 0} {s t : Sys os} → Extends P s t → Extends Any s t
any_kind = Extends-widen (λ e h. tt)

-- A socket that was just made is bound to the path, given the mode 0600 and listened on.
module _ {os : Os} (p : Bytes) (fd : ℕ) (start : Sys os) where
  abbrev pub named_at : Result ℕ (Unit {0}) × Sys os
  named_at = perform os (bound p) (os.bind fd p) (ask os os.socket start).1

  abbrev pub moded_at : Result ℕ (Unit {0}) × Sys os
  moded_at = ask os (os.chmod p rw_user) named_at.1

  abbrev pub opened_at : Result ℕ (Unit {0}) × Sys os
  opened_at = ask os (os.listen fd backlog) moded_at.1

-- This was done, each step with success, on the way from `s` to `t`.
pub record Listens {os : Os} (p : Bytes) (fd : ℕ) (s t : Sys os) : Type 0 where
  pub start : Sys os
  pub before : Extends Any s start
  pub is_made : (ask os os.socket start).0 ≡ ok fd
  pub is_named : (named_at p fd start).0 ≡ ok tt
  pub is_moded : (moded_at p fd start).0 ≡ ok tt
  pub is_open : (opened_at p fd start).0 ≡ ok tt
  pub after : Extends Any (opened_at p fd start).1 t

later_Listens :
    {os : Os} {p : Bytes} {fd : ℕ} {r s t u : Sys os}
    → Extends Any r s
    → Listens p fd s t
    → Extends Any t u
    → Listens p fd r u
later_Listens e l e' = record {
  start = l.start;
  before = Extends-trans e l.before;
  is_made = l.is_made;
  is_named = l.is_named;
  is_moded = l.is_moded;
  is_open = l.is_open;
  after = Extends-trans l.after e';
}

module _ {os : Os} where
  bind-Listens :
      (p : Bytes) (s : Sys os) {fd : ℕ} → (bind os p s).0 ≡ ok fd → Listens p fd s (bind os p s).1
  unfolding bind ◌>>=◌
  bind-Listens p s {fd} h =
      let q = Listens p fd s in
      bind_after q (clear os p) _ s h λ c _ h1. bind_after q (unless_kept os c) _ _ h1 λ u _ h2.
        bind_after q (map_err no_addr (ask os (os.socket_addr p))) _ _ h2 λ a _ h3.
          bind_after q (map_err no_socket (ask os os.socket)) _ _ h3 λ d made h4.
            bind_after q (map_err no_bind (perform os (bound p) (os.bind d p))) _ _ h4 λ b named h5.
              bind_after q (map_err no_chmod (ask os (os.chmod p rw_user))) _ _ h5 λ m moded h6.
                bind_after q (map_err no_listen (ask os (os.listen d backlog))) _ _ h6
                  λ l opened h7.
                    let start =
                      (ask os (os.socket_addr p) (unless_kept os c (clear os p s).1).1).1 in
                    subst (λ n. Listens p n s (opened_at p d start).1) (ok_inj h7)
                      (record {
                        start = start;
                        before = Extends-trans (any_kind ((Adds-clear p).at s)) (
                            Extends-trans ((Adds-unless_kept c).at _)
                              ((Adds-ask (os.socket_addr p)).at _));
                        is_made = Results.map_err-eq-ok no_socket _ made;
                        is_named = Results.map_err-eq-ok no_bind _ named;
                        is_moded = Results.map_err-eq-ok no_chmod _ moded;
                        is_open = Results.map_err-eq-ok no_listen _ opened;
                        after = Extends-refl _;
                      })

  bind_at : (p : Bytes) (s : Sys os) → Extends Any s (bind os p s).1
  bind_at p s = any_kind ((Adds-bind_socket p (Adds-clear p) (is_bound os p)).at s)

-- A listener for one of the volumes, whose socket was made to listen at that volume's path on the
-- way from `s` to `t`.
pub IsFor : {os : Os} → Bytes → List Volume → Sys os → Sys os → Listener → Type 0
IsFor dir volumes s t l =
    Memᴰ l.volume volumes × (l.path ≡ path dir l.volume.name) × Listens l.path l.fd s t

cons≢nil : {A : Type 0} {a : A} {l : List A} → a ∷ l ≢ []
cons≢nil h = cc

module _ {os : Os} (dir : Bytes) where
  later_IsFor :
      (volumes : List Volume) (v : Volume) (r s t : Sys os) (ls : List Listener)
      → Extends Any r s
      → All (IsFor dir volumes s t) ls
      → All (IsFor dir (v ∷ volumes) r t) ls
  unfolding IsFor
  later_IsFor volumes v r s t [] e h = tt
  later_IsFor volumes v r s t (l ∷ ls) e h = (
    (Memᴰ.tail h.0.0, h.0.1, later_Listens e h.0.2 (Extends-refl t)),
    later_IsFor volumes v r s t ls e h.1,
  )

  sooner_IsFor :
      (volumes : List Volume) (r s t : Sys os) (ls : List Listener)
      → Extends Any r s
      → All (IsFor dir volumes s t) ls
      → All (IsFor dir volumes r t) ls
  unfolding IsFor
  sooner_IsFor volumes r s t [] e h = tt
  sooner_IsFor volumes r s t (l ∷ ls) e h =
      ((h.0.0, h.0.1, later_Listens e h.0.2 (Extends-refl t)), sooner_IsFor volumes r s t ls e h.1)

  bind_each-IsFor :
      (volumes : List Volume) (s : Sys os)
      → All (IsFor dir volumes s (bind_each os dir volumes s).1) (bind_each os dir volumes s).0
  unfolding bind_each IsFor
  bind_each-IsFor [] s = tt
  bind_each-IsFor (volume ∷ volumes) s =
      let p = path dir volume.name in
      let got = bind os p s in
      let others =
        later_IsFor volumes volume s got.1 _ (bind_each os dir volumes got.1).0 (bind_at p s)
          (bind_each-IsFor volumes got.1) in
      elim (Result-cases got.0) [
        | inl (fd, e) ↦
            let heard =
              later_Listens (Extends-refl s) (bind-Listens p s e)
                (any_kind (bind_each-Starts dir volumes got.1)) in
            rw (bind_each, e) (((Memᴰ.head refl, refl, heard), others))
        | inr (why, e) ↦ rw (bind_each, e) others
      ]

some_listener :
    (l : List Listener) {listeners : List Listener}
    → ◌≡◌ {A = Result StartError (List Listener)}
        (if is_empty l then err no_listeners else ok l)
        (ok listeners)
    → (l ≡ listeners) × (listeners ≢ [])
some_listener [] h = absurd (err≢ok h)
some_listener (l ∷ ls) h =
    let same : (l ∷ ls) ≡ _ = ok_inj h in (same, λ none_there. cons≢nil (same ∙ none_there))

after_dir-IsFor :
    {os : Os} (dir : Bytes) (volumes : List Volume) (r : Result SocketError (Unit {0})) (s : Sys os)
    {listeners : List Listener}
    → (after_dir os dir volumes (r, s)).0 ≡ ok listeners
    → (r ≡ ok tt)
      × (listeners ≢ [])
      × All (IsFor dir volumes s (after_dir os dir volumes (r, s)).1) listeners
unfolding after_dir
after_dir-IsFor dir volumes (err e) s h = absurd (err≢ok h)
after_dir-IsFor {os} dir volumes (ok u) s h =
    let bound_all = bind_each os dir volumes s in
    let found = some_listener bound_all.0 h in
    (
      refl,
      found.1,
      subst (All (IsFor dir volumes s bound_all.1)) found.0 (bind_each-IsFor dir volumes s),
    )

-- When listening succeeds, the directory was found or made private, there is a listener, and each
-- listener is for one of the volumes: its socket was made, bound to that volume's path, given the mode
-- 0600 and listened on.
pub listen-IsFor :
    {os : Os} (dir : Bytes) (volumes : List Volume) (s : Sys os) {listeners : List Listener}
    → (listen os dir volumes s).0 ≡ ok listeners
    → Secured dir s
      × (listeners ≢ [])
      × All (IsFor dir volumes s (listen os dir volumes s).1) listeners
unfolding listen
listen-IsFor {os} dir volumes s {listeners} h =
    let made = ensure_dir os dir s in
    let found = after_dir-IsFor dir volumes made.0 made.1 h in
    (
      ensure_dir-Secured dir s found.0,
      found.1,
      sooner_IsFor dir volumes s made.1 _ listeners ((Adds-ensure_dir dir).at s) found.2,
    )

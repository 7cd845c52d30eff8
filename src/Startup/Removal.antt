-- ===== src/Startup/Removal.antt =====
-- Tidying up after the daemon removes sockets, and nothing else.
use mathlib.Core.List.{Memᴰ}
use mathlib.Core.Path.{subst}
use tpm2_autoenroll.Base.{Bytes, ◌≡◌, refl, sym, inl, inr, List, [], ◌∷◌, map}
use tpm2_autoenroll.Base.Results.{ok, err, Result-cases}
use tpm2_autoenroll.Config.{Loaded}
use tpm2_autoenroll.Json.{Json}
use tpm2_autoenroll.Os.{Os, Sys, Event, ask}
use tpm2_autoenroll.Os.Adds.{Adds, Extends, Extends-refl, Extends-widen, Extends-trans, adds_rules}
use tpm2_autoenroll.Sockets.{path, clear}
use tpm2_autoenroll.Sockets.Private.{UnlinksSocket, clear-UnlinksSocket}
use tpm2_autoenroll.Startup.{clear_each, read, check_config, clear_sockets}

-- One of the paths is unlinked, where `lstat` has just found a socket.
pub TidiesUp : Os → List Bytes → Event → Type 0
TidiesUp os paths e =
    (p : Bytes) × Memᴰ p paths × (t : Sys os) × UnlinksSocket p (ask os (os.lstat p) t).0 e

module _ {os : Os} where
  pub clear_each-TidiesUp :
      (paths : List Bytes) (s : Sys os) → Extends (TidiesUp os paths) s (clear_each os paths s).1
  unfolding clear_each TidiesUp
  clear_each-TidiesUp [] s = Extends-refl s
  clear_each-TidiesUp (p ∷ paths) s =
      let cleared = clear os p s in
      Extends-trans (Extends-widen (λ e u. (p, Memᴰ.head refl, s, u)) (clear-UnlinksSocket p s)) (
        Extends-widen (λ e u. (u.0, Memᴰ.tail u.1, u.2, u.3)) (clear_each-TidiesUp paths cleared.1))

  module _ (json : Json) where
    pub Adds-read : (P : Event → Type 0) (file : Bytes) → Adds P (read os json file)
    unfolding read
    Adds-read P file = search adds_rules depth 20

    pub Adds-check_config : (P : Event → Type 0) (file : Bytes) → Adds P (check_config os json file)
    unfolding check_config
    Adds-check_config P file = record { at = (Adds-read P file).at }

    -- The paths of the volumes that are accepted of the configuration.
    pub configured : Bytes → Bytes → Sys os → List Bytes
    configured file dir s = elim (read os json file s).0 [
      | ok loaded ↦ map (λ v. path dir v.name) loaded.volumes
      | err e ↦ []
    ]

    pub configured-map :
        (file dir : Bytes) (s : Sys os) {loaded : Loaded}
        → (read os json file s).0 ≡ ok loaded
        → configured file dir s ≡ map (λ v. path dir v.name) loaded.volumes
    unfolding configured
    configured-map file dir s e = rw (configured, e) refl

    -- Whatever is in the socket directory, `clear-sockets` does nothing to the outside but to unlink
    -- sockets at the paths of the configured volumes; another kind of file there stays.
    pub clear_sockets-TidiesUp :
        (file dir : Bytes) (s : Sys os)
        → Extends (TidiesUp os (configured file dir s)) s (clear_sockets os json file dir s).1
    unfolding clear_sockets configured
    clear_sockets-TidiesUp file dir s =
        let got = read os json file s in
        let to_read = (Adds-read (TidiesUp os (configured file dir s)) file).at s in
        elim (Result-cases got.0) [
          | inr (why, e) ↦ rw (clear_sockets, e) to_read
          | inl (loaded, e) ↦
              let paths = map (λ v. path dir v.name) loaded.volumes in
              let cleared =
                subst (λ l. Extends (TidiesUp os l) got.1 (clear_each os paths got.1).1)
                  (sym (configured-map file dir s e)) (clear_each-TidiesUp paths got.1) in
              rw (clear_sockets, e) (Extends-trans to_read cleared)
        ]

-- ===== src/Startup/Gone.antt =====
-- After a clearing that succeeds no socket is left behind.
use mathlib.Core.Path.{subst}
use tpm2_autoenroll.Base.{
  ◌==◌, if◌then◌else◌, ==_iff, Bool-cases, some_inj, all, All, Bytes, ℕ, ◌≡◌, refl, sym, ap, ◌∙◌,
  ◌≢◌, inl, inr, true, false, none, some, List, [], ◌∷◌, map, arith,
}
use tpm2_autoenroll.Base.Exec.{◌>>=◌}
use tpm2_autoenroll.Base.Results.{Result, ok, err, Result-cases}
use tpm2_autoenroll.Json.{Json}
use tpm2_autoenroll.Os.{Os, Sys, Stat, socket, ask, perform, removed}
use tpm2_autoenroll.Os.Files.{Files}
use tpm2_autoenroll.Sockets.{
  SocketError, Cleared, no_stat, no_unlink, is_socket, path, clear, after_lstat, enoent,
}
use tpm2_autoenroll.Startup.{exit_success, exit_failure, is_ok, clear_each, read, clear_sockets}
use tpm2_autoenroll.Startup.Removal.{configured, configured-map}

pub failure≢success : exit_failure ≢ exit_success
failure≢success h = cc

false≢true : false ≢ true
false≢true h = cc

module _ {os : Os} (files : Files os) where
  -- No socket is at the path.
  pub IsClear : Bytes → Sys os → Type 0
  IsClear p s = files.at s.world p ≢ some socket

  -- What was clear before is clear after.
  KeepsClear : Sys os → Sys os → Type 0
  KeepsClear s t = (q : Bytes) → IsClear q s → IsClear q t

  lstat_keeps : (p : Bytes) (s : Sys os) → KeepsClear s (ask os (os.lstat p) s).1
  unfolding KeepsClear IsClear ask
  lstat_keeps p s q clear_before there = clear_before (sym (files.looking p q s.world) ∙ there)

  unlink_keeps : (p : Bytes) (s : Sys os) → KeepsClear s (perform os (removed p) (os.unlink p) s).1
  unfolding KeepsClear IsClear perform
  unlink_keeps p s q clear_before there = elim (files.others p q s.world) [
    | inl same ↦ clear_before (sym same ∙ there)
    | inr none_there ↦ cc
  ]

  not_socket-IsClear :
      (p : Bytes) (s : Sys os) (stat : Stat)
      → (ask os (os.lstat p) s).0 ≡ ok stat
      → is_socket stat.kind ≡ false
      → IsClear p (ask os (os.lstat p) s).1
  unfolding IsClear ask is_socket
  not_socket-IsClear p s stat e other there =
      let kind : stat.kind ≡ socket =
        some_inj (sym (files.found e) ∙ sym (files.looking p p s.world) ∙ there) in
      cc

  missing-IsClear :
      (p : Bytes) (s : Sys os)
      → (ask os (os.lstat p) s).0 ≡ err enoent
      → IsClear p (ask os (os.lstat p) s).1
  unfolding IsClear ask
  missing-IsClear p s e there =
      let nothing : files.at s.world p ≡ none = files.missing e in
      let something : files.at s.world p ≡ some socket = sym (files.looking p p s.world) ∙ there in
      cc

  unlinked-IsClear :
      (p : Bytes) (s : Sys os)
      → (perform os (removed p) (os.unlink p) s).0 ≡ ok tt
      → IsClear p (perform os (removed p) (os.unlink p) s).1
  unfolding IsClear perform
  unlinked-IsClear p s e there = let nothing = files.gone e in cc

  -- What the match of `clear` on the outcome of `lstat` comes to.
  after_lstat_clears :
      (p : Bytes) (r : Result ℕ Stat) (s : Sys os) (c : Cleared)
      → ((stat : Stat) → r ≡ ok stat → is_socket stat.kind ≡ false → IsClear p s)
      → (r ≡ err enoent → IsClear p s)
      → (after_lstat os p r s).0 ≡ ok c
      → IsClear p (after_lstat os p r s).1
  unfolding after_lstat ◌>>=◌
  after_lstat_clears p (err e) s c other missing h = elim (Bool-cases (e == enoent)) [
    | inl f ↦ rw (after_lstat, f) (missing (ap err ((==_iff e enoent).0 f)))
    | inr f ↦ absurd (raised (rw (after_lstat, f) at h))
  ]
    where
      raised : ◌≢◌ {A = Result SocketError Cleared} (err (no_stat e)) (ok c)
      raised g = cc
  after_lstat_clears p (ok stat) s c other missing h = elim (Bool-cases (is_socket stat.kind)) [
    | inr f ↦ rw (after_lstat, f) (other stat refl f)
    | inl f ↦ elim (Result-cases (perform os (removed p) (os.unlink p) s).0) [
      | inl (u, e) ↦ rw (after_lstat, f, e) (unlinked-IsClear p s e)
      | inr (why, e) ↦ absurd (raised why (rw (after_lstat, f, e) at h))
    ]
  ]
    where
      raised : (why : ℕ) → ◌≢◌ {A = Result SocketError Cleared} (err (no_unlink why)) (ok c)
      raised why g = cc

  after_lstat_keeps :
      (p : Bytes) (r : Result ℕ Stat) (s : Sys os) → KeepsClear s (after_lstat os p r s).1
  unfolding after_lstat ◌>>=◌ KeepsClear
  after_lstat_keeps p (err e) s = elim (Bool-cases (e == enoent)) [
    | inl f ↦ rw (after_lstat, f) (λ q h. h)
    | inr f ↦ rw (after_lstat, f) (λ q h. h)
  ]
  after_lstat_keeps p (ok stat) s = elim (Bool-cases (is_socket stat.kind)) [
    | inr f ↦ rw (after_lstat, f) (λ q h. h)
    | inl f ↦ elim (Result-cases (perform os (removed p) (os.unlink p) s).0) [
      | inl (u, e) ↦ rw (after_lstat, f, e) (unlink_keeps p s)
      | inr (why, e) ↦ rw (after_lstat, f, e) (unlink_keeps p s)
    ]
  ]

  clear_keeps : (p : Bytes) (s : Sys os) → KeepsClear s (clear os p s).1
  unfolding clear ◌>>=◌ KeepsClear
  clear_keeps p s q h =
      let found = ask os (os.lstat p) s in
      after_lstat_keeps p found.0 found.1 q (lstat_keeps p s q h)

  clear-IsClear :
      (p : Bytes) (s : Sys os) (c : Cleared) → (clear os p s).0 ≡ ok c → IsClear p (clear os p s).1
  unfolding clear ◌>>=◌
  clear-IsClear p s c h =
      let found = ask os (os.lstat p) s in
      after_lstat_clears p found.0 found.1 c (λ stat e other. not_socket-IsClear p s stat e other)
        (missing-IsClear p s) h

  clear_each_keeps : (paths : List Bytes) (s : Sys os) → KeepsClear s (clear_each os paths s).1
  unfolding clear_each KeepsClear
  clear_each_keeps [] s q h = h
  clear_each_keeps (p ∷ paths) s q h =
      clear_each_keeps paths (clear os p s).1 q (clear_keeps p s q h)

  pub clear_each-IsClear :
      (paths : List Bytes) (s : Sys os)
      → all is_ok (clear_each os paths s).0 ≡ true
      → All (λ p. IsClear p (clear_each os paths s).1) paths
  unfolding clear_each is_ok KeepsClear
  clear_each-IsClear [] s h = tt
  clear_each-IsClear (p ∷ paths) s h =
      let cleared = clear os p s in
      elim (Result-cases cleared.0) [
        | inr (why, e) ↦ absurd (false≢true (rw (is_ok, e) at h))
        | inl (c, e) ↦ (
          clear_each_keeps paths cleared.1 p (clear-IsClear p s c e),
          clear_each-IsClear paths cleared.1 (rw (is_ok, e) at h),
        )
      ]

  module _ (json : Json) where
    -- On a file system that keeps its promises, and that nobody else changes, when `clear-sockets` exits
    -- with success then no socket is left at the path of any volume that it accepts of the
    -- configuration. A volume that it rejects has no part in this.
    pub clear_sockets-IsClear :
        (file dir : Bytes) (s : Sys os)
        → (clear_sockets os json file dir s).0 ≡ exit_success
        → All (λ p. IsClear p (clear_sockets os json file dir s).1) (configured json file dir s)
    unfolding clear_sockets
    clear_sockets-IsClear file dir s h =
        let got = read os json file s in
        elim (Result-cases got.0) [
          | inr (why, e) ↦ absurd (failure≢success (rw (clear_sockets, e) at h))
          | inl (loaded, e) ↦
              let paths = map (λ v. path dir v.name) loaded.volumes in
              let sockets = clear_each os paths got.1 in
              let outcome : (if all is_ok sockets.0 then exit_success else exit_failure)
                  ≡ exit_success =
                rw (clear_sockets, e) at h in
              let each_ok : all is_ok sockets.0 ≡ true = ground (arith, outcome, failure≢success) in
              rw (clear_sockets, e)
                (subst (λ l. All (λ p. IsClear p sockets.1) l)
                  (sym (configured-map json file dir s e)) (clear_each-IsClear paths got.1 each_ok))
        ]

-- ===== src/Sockets/Private.antt =====
-- What the sockets' directory and the paths in it keep, whatever was there before.
use tpm2_autoenroll.Base.{
  ◌==◌, ==_iff, Bool-cases, Bytes, ℕ, ◌/◌, ◌%◌, ◌≡◌, refl, ap, ◌⊎◌, inl, inr, true, arith,
}
use tpm2_autoenroll.Base.Results.{Result, ok, err, map_err-eq-ok}
use tpm2_autoenroll.Base.Exec.{◌>>=◌, map_err_bind-eq-ok}
use tpm2_autoenroll.Os.{Os, Sys, Event, Stat, FileType, directory, socket, ask, removed}
use tpm2_autoenroll.Os.Adds.{Adds, Extends, Extends-trans, adds_rules, Adds-ask}
use tpm2_autoenroll.Sockets.{
  is_directory, is_socket, is_shared, check_existing, judge, no_chmod, no_stat, after_mkdir,
  ensure_dir, after_lstat, clear, rwx_user, eexist,
}

-- A directory of root that only its owner can write to.
pub record IsPrivate (stat : Stat) : Type 0 where
  pub is_dir : stat.kind ≡ directory
  pub of_root : stat.uid ≡ 0
  -- neither bit of `0o022`
  pub not_group : stat.mode / 16 % 2 ≡ 0
  pub not_other : stat.mode / 2 % 2 ≡ 0

is_directory-true : (k : FileType) → is_directory k ≡ true → k ≡ directory
unfolding is_directory
is_directory-true directory h = refl
is_directory-true k h = ground arith

is_socket-true : (k : FileType) → is_socket k ≡ true → k ≡ socket
unfolding is_socket
is_socket-true socket h = refl
is_socket-true k h = ground arith

-- An event that unlinks a path at which `lstat` has found a socket.
pub UnlinksSocket : Bytes → Result ℕ Stat → Event → Type 0
UnlinksSocket path found e =
    (e ≡ removed path) × (stat : Stat) × (found ≡ ok stat) × (stat.kind ≡ socket)

module _ {os : Os} where
  judge-IsPrivate : (stat : Stat) (s : Sys os) → (judge os stat 0 s).0 ≡ ok tt → IsPrivate stat
  unfolding judge is_shared ◌>>=◌
  judge-IsPrivate stat s h = record {
    is_dir = is_directory-true stat.kind (ground arith);
    of_root = ground arith;
    not_group = ground arith;
    not_other = ground arith;
  }

  after_lstat-UnlinksSocket :
      (path : Bytes) (found : Result ℕ Stat)
      → Adds (UnlinksSocket path found) (after_lstat os path found)
  unfolding after_lstat UnlinksSocket
  after_lstat-UnlinksSocket path (err e) = search (adds_rules)
  after_lstat-UnlinksSocket path (ok stat) = elim (Bool-cases (is_socket stat.kind)) [
    | inl e ↦
        let unlinks : UnlinksSocket path (ok stat) (removed path) =
          (refl, stat, refl, is_socket-true stat.kind e) in
        rw (after_lstat, e) (search (adds_rules, unlinks))
    | inr e ↦ rw (after_lstat, e) (search adds_rules)
  ]

  -- Clearing a path unlinks it at most, and only when what `lstat` has just found there is a socket;
  -- nothing else is done to the outside.
  pub clear-UnlinksSocket :
      (path : Bytes) (s : Sys os)
      → Extends (UnlinksSocket path (ask os (os.lstat path) s).0) s (clear os path s).1
  unfolding clear ◌>>=◌
  clear-UnlinksSocket path s = Extends-trans ((Adds-ask (os.lstat path)).at s) (
      (after_lstat-UnlinksSocket path (ask os (os.lstat path) s).0).at (ask os (os.lstat path) s).1)

  after_mkdir-Secured :
      (dir : Bytes) (made : Result ℕ (Unit {0})) (s : Sys os)
      → (after_mkdir os dir made s).0 ≡ ok tt
      → (made ≡ ok tt) × ((ask os (os.chmod dir rwx_user) s).0 ≡ ok tt)
        ⊎ (stat : Stat) × (made ≡ err eexist)
          × ((ask os (os.lstat dir) s).0 ≡ ok stat)
          × IsPrivate stat
  unfolding after_mkdir check_existing ◌>>=◌
  after_mkdir-Secured dir (ok u) s h =
      inl (refl, map_err-eq-ok no_chmod (ask os (os.chmod dir rwx_user) s).0 h)
  after_mkdir-Secured dir (err e) s h = elim (Bool-cases (e == eexist)) [
    | inl same ↦
        let found =
          map_err_bind-eq-ok no_stat (ask os (os.lstat dir)) (λ stat. judge os stat 0) s
            (rw same at h) in
        inr (found.0, ap err ((==_iff e eexist).0 same), found.1, judge-IsPrivate found.0 _ found.2)
    | inr other ↦ ground arith
  ]

  -- What `ensure_dir` has found or made of the directory.
  pub Secured : Bytes → Sys os → Type 0
  Secured dir s =
      let made = ask os (os.mkdir dir rwx_user) s in
      (made.0 ≡ ok tt) × ((ask os (os.chmod dir rwx_user) made.1).0 ≡ ok tt)
      ⊎ (stat : Stat) × (made.0 ≡ err eexist)
        × ((ask os (os.lstat dir) made.1).0 ≡ ok stat)
        × IsPrivate stat

  -- When `ensure_dir` succeeds, it made the directory and gave it the mode 0700, or there was one
  -- already, which belongs to root and which only its owner can write to.
  pub ensure_dir-Secured :
      (dir : Bytes) (s : Sys os) → (ensure_dir os dir s).0 ≡ ok tt → Secured dir s
  unfolding ensure_dir Secured ◌>>=◌
  ensure_dir-Secured dir s h =
      after_mkdir-Secured dir (ask os (os.mkdir dir rwx_user) s).0
        (ask os (os.mkdir dir rwx_user) s).1 h

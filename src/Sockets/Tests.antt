-- ===== src/Sockets/Tests.antt =====
-- A socket left behind, in a directory that was there already.
use tpm2_autoenroll.Base.{Bytes, codes, ◌≡◌, refl, []}
use tpm2_autoenroll.Base.Exec.{◌>>=◌}
use tpm2_autoenroll.Base.Results.{ok, err}
use tpm2_autoenroll.Os.{Os, Sys, directory, socket, ask, perform}
use tpm2_autoenroll.Os.Failing.{failing}
use tpm2_autoenroll.Sockets.{
  ensure_dir, after_mkdir, check_existing, judge, is_directory, is_shared, is_socket, clear,
  after_lstat, was_removed,
}

abbrev dir : Bytes
dir = codes "/run/cryptsetup-keys.d"

abbrev left_behind : Os
left_behind = record (failing (Unit {0})) {
  lstat = λ path w. (ok (record { kind = socket; mode = 49536; uid = 0 }), w);
  unlink = λ path w. (ok tt, w);
}

abbrev private_dir : Os
private_dir = record (failing (Unit {0})) {
  mkdir = λ path mode w. (err 17, w);
  lstat = λ path w. (ok (record { kind = directory; mode = 16832; uid = 0 }), w);
}

abbrev start : Sys left_behind
start = record { world = tt; trace = [] }

abbrev at_boot : Sys private_dir
at_boot = record { world = tt; trace = [] }

usable : (ensure_dir private_dir dir at_boot).0 ≡ ok tt
unfolding ensure_dir after_mkdir check_existing judge is_directory is_shared ask ◌>>=◌
usable = refl

removes : (clear left_behind dir start).0 ≡ ok was_removed
unfolding clear after_lstat is_socket ask perform ◌>>=◌
removes = refl

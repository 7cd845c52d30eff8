-- ===== src/Os/Files.antt =====
-- What `lstat` and `unlink` promise of the file system, where nobody else changes it.
use tpm2_autoenroll.Base.{Bytes, ◌≡◌, ◌⊎◌, Option, none, some}
use tpm2_autoenroll.Base.Results.{ok, err}
use tpm2_autoenroll.Os.{Os, Stat, FileType}

pub record Files (os : Os) : Type 0 where
  -- what is at a path
  pub at : os.World → Bytes → Option FileType
  -- `lstat` tells what is at the path, ENOENT that nothing is, and changes nothing
  pub found :
      {p : Bytes} {w : os.World} {stat : Stat}
      → (os.lstat p w).0 ≡ ok stat
      → at w p ≡ some stat.kind
  pub missing : {p : Bytes} {w : os.World} → (os.lstat p w).0 ≡ err 2 → at w p ≡ none
  pub looking : (p q : Bytes) (w : os.World) → at (os.lstat p w).1 q ≡ at w q
  -- `unlink` takes away what is at its path, and puts nothing anywhere
  pub gone : {p : Bytes} {w : os.World} → (os.unlink p w).0 ≡ ok tt → at (os.unlink p w).1 p ≡ none
  pub others :
      (p q : Bytes) (w : os.World)
      → (at (os.unlink p w).1 q ≡ at w q) ⊎ (at (os.unlink p w).1 q ≡ none)

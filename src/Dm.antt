-- ===== src/Dm.antt =====
-- src/dm.rs: whether a volume is already open.
pub mod Adds
use tpm2_autoenroll.Base.{
  ◌==◌, if◌then◌else◌, is_empty, Bytes, codes, equal, starts_with, ℕ, Bool, true, false, ◌&&◌, List,
  [], ◌∷◌, ◌++◌,
}
use tpm2_autoenroll.Base.Utf8.{from_utf8_lossy}
use tpm2_autoenroll.Base.Results.{Result, ok, err}
use tpm2_autoenroll.Os.{Os, Sys, ask}

-- `SYS_BLOCK`
abbrev pub sys_block : Bytes
sys_block = codes "/sys/block"

-- `trim_end_matches('\n')`
pub trim_end_newlines : Bytes → Bytes
trim_end_newlines [] = []
trim_end_newlines (b ∷ s) =
    let rest = trim_end_newlines s in if b == b'\n' && is_empty rest then [] else b ∷ rest

-- `unwrap_or_default`
pub text_or_empty : Result ℕ Bytes → Bytes
text_or_empty (ok text) = text
text_or_empty (err e) = []

-- The last line of the closure of `any`.
pub is_mapping_of : Bytes → Bytes → Bytes → Bool
is_mapping_of volume name uuid =
    equal (trim_end_newlines name) volume && starts_with (codes "CRYPT-LUKS2-") uuid

-- The filter on the entries.
pub is_dm : Bytes → Bool
is_dm entry = starts_with (codes "dm-") (from_utf8_lossy entry)

pub name_path : Bytes → Bytes → Bytes
name_path dir entry = dir ++ (codes "/" ++ (entry ++ codes "/dm/name"))

pub uuid_path : Bytes → Bytes → Bytes
uuid_path dir entry = dir ++ (codes "/" ++ (entry ++ codes "/dm/uuid"))

module _ (os : Os) where
  -- The closure of `any`.
  unfoldable pub check_entry : Bytes → Bytes → Bytes → Sys os → Bool × Sys os
  check_entry dir volume entry s =
      let name = ask os (os.read_text (name_path dir entry)) s in
      let uuid = ask os (os.read_text (uuid_path dir entry)) name.1 in
      (is_mapping_of volume (text_or_empty name.0) (text_or_empty uuid.0), uuid.1)

  -- `filter` and `any` over the entries, which stop at the first mapping that fits.
  unfoldable pub any_entry : Bytes → Bytes → List Bytes → Sys os → Bool × Sys os
  any_entry dir volume [] s = (false, s)
  any_entry dir volume (entry ∷ entries) s = elim (is_dm entry) [
    | false ↦ any_entry dir volume entries s
    | true ↦
        let checked = check_entry dir volume entry s in
        elim checked.0 [ true ↦ (true, checked.1) | false ↦ any_entry dir volume entries checked.1 ]
  ]

  unfoldable pub with_dir : Bytes → Bytes → Result ℕ (List Bytes) × Sys os → Bool × Sys os
  with_dir dir volume (ok entries, s) = any_entry dir volume entries s
  with_dir dir volume (err e, s) = (false, s)

  -- `is_active`. An entry of the directory that cannot be read is not in the list.
  unfoldable pub is_active : Bytes → Bytes → Sys os → Bool × Sys os
  is_active dir volume s = with_dir dir volume (ask os (os.read_dir dir) s)

-- ===== src/Tpm/Describe.antt =====
-- src/tpm2.rs, `describe_rc`: how a response code is worded, and that it can be told from the wording.
use mathlib.Core.List.{append-nil}
use tpm2_autoenroll.Base.{
  ◌==◌, if◌then◌else◌, Option-cases, take, drop, Bytes, codes, ℕ, ◌^◌, ◌<◌, ◌≡◌, refl, sym, ap, ◌∙◌,
  inl, inr, Option, none, some, [], ◌++◌, arith,
}
use tpm2_autoenroll.Base.Options.{◌>>=◌}
use tpm2_autoenroll.Hex.{hex, unhex_pairs, unhex_pairs-hex}
use tpm2_autoenroll.Wire.{to_be32, from_be}
use tpm2_autoenroll.Wire.Reads.{from_be-to_be32}

-- `{v:#010x}`
pub hex32 : ℕ → Bytes
hex32 v = codes "0x" ++ hex (to_be32 v)

-- The match on the code.
pub known_rc : ℕ → Option Bytes
known_rc rc =
    if rc == 0x100
    then some (codes "TPM_RC_INITIALIZE (the TPM has not been started)")
    else if rc == 0x101
    then some (codes "TPM_RC_FAILURE (the TPM is in failure mode)")
    else if rc == 0x120
    then some (codes "TPM_RC_LOCKOUT (the TPM is in dictionary-attack lockout)")
    else if rc == 0x921
    then some (codes "TPM_RC_SESSION_HANDLES (no session slot is free)")
    else if rc == 0x922
    then some (codes "TPM_RC_OBJECT_HANDLES (no object slot is free)")
    else none

-- `describe_rc`
pub describe_rc : ℕ → Bytes
describe_rc rc = elim (known_rc rc) [
  | some name ↦ hex32 rc ++ (codes ", " ++ name)
  | none ↦ hex32 rc
]

-- The message of `warn_flush`, for the session and the reason.
pub warn_flush : ℕ → Bytes → Bytes
warn_flush session e = codes "could not flush TPM session " ++ (hex32 session ++ (codes ": " ++ e))

-- The number that the ten characters of `hex32` stand for.
pub read_hex32 : Bytes → Option ℕ
read_hex32 text = do code ← unhex_pairs (take 8 (drop 2 text)); some (from_be code)

read_hex32-hex32 : (v : ℕ) (rest : Bytes) → v < 2 ^ 32 → read_hex32 (hex32 v ++ rest) ≡ some v
unfolding read_hex32 hex32 hex codes
read_hex32-hex32 v rest h = rw (unhex_pairs-hex (to_be32 v) (omega arith), from_be-to_be32 v h) refl

-- Whatever a response code of 32 bits is, and whether it has a name here or not, it can be read back
-- from what is logged of it; so no two codes are worded alike.
pub read_hex32-describe_rc : (rc : ℕ) → rc < 2 ^ 32 → read_hex32 (describe_rc rc) ≡ some rc
unfolding describe_rc
read_hex32-describe_rc rc h = elim (Option-cases (known_rc rc)) [
  | inl e ↦
      rw (describe_rc, e) (ap read_hex32 (sym (append-nil (hex32 rc))) ∙ read_hex32-hex32 rc [] h)
  | inr (name, e) ↦ rw (describe_rc, e) (read_hex32-hex32 rc (codes ", " ++ name) h)
]

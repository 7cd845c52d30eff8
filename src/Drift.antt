-- ===== src/Drift.antt =====
-- src/drift.rs: whether the PCRs have moved away from what the volume was sealed against.
pub mod Adds
use tpm2_autoenroll.Base.{if◌then◌else◌, is_empty, Bytes, equal, ℕ, none, some, List}
use tpm2_autoenroll.Base.Results.{Result, ok, err}
use tpm2_autoenroll.Os.{Os, Sys}
use tpm2_autoenroll.Session.{pcr_policy_digest}
use tpm2_autoenroll.Token.{Tpm2Token, Kind}
use tpm2_autoenroll.Tpm.{Bank}
use tpm2_autoenroll.Wire.{TpmError}

-- Why drift cannot be told.
pub data Why : Type 0 where
  is_advanced : Kind → Why
  has_pin : Why
  no_digest : TpmError → Why

-- `enum Drift`
pub data Drift : Type 0 where
  drifted : Bytes → Bytes → Drift
  matches : Drift
  unknown : Why → Drift

-- What the digest of the current PCRs says of the sealed one.
unfoldable pub compare_digest : Bytes → Result TpmError Bytes → Drift
compare_digest sealed (ok current) =
    if equal current sealed then matches else drifted sealed current
compare_digest sealed (err e) = unknown (no_digest e)

module _ (os : Os) where
  -- `check`
  unfoldable pub check : ℕ → Tpm2Token → List ℕ → Bank → Sys os → Drift × Sys os
  check tpm token pcrs bank s = elim token.advanced [
    | some kind ↦ (unknown (is_advanced kind), s)
    | none ↦ if token.pin then (unknown has_pin, s) else if is_empty pcrs then (matches, s) else (
      compare_digest token.policy_hash (pcr_policy_digest os tpm bank pcrs s).0,
      (pcr_policy_digest os tpm bank pcrs s).1,
    )
  ]

-- ===== src/BindName.antt =====
-- src/bindname.rs: the abstract peer name that systemd-cryptsetup binds before it connects.
mod Tests
pub mod Shape
use tpm2_autoenroll.Base.Options.{◌>>=◌}
use tpm2_autoenroll.Base.{
  ◌==◌, if◌then◌else◌, is_empty, take, drop, all, Bytes, codes, is_alnum, strip_prefix, position, ℕ,
  not, ◌||◌, Option, none, some, List, [], ◌∷◌,
}

-- `enum Phase`
pub data Phase : Type 0 where
  plain tpm2 fido2_salt pkcs11 unknown : Phase

-- `Phase::as_str`
unfoldable pub as_str : Phase → Bytes
as_str plain = codes "plain"
as_str tpm2 = codes "tpm2"
as_str fido2_salt = codes "fido2-salt"
as_str pkcs11 = codes "pkcs11"
as_str unknown = codes "unknown"

pub record PeerName : Type 0 where
  pub phase : Phase
  pub volume : Bytes

-- `INFIXES`
abbrev pub infixes : List (Bytes × Phase)
infixes =
    (codes "/cryptsetup/", plain)
    ∷ (codes "/cryptsetup-tpm2/", tpm2)
    ∷ (codes "/cryptsetup-fido2-salt/", fido2_salt)
    ∷ (codes "/cryptsetup-pkcs11/", pkcs11)
    ∷ []

-- What stands behind the last slash, as the source's `rposition` and slice give it.
unfoldable pub after_last_slash : Bytes → Option Bytes
after_last_slash [] = none
after_last_slash (c ∷ cs) = elim (after_last_slash cs) [
  | some v ↦ some v
  | none ↦ if c == b'/' then some cs else none
]

-- An empty volume is refused, whatever the phase.
unfoldable pub named : Phase → Bytes → Option PeerName
named phase [] = none
named phase (c ∷ cs) = some (record { phase = phase; volume = c ∷ cs })

-- The loop over `INFIXES`, which returns at the first prefix that fits, and what follows it.
unfoldable pub match_infix : List (Bytes × Phase) → Bytes → Option PeerName
match_infix [] rest = do volume ← after_last_slash rest; named unknown volume
match_infix ((infix_, phase) ∷ more) rest = elim (strip_prefix infix_ rest) [
  | some volume ↦ named phase volume
  | none ↦ match_infix more rest
]

-- What `parse` does with the name split at `slash`.
unfoldable pub parse_at : Bytes → ℕ → Option PeerName
parse_at name slash =
    if is_empty (take slash name) || not (all is_alnum (take slash name))
    then none
    else match_infix infixes (drop slash name)

-- `parse`
unfoldable pub parse : Bytes → Option PeerName
parse name = do slash ← position b'/' name; parse_at name slash

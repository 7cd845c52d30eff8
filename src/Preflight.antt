-- ===== src/Preflight.antt =====
-- src/preflight.rs: whether re-enrolling a volume is the right thing to do.
pub mod Adds
pub mod Steps
pub mod Repair
use tpm2_autoenroll.Base.{
  ltb, leb, ◌==◌, if◌then◌else◌, ltb→lt, lt→ltb, leb→le, ==_iff, Bool-cases, Option-cases, some_inj,
  length, is_empty, take, drop, replicate, all, any, find, filter, All, All-snoc, length-append,
  length-take, length-drop, length-replicate, take-length-append, drop-length-append,
  take-append-drop, set, get_or, Bytes, codes, equal, equal_refl, equal_iff, is_alnum, strip_prefix,
  strip_prefix_append, strip_prefix_sound, starts_with, position, contains, ℕ, zero, suc, ◌+◌, ◌-◌,
  ◌*◌, ◌/◌, ◌%◌, ◌^◌, ◌≤◌, ◌<◌, ◌≡◌, refl, sym, ap, ◌∙◌, ◌≢◌, ◌↔◌, ◌⊎◌, inl, inr, Bool, true, false,
  not, ◌&&◌, ◌||◌, Option, none, some, List, [], ◌∷◌, ◌++◌, map, arith,
}
use tpm2_autoenroll.Base.Results.{Result, ok, err}
use tpm2_autoenroll.Config.{Volume}
use tpm2_autoenroll.Device.{Device}
use tpm2_autoenroll.Drift.{Drift, drifted, matches, unknown, Why}
use tpm2_autoenroll.Drift
use tpm2_autoenroll.Json.{Json}
use tpm2_autoenroll.Os.{Os, Sys, ask}
use tpm2_autoenroll.Session.{lockout, read_pcrs}
use tpm2_autoenroll.Hex.{hex}
use tpm2_autoenroll.Token.{Tpm2Token, Kind}
use tpm2_autoenroll.Token.Read.{ReadError, read}
use tpm2_autoenroll.Tpm.{Lockout, bank_name}
use tpm2_autoenroll.Wire.{TpmError}

-- `struct Plan`
pub record Plan : Type 0 where
  pub old_token : Option ℕ
  pub enrolled : Bytes
  pub state : Bytes

-- A policy element that a repair would drop.
pub data Refusal : Type 0 where
  needs_pin : Refusal
  uses : Kind → Refusal

-- Why a header is left alone; the source formats each into a message.
pub data Reason : Type 0 where
  tokens_unreadable : ReadError → Reason
  in_lockout : Lockout → Reason
  lockout_unreadable : TpmError → Reason
  absent : Reason
  several_tokens : ℕ → Reason
  refused : Refusal → Reason
  other_selection : Reason
  host_expects : Bytes → Reason
  pcrs_match : Reason
  unknown_drift : Why → Reason

-- `enum Decision`
pub data Decision : Type 0 where
  reenroll : Plan → Decision
  leave : Reason → Decision

-- `token_refusal`
unfoldable pub token_refusal : Tpm2Token → Option Refusal
token_refusal token =
    if token.pin
    then some needs_pin
    else elim token.advanced [ none ↦ none | some kind ↦ some (uses kind) ]

-- `token.bank.as_deref().unwrap_or("sha256")`
unfoldable pub header_bank : Tpm2Token → Bytes
header_bank token = elim token.bank [ none ↦ codes "sha256" | some b ↦ b ]

-- `same_selection`: whether it is `Ok`
unfoldable pub same_selection : Tpm2Token → Volume → Bool
same_selection token config =
    equal token.pcrs config.pcrs && equal (header_bank token) (bank_name config.bank)

-- `PUBLIC_KEY_PATHS`, then `PCRLOCK_PATHS`
abbrev pub policy_paths : List Bytes
policy_paths =
    codes "/etc/systemd/tpm2-pcr-public-key.pem"
    ∷ codes "/run/systemd/tpm2-pcr-public-key.pem"
    ∷ codes "/usr/local/lib/systemd/tpm2-pcr-public-key.pem"
    ∷ codes "/usr/lib/systemd/tpm2-pcr-public-key.pem"
    ∷ codes "/run/systemd/pcrlock.json"
    ∷ codes "/var/lib/systemd/pcrlock.json"
    ∷ []

-- What `drifted` makes of the drift.
unfoldable pub decide : Tpm2Token → Drift → Decision
decide token (drifted enrolled current) =
    reenroll
      (record { old_token = some token.index; enrolled = token.policy_hash; state = current })
decide token matches = leave pcrs_match
decide token (unknown why) = leave (unknown_drift why)

module _ (os : Os) where
  -- `find` over the paths, which stops at the first that exists
  unfoldable pub first_existing : List Bytes → Sys os → Option Bytes × Sys os
  first_existing [] s = (none, s)
  first_existing (path ∷ paths) s =
      let asked = ask os (os.exists path) s in
      let later = first_existing paths asked.1 in if asked.0 then (some path, asked.1) else later

  -- `host_policy`
  unfoldable pub host_policy : Sys os → Option Bytes × Sys os
  host_policy = first_existing policy_paths

  -- The part of `drifted` after the checks of the token itself.
  unfoldable pub drifted_on_host :
      Tpm2Token → Volume → ℕ → Option Bytes × Sys os → Decision × Sys os
  drifted_on_host token config tpm (some path, s) = (leave (host_expects path), s)
  drifted_on_host token config tpm (none, s) =
      let found = Drift.check os tpm token config.pcrs config.bank s in
      (decide token found.0, found.1)

  -- `drifted`
  unfoldable pub drifted_token : Tpm2Token → Volume → ℕ → Sys os → Decision × Sys os
  drifted_token token config tpm s = elim (token_refusal token) [
    | some why ↦ (leave (refused why), s)
    | none ↦
        if not (same_selection token config)
        then (leave other_selection, s)
        else drifted_on_host token config tpm (host_policy s)
  ]

  -- The dispatch on the number of tokens.
  unfoldable pub with_tokens : List Tpm2Token → Volume → ℕ → Sys os → Decision × Sys os
  with_tokens [] config tpm s = (leave absent, s)
  with_tokens (token ∷ []) config tpm s = drifted_token token config tpm s
  with_tokens tokens config tpm s = (leave (several_tokens (length tokens)), s)

  unfoldable pub with_lockout :
      List Tpm2Token → Volume → ℕ → Result TpmError Lockout × Sys os → Decision × Sys os
  with_lockout tokens config tpm (err e, s) = (leave (lockout_unreadable e), s)
  with_lockout tokens config tpm (ok l, s) =
      if l.in_lockout then (leave (in_lockout l), s) else with_tokens tokens config tpm s

  module _ (json : Json) where
    unfoldable pub with_read :
        Volume → ℕ → Result ReadError (List Tpm2Token) × Sys os → Decision × Sys os
    with_read config tpm (err e, s) = (leave (tokens_unreadable e), s)
    with_read config tpm (ok tokens, s) = with_lockout tokens config tpm (lockout os tpm s)

    -- `check`
    unfoldable pub check : Volume → Device → ℕ → Sys os → Decision × Sys os
    check config device tpm s = with_read config tpm (read os json device s)

-- The lines that `log_state` prints: each PCR with its digest in hexadecimal.
unfoldable pub state_lines : Result TpmError (Option (List (ℕ × Bytes))) → List (ℕ × Bytes)
state_lines (ok (some values)) = map (λ v. (v.0, hex v.1)) values
state_lines (ok none) = []
state_lines (err e) = []

-- `log_state`
unfoldable pub log_state : (os : Os) → ℕ → Volume → Sys os → List (ℕ × Bytes) × Sys os
log_state os tpm config s =
    let got = read_pcrs os tpm config.bank config.pcrs s in (state_lines got.0, got.1)

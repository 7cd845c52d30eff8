-- ===== src/Preflight/Adds.antt =====
-- The preflight adds the commands that are written to the TPM and the spawn of cryptsetup.
use tpm2_autoenroll.Base.{
  if◌then◌else◌, Bool-cases, Option-cases, Bytes, ℕ, inl, inr, true, false, Option, none, some,
  List, [], ◌∷◌,
}
use tpm2_autoenroll.Base.Results.{Result, ok, err}
use tpm2_autoenroll.Os.{Os, Event, ask}
use tpm2_autoenroll.Os.Adds.{Adds, Allows, Adds-then, Adds-with, Adds-value, Adds-ask}
use tpm2_autoenroll.Config.{Volume}
use tpm2_autoenroll.Device.{Device}
use tpm2_autoenroll.Drift.Adds.{Adds-check_drift}
use tpm2_autoenroll.Drift
use tpm2_autoenroll.Json.{Json}
use tpm2_autoenroll.Preflight.{
  first_existing, host_policy, drifted_on_host, drifted_token, with_tokens, with_lockout, with_read,
  check, decide, policy_paths, log_state, state_lines, same_selection, token_refusal,
}
use tpm2_autoenroll.Session.{lockout, read_pcrs}
use tpm2_autoenroll.Session.Adds.{Adds-lockout, Adds-read_pcrs}
use tpm2_autoenroll.Token.{Tpm2Token}
use tpm2_autoenroll.Token.Read.{ReadError, read}
use tpm2_autoenroll.Token.Read.Adds.{Adds-read}
use tpm2_autoenroll.Tpm.{Lockout}
use tpm2_autoenroll.Wire.{TpmError}

module _ {os : Os} {P : Event → Type 0} where
  Adds-first_existing : (paths : List Bytes) → Adds P (first_existing os paths)
  unfolding first_existing
  Adds-first_existing [] = Adds-value none
  Adds-first_existing (path ∷ paths) =
      Adds-then (ask os (os.exists path))
        (λ found s. if found then (some path, s) else first_existing os paths s)
        (Adds-ask (os.exists path))
        (λ found.
          elim found
            as (λ b. Adds P (λ s. if b then (some path, s) else first_existing os paths s)) [
              | true ↦ Adds-value (some path)
              | false ↦ Adds-first_existing paths
            ])

  module _ (h : Allows P) (config : Volume) (tpm : ℕ) where
    Adds-on_host :
        (token : Tpm2Token) (found : Option Bytes)
        → Adds P (λ s. drifted_on_host os token config tpm (found, s))
    unfolding drifted_on_host
    Adds-on_host token (some path) = Adds-value _
    Adds-on_host token none =
        Adds-with (Drift.check os tpm token config.pcrs config.bank) (decide token)
          (Adds-check_drift h tpm token config.pcrs config.bank)

    Adds-drifted_token : (token : Tpm2Token) → Adds P (drifted_token os token config tpm)
    unfolding drifted_token host_policy
    Adds-drifted_token token = elim (Option-cases (token_refusal token)) [
      | inr e ↦ rw (drifted_token, e.1) (Adds-value _)
      | inl e ↦ elim (Bool-cases (same_selection token config)) [
        | inr f ↦ rw (drifted_token, e, f) (Adds-value _)
        | inl f ↦
            rw (drifted_token, e, f)
              (Adds-then (host_policy os)
                (λ found s. drifted_on_host os token config tpm (found, s))
                (Adds-first_existing policy_paths) (Adds-on_host token))
      ]
    ]

    Adds-with_tokens : (tokens : List Tpm2Token) → Adds P (with_tokens os tokens config tpm)
    unfolding with_tokens
    Adds-with_tokens [] = Adds-value _
    Adds-with_tokens (token ∷ []) = Adds-drifted_token token
    Adds-with_tokens (token ∷ t ∷ tokens) = Adds-value _

    Adds-with_lockout :
        (tokens : List Tpm2Token) (r : Result TpmError Lockout)
        → Adds P (λ s. with_lockout os tokens config tpm (r, s))
    unfolding with_lockout
    Adds-with_lockout tokens (err e) = Adds-value _
    Adds-with_lockout tokens (ok l) = elim (Bool-cases l.in_lockout) [
      | inl e ↦ rw (with_lockout, e) (Adds-value _)
      | inr e ↦ rw (with_lockout, e) (Adds-with_tokens tokens)
    ]

    Adds-with_read :
        (json : Json) (r : Result ReadError (List Tpm2Token))
        → Adds P (λ s. with_read os json config tpm (r, s))
    unfolding with_read
    Adds-with_read json (err e) = Adds-value _
    Adds-with_read json (ok tokens) =
        Adds-then (lockout os tpm) (λ r s. with_lockout os tokens config tpm (r, s))
          (Adds-lockout h tpm) (Adds-with_lockout tokens)

    pub Adds-check_preflight :
        (json : Json) (device : Device) → Adds P (check os json config device tpm)
    unfolding check
    Adds-check_preflight json device =
        Adds-then (read os json device) (λ r s. with_read os json config tpm (r, s))
          (Adds-read json h device) (Adds-with_read json)

    pub Adds-log_state : Adds P (log_state os tpm config)
    unfolding log_state
    Adds-log_state =
        Adds-with (read_pcrs os tpm config.bank config.pcrs) state_lines
          (Adds-read_pcrs h tpm config.bank config.pcrs)

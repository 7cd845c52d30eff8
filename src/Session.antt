-- ===== src/Session.antt =====
-- src/tpm2.rs, `impl Tpm`: the exchanges with the TPM device. A `Tpm` is its descriptor.
mod Tests
pub mod Script
pub mod Flush
pub mod Pcrs
pub mod Adds
use tpm2_autoenroll.Base.{
  leb, if◌then◌else◌, length, is_empty, replicate, Bytes, codes, equal, ℕ, zero, suc, ◌+◌, ◌-◌,
  true, false, Option, none, some, List, [], ◌∷◌, ◌++◌,
}
use tpm2_autoenroll.Base.Results.{Result, ok, err}
use tpm2_autoenroll.Base.Exec.{Exec, pure, raise, lift, attempt, calls, ◌>>=◌, ◌>>◌, map_err}
use tpm2_autoenroll.Base.Sort.{sort, dedup}
use tpm2_autoenroll.Os.{
  Os, Sys, FileType, character_device, Poll, ready, timed_out, poll_error, wrote, ask, perform,
}
use tpm2_autoenroll.Pcr.{put_pcr_selection, parse_pcr_read, Round, absorb}
use tpm2_autoenroll.Tpm.{
  Bank, sha256, Lockout, command, response_payload, parse_properties, cc_flush_context,
  cc_start_auth_session, cc_get_capability, cc_pcr_read, cc_policy_pcr, cc_policy_get_digest,
  rh_null, se_trial, alg_null, cap_tpm_properties, pt_permanent, pt_max_auth_fail, max_response,
}
use tpm2_autoenroll.Wire.{
  TpmError, no_open, not_character_device, write_failed, poll_failed, read_failed, no_response,
  command_failed, put_u16, put_u32, put_tpm2b, Reader, new, u32, tpm2b,
}

-- `RESPONSE_TIMEOUT`, in seconds
abbrev pub response_timeout : ℕ
response_timeout = 30

-- `Tpm::DEFAULT_DEVICE`
abbrev pub default_device : Bytes
default_device = codes "/dev/tpmrm0"

-- The value of a read, without the reader.
abbrev pub value : {A : Type 0} → Result TpmError (A × Reader) → Result TpmError A
value (ok (a, r)) = ok a
value (err e) = err e

-- `sort_by_key(|(pcr, _)| *pcr)`; the sort is stable.
unfoldable pub insert_by_pcr : ℕ × Bytes → List (ℕ × Bytes) → List (ℕ × Bytes)
insert_by_pcr e [] = e ∷ []
insert_by_pcr e (f ∷ l) = if leb e.0 f.0 then e ∷ f ∷ l else f ∷ insert_by_pcr e l

unfoldable pub sort_by_pcr : List (ℕ × Bytes) → List (ℕ × Bytes)
sort_by_pcr [] = []
sort_by_pcr (e ∷ l) = insert_by_pcr e (sort_by_pcr l)

module _ (os : Os) where
  abbrev pub Io : Type 0 → Type 0
  Io A = Exec (Sys os) TpmError A

  unfoldable pub check_kind : FileType → ℕ → Io ℕ
  check_kind character_device fd = pure fd
  check_kind _ fd = raise not_character_device

  -- `Tpm::open`; the path "auto" stands for the default device.
  unfoldable pub open_tpm : Bytes → Io ℕ
  open_tpm device = do
    let path = if equal device (codes "auto") then default_device else device
    fd ← map_err (λ e. no_open) (ask os (os.open_file path))
    kind ← map_err (λ e. no_open) (ask os (os.file_type fd))
    check_kind kind fd

  unfoldable pub wait_for : ℕ → Poll → Io (Unit {0})
  wait_for cc ready = pure tt
  wait_for cc timed_out = raise (no_response cc)
  wait_for cc (poll_error e) = raise (poll_failed cc e)

  -- `Tpm::transact`
  unfoldable pub transact : ℕ → ℕ → Bytes → Io Bytes
  transact fd cc body = do
    map_err (write_failed cc)
        (perform os (wrote fd (command cc body)) (os.write_all fd (command cc body)))
    woken ← calls (ask os (os.poll fd response_timeout))
    wait_for cc woken
    buf ← map_err (read_failed cc) (ask os (os.read fd max_response))
    map_err (command_failed cc) (lift (response_payload buf))

  -- `Tpm::lockout`
  unfoldable pub lockout : ℕ → Io Lockout
  lockout fd = do
    payload ← transact fd cc_get_capability (
        put_u32 (put_u32 (put_u32 [] cap_tpm_properties) pt_permanent)
          (pt_max_auth_fail - pt_permanent + 1))
    lift (parse_properties payload)

  -- One round of the loop of `read_pcrs`.
  unfoldable pub read_round : ℕ → Bank → Round → Io Round
  read_round fd bank round = do
    payload ← transact fd cc_pcr_read (put_pcr_selection [] bank round.outstanding)
    read ← lift (parse_pcr_read payload)
    lift (absorb round read)

  -- `while !remaining.is_empty()`, on fuel; `none` means that the fuel ran out.
  unfoldable pub read_rounds : ℕ → ℕ → Bank → Round → Io (Option Round)
  read_rounds zero fd bank round = pure (if is_empty round.outstanding then some round else none)
  read_rounds (suc fuel) fd bank round = elim (is_empty round.outstanding) [
    | true ↦ pure (some round)
    | false ↦ do round' ← read_round fd bank round; read_rounds fuel fd bank round'
  ]

  -- `Tpm::read_pcrs`. Every round answers for one PCR at least, so as many rounds as there are
  -- PCRs are enough.
  unfoldable pub read_pcrs : ℕ → Bank → List ℕ → Io (Option (List (ℕ × Bytes)))
  read_pcrs fd bank indices = do
    let asked = dedup (sort indices)
    done ← read_rounds (length asked) fd bank (record { outstanding = asked; out = [] })
    pure (elim done [ none ↦ none | some round ↦ some (sort_by_pcr round.out) ])

  -- `Tpm::start_trial_session`
  unfoldable pub start_trial_session : ℕ → Io ℕ
  start_trial_session fd = do
    payload ← transact fd cc_start_auth_session (
        put_u16
          (put_u16
            (put_tpm2b (put_tpm2b (put_u32 (put_u32 [] rh_null) rh_null) (replicate 32 0)) []
              ++ se_trial ∷ [])
            alg_null)
          sha256)
    lift (value (u32 (new payload)))

  -- `Tpm::flush`
  unfoldable pub flush : ℕ → ℕ → Io (Unit {0})
  flush fd handle = do transact fd cc_flush_context (put_u32 [] handle); pure tt

  -- `Tpm::build_policy`
  unfoldable pub build_policy : ℕ → ℕ → Bank → List ℕ → Io Bytes
  build_policy fd session bank indices = do
    transact fd cc_policy_pcr (put_pcr_selection (put_u16 (put_u32 [] session) 0) bank indices)
    payload ← transact fd cc_policy_get_digest (put_u32 [] session)
    lift (value (tpm2b (new payload)))

  -- `Tpm::pcr_policy_digest`. A flush that fails is only logged.
  unfoldable pub pcr_policy_digest : ℕ → Bank → List ℕ → Io Bytes
  pcr_policy_digest fd bank indices = do
    session ← start_trial_session fd
    result ← attempt (build_policy fd session bank indices)
    flushed ← attempt (flush fd session)
    lift result

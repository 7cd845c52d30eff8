-- ===== src/Reenroll/Stale.antt =====
-- A volume whose policy is stale: its token, a TPM whose PCRs have moved on, and an agreement for good.
use tpm2_autoenroll.Base.{
  if◌then◌else◌, length, is_empty, Bytes, codes, equal, ◌+◌, ◌≡◌, refl, ◌↔◌, ◌⊎◌, inl, true, false,
  not, ◌&&◌, none, some, List, [], ◌∷◌, ◌++◌,
}
use tpm2_autoenroll.Base.Exec.{◌>>=◌}
use tpm2_autoenroll.Base.Results.{ok}
use tpm2_autoenroll.Base.Sort.{sort, dedup}
use tpm2_autoenroll.Base.Utf8.{from_utf8_lossy}
use tpm2_autoenroll.Acquire.{terminating}
use tpm2_autoenroll.Child.{collect, collect_loop, wake, drain_ready, drain, probe, fill, is_done}
use tpm2_autoenroll.Child.Run.{run, finish, kill_child}
use tpm2_autoenroll.Config.{Volume}
use tpm2_autoenroll.Consent.{
  Decisions, undecided, accept, accepted, declined, is_member, add_member,
}
use tpm2_autoenroll.Device.{Device, with_secret, secret_file, drop_secret, overwritten, wipe_from}
use tpm2_autoenroll.Drift
use tpm2_autoenroll.Enroll
use tpm2_autoenroll.Enroll.Enrolled.{Enrolled, run-Enrolled}
use tpm2_autoenroll.Hex.{unhex, unhex_pairs, to_digit}
use tpm2_autoenroll.Json.{get}
use tpm2_autoenroll.Json.Tree.{Tree, text, number, no_items, no_fields, item, field, holding}
use tpm2_autoenroll.Os.{Os, Sys, polled, got, ask, perform}
use tpm2_autoenroll.Preflight
use tpm2_autoenroll.Preflight.Repair.{IsRepair, check-iff-IsRepair}
use tpm2_autoenroll.Os.Adds.{Extends}
use tpm2_autoenroll.Preflight.{Plan, reenroll}
use tpm2_autoenroll.Reenroll.{maybe_reenroll, verify}
use tpm2_autoenroll.Reenroll.Verify.{IsTrue, verify-IsTrue}
use tpm2_autoenroll.Reenroll.Granted.{Granted, Agreed, KeepsHeader, maybe_reenroll-Granted}
use tpm2_autoenroll.Reenroll.Repaired.{Repaired, maybe_reenroll-Repaired}
use tpm2_autoenroll.Session.{open_tpm, check_kind}
use tpm2_autoenroll.Session
use tpm2_autoenroll.Token
use tpm2_autoenroll.Tpm
use tpm2_autoenroll.Wire
use tpm2_autoenroll.Session.Script.{scripted}
use tpm2_autoenroll.Token.Read
use tpm2_autoenroll.Wire.{to_be16, to_be32, put_tpm2b}

abbrev header : Tree
header =
    field (codes "tokens")
      (field (codes "0")
        (field (codes "type") (text (codes "systemd-tpm2")) (
          field (codes "tpm2-pcrs") (item (number 7) no_items)
            (field (codes "tpm2-policy-hash") (text (codes "ab07")) no_fields)))
        no_fields)
      no_fields

-- A response without sessions and with code 0.
abbrev response : Bytes → Bytes
response payload = to_be16 0x8001 ++ (to_be32 (10 + length payload) ++ (to_be32 0 ++ payload))

-- Not in lockout; then a session, the policy, its digest, and the end of the session.
abbrev answers : List Bytes
answers =
    response (0 ∷ (to_be32 6 ++ (to_be32 1 ++ (to_be32 0x200 ++ to_be32 0))))
    ∷ response (to_be32 0x3000000 ++ to_be16 0)
    ∷ response []
    ∷ response (put_tpm2b [] (1 ∷ 2 ∷ []))
    ∷ response []
    ∷ []

-- cryptsetup prints that header; every child exits with 0.
abbrev stale : Os
stale = record scripted {
  spawn = λ cmd timeout w. (
    ok (record {
      pidfd = ok tt;
      wakeups =
          (if cmd.stdout_piped
            then polled false (some (got (codes "document"))) none
              ∷ polled true (some (got [])) (some (got []))
              ∷ []
            else polled true none (some (got [])) ∷ []);
      status = ok (some 0);
    }),
    w,
  );
}

abbrev root : Volume
root = record {
  name = codes "root";
  device = codes "/dev/sda2";
  tpm2_device = codes "/dev/tpmrm0";
  pcrs = 7 ∷ [];
  bank = 11;
}

abbrev disk : Device
disk = record { fd = 5; name = codes "/dev/sda2" }

abbrev plan : Plan
plan = record { old_token = some 0; enrolled = 0xab ∷ 0x07 ∷ []; state = 1 ∷ 2 ∷ [] }

abbrev agreed_before : Decisions
agreed_before = accept (1 ∷ 2 ∷ []) undecided

abbrev at_boot : Sys stale
at_boot = record { world = answers; trace = [] }

opens : (open_tpm stale (codes "/dev/tpmrm0") (terminating stale at_boot).1).0 ≡ ok 3
unfolding open_tpm terminating ask ◌>>=◌ equal codes check_kind
opens = refl

plans :
    (Preflight.check stale
      (holding header)
      root
      disk
      3
      (open_tpm stale (codes "/dev/tpmrm0") (terminating stale at_boot).1).1).0
    ≡ reenroll plan
unfolding Preflight.check open_tpm terminating ask ◌>>=◌ equal codes Preflight.with_read Read.read
    run perform finish collect collect_loop Read.dump_command is_done wake drain_ready drain fill
    Read.dumped Token.parse from_utf8_lossy Token.tokens_of dedup sort kill_child probe Drift.check
    Drift.compare_digest to_digit unhex unhex_pairs get Preflight.decide Preflight.drifted_on_host
    Preflight.drifted_token Preflight.first_existing Preflight.header_bank Preflight.host_policy
    Preflight.same_selection Preflight.token_refusal Preflight.with_lockout Preflight.with_tokens
    Session.build_policy check_kind Session.flush Session.lockout Session.pcr_policy_digest
    Session.start_trial_session Session.transact Session.wait_for Token.advanced_kind Token.and_then
    Token.collect_pcrs Token.collect_tokens Token.insert_token Token.is_known_key
    Token.is_tpm2_token Token.only_item Token.or_false Token.parse_digits Token.parse_u32
    Token.pcr_list Token.single_shard Token.sort_tokens Token.token Token.token_hash
    Token.token_pcrs Tpm.bank_name Tpm.command Tpm.lockout_of Tpm.parse_properties
    Tpm.read_properties Tpm.record_property Tpm.response_payload Wire.bytes put_tpm2b Wire.put_u16
    Wire.put_u32 Wire.tpm2b Wire.u16 Wire.u32 Wire.u8
plans = refl

has_agreed : accepted agreed_before plan.state ≡ true
unfolding accepted accept is_member add_member equal
has_agreed = refl

granted : Granted (holding header) root disk agreed_before at_boot
unfolding Agreed
granted = record { tpm = 3; plan = plan; opened = opens; planned = plans; agreed = inl has_agreed }

fresh : (not (is_empty plan.state) && declined agreed_before plan.state) ≡ false
unfolding declined accept is_member
fresh = refl

maybe_reenroll-Repaired_example :
    let r =
      maybe_reenroll stale (holding header) root disk (codes "hunter2") agreed_before at_boot in
    Repaired stale root disk (codes "hunter2") at_boot (r.0.0, r.1)
unfolding granted declined
maybe_reenroll-Repaired_example =
    maybe_reenroll-Repaired stale (λ w. refl) (holding header) root disk (codes "hunter2")
      agreed_before at_boot granted fresh

maybe_reenroll-Granted_example :
    Extends KeepsHeader at_boot
      (maybe_reenroll stale (holding header) root disk (codes "hunter2") agreed_before at_boot).1
    ⊎ Granted (holding header) root disk agreed_before at_boot
maybe_reenroll-Granted_example =
    maybe_reenroll-Granted (holding header) root disk (codes "hunter2") agreed_before at_boot

check-iff-IsRepair_example :
    let opened = (open_tpm stale (codes "/dev/tpmrm0") (terminating stale at_boot).1).1 in
    (Preflight.check stale (holding header) root disk 3 opened).0 ≡ reenroll plan
    ↔ IsRepair stale (holding header) root disk 3 opened plan
check-iff-IsRepair_example =
    check-iff-IsRepair stale (holding header) root disk 3
      (open_tpm stale (codes "/dev/tpmrm0") (terminating stale at_boot).1).1 plan

enrolls :
    (Enroll.run stale disk (codes "/dev/tpmrm0") (7 ∷ []) 11 (codes "hunter2") at_boot).0 ≡ ok tt
unfolding Enroll.run with_secret ◌>>=◌ secret_file ask Enroll.enroll_with run perform finish collect
    collect_loop Enroll.enroll_command is_done wake drain_ready drain fill Enroll.success codes
    kill_child probe drop_secret overwritten wipe_from Tpm.bank_name
enrolls = refl

run-Enrolled_example :
    Enrolled disk
      (codes "/dev/tpmrm0")
      (7 ∷ [])
      11
      (codes "hunter2")
      at_boot
      (Enroll.run stale disk (codes "/dev/tpmrm0") (7 ∷ []) 11 (codes "hunter2") at_boot).1
run-Enrolled_example =
    run-Enrolled disk (codes "/dev/tpmrm0") (7 ∷ []) 11 (codes "hunter2") at_boot enrolls

abbrev first_binding : Plan
first_binding = record { old_token = none; enrolled = 0xab ∷ 0x07 ∷ []; state = 1 ∷ 2 ∷ [] }

verify-IsTrue_example :
    IsTrue stale
      (holding header)
      root
      disk
      first_binding
      3
      at_boot
      (verify stale (holding header) root disk first_binding 3 at_boot).0
verify-IsTrue_example = verify-IsTrue stale (holding header) root disk first_binding 3 at_boot

-- ===== src/Session/Tests.antt =====
-- A TPM that answers from a script, and runs of `impl Tpm` against it.
use tpm2_autoenroll.Base.{length, replicate, Bytes, ◌+◌, ◌≡◌, refl, [], ◌∷◌, ◌++◌}
use tpm2_autoenroll.Base.Results.{ok}
use tpm2_autoenroll.Base.Exec.{◌>>=◌}
use tpm2_autoenroll.Os.{Sys, ask, perform, wrote}
use tpm2_autoenroll.Session.{
  read_pcrs, start_trial_session, pcr_policy_digest, build_policy, transact, wait_for,
}
use tpm2_autoenroll.Session.Script.{scripted}
use tpm2_autoenroll.Session.Pcrs.{Answers, read_pcrs-Answers}
use tpm2_autoenroll.Session.Flush.{pcr_policy_digest-flushes}
use tpm2_autoenroll.Wire.{to_be16, to_be32, put_u16, put_u32, put_tpm2b, u32, u16, bytes, remaining}
use tpm2_autoenroll.Tpm.{command, response_payload}
use tpm2_autoenroll.Pcr.RoundTrip.{answer}
use tpm2_autoenroll.Base.Sort.{dedup, sort}

-- A response without sessions and with code 0.
abbrev response : Bytes → Bytes
response payload = to_be16 0x8001 ++ (to_be32 (10 + length payload) ++ (to_be32 0 ++ payload))

abbrev session_started : Sys scripted
session_started = record { world = response (to_be32 0x3000000 ++ to_be16 0) ∷ []; trace = [] }

abbrev after_start : Sys scripted
after_start = record {
  world = [];
  trace =
      wrote 3 (
        command 0x176 (
          put_u16
            (put_u16
              (put_tpm2b (put_tpm2b (put_u32 (put_u32 [] 0x4000_0007) 0x4000_0007) (replicate 32 0))
                  []
                ++ 3 ∷ [])
              0x10)
            11))
      ∷ [];
}

started : start_trial_session scripted 3 session_started ≡ (ok 0x3000000, after_start)
unfolding start_trial_session transact wait_for ask perform ◌>>=◌ response_payload u32 u16 bytes
    remaining put_u32 put_u16 put_tpm2b
started = refl

pcr_policy_digest-flushes_example :
    let built = build_policy scripted 3 0x3000000 11 (7 ∷ []) after_start in
    ((pcr_policy_digest scripted 3 11 (7 ∷ []) session_started).0 ≡ built.0)
    × ((pcr_policy_digest scripted 3 11 (7 ∷ []) session_started).1.trace
        ≡ built.1.trace ++ wrote 3 (command 0x165 (put_u32 [] 0x3000000)) ∷ [])
pcr_policy_digest-flushes_example =
    pcr_policy_digest-flushes scripted 3 11 (7 ∷ []) session_started after_start 0x3000000 started

abbrev two_digests : Sys scripted
two_digests = record {
  world =
      response (answer 1 11 (7 ∷ []) ((1 ∷ 2 ∷ []) ∷ []))
      ∷ response (answer 2 11 (4 ∷ []) ((3 ∷ []) ∷ []))
      ∷ [];
  trace = [];
}

read_pcrs-Answers_example :
    Answers scripted 3 11
      (dedup (sort (7 ∷ 4 ∷ 7 ∷ [])))
      (read_pcrs scripted 3 11 (7 ∷ 4 ∷ 7 ∷ []) two_digests).0
read_pcrs-Answers_example = read_pcrs-Answers scripted 3 11 (7 ∷ 4 ∷ 7 ∷ []) two_digests

-- ===== src/Session/Flush.antt =====
-- A trial session is always given back.
use tpm2_autoenroll.Base.{Bytes, ℕ, ◌≡◌, refl, List, [], ◌∷◌, ◌++◌}
use tpm2_autoenroll.Base.Results.{ok}
use tpm2_autoenroll.Base.Exec.{◌>>=◌}
use tpm2_autoenroll.Os.Emits.{Emits, Emits-pure, Emits-raise, emits_rules}
use tpm2_autoenroll.Os.{Os, Sys, wrote, Poll, ready, timed_out, poll_error}
use tpm2_autoenroll.Session.{
  transact, flush, wait_for, build_policy, start_trial_session, pcr_policy_digest,
}
use tpm2_autoenroll.Tpm.{Bank, command, cc_flush_context}
use tpm2_autoenroll.Wire.{put_u32, no_response, poll_failed}

module _ (os : Os) where
  wait_for-Emits : (cc : ℕ) (woken : Poll) → Emits [] (wait_for os cc woken)
  unfolding wait_for
  wait_for-Emits cc ready = Emits-pure tt
  wait_for-Emits cc timed_out = Emits-raise (no_response cc)
  wait_for-Emits cc (poll_error e) = Emits-raise (poll_failed cc e)

  -- A transaction sends one command, whatever comes of it.
  pub transact-Emits :
      (fd cc : ℕ) (body : Bytes) → Emits (wrote fd (command cc body) ∷ []) (transact os fd cc body)
  unfolding transact
  transact-Emits fd cc body = search (emits_rules, wait_for-Emits) depth 9

  flush-Emits :
      (fd session : ℕ)
      → Emits (wrote fd (command cc_flush_context (put_u32 [] session)) ∷ []) (flush os fd session)
  unfolding flush
  flush-Emits fd session = search (emits_rules, transact-Emits)

  -- Once a session has been started, whatever comes of the policy and of the flush, the last command
  -- that is sent is the FlushContext of that session, and the result is that of the policy.
  pub pcr_policy_digest-flushes :
      (fd : ℕ) (bank : Bank) (indices : List ℕ) (s s1 : Sys os) (session : ℕ)
      → start_trial_session os fd s ≡ (ok session, s1)
      → let built = build_policy os fd session bank indices s1 in
        ((pcr_policy_digest os fd bank indices s).0 ≡ built.0)
        × ((pcr_policy_digest os fd bank indices s).1.trace
            ≡ built.1.trace ++ wrote fd (command cc_flush_context (put_u32 [] session)) ∷ [])
  unfolding pcr_policy_digest ◌>>=◌
  pcr_policy_digest-flushes fd bank indices s s1 session e =
      rw e ((refl, (flush-Emits fd session).at (build_policy os fd session bank indices s1).1))

-- ===== src/Consent/Clean.antt =====
-- When the consent prompt counts as an agreement.
use tpm2_autoenroll.Base.{
  ◌==◌, ==_iff, Bool-cases, Option-cases, Bytes, ℕ, ◌+◌, ◌≡◌, refl, ap, ◌∙◌, ◌≢◌, inl, inr, some,
  List,
}
use tpm2_autoenroll.Base.Results.{Result, ok, err}
use tpm2_autoenroll.AskPw.{prompt_timeout, prompt_grace}
use tpm2_autoenroll.Child.{ChildError, Output}
use tpm2_autoenroll.Child.Run.{run}
use tpm2_autoenroll.Consent.{Answer, no_, classify_response, answer_to, consent_command, ask}
use tpm2_autoenroll.Os.{Os, Sys}
use tpm2_autoenroll.Tpm.{Bank}

-- The prompt ended by itself, with success, and printed this answer.
pub record Clean (ran : Result ChildError Output) (answer : Answer) : Type 0 where
  pub out : Output
  pub ended : ran ≡ ok out
  pub success : out.status ≡ some 0
  pub said : classify_response out.stdout ≡ answer

answer_to-Clean : (ran : Result ChildError Output) → answer_to ran ≢ no_ → Clean ran (answer_to ran)
unfolding answer_to
answer_to-Clean (err e) h = absurd (h refl)
answer_to-Clean (ok out) h = elim (Option-cases out.status) [
  | inl e ↦ absurd (h (rw (answer_to, e)))
  | inr (code, e) ↦ elim (Bool-cases (code == 0)) [
    | inr f ↦ absurd (h (rw (answer_to, e, f)))
    | inl f ↦ record {
      out = out;
      ended = refl;
      success = e ∙ ap some ((==_iff code 0).0 f);
      said = rw (answer_to, e, f);
    }
  ]
]

-- Any answer but "no" comes from a prompt that ended by itself with the exit code 0, in time, and is
-- what was printed: a prompt that fails, is killed or cannot be started counts as a refusal.
pub ask-Clean :
    (os : Os) (volume device : Bytes) (pcrs : List ℕ) (bank : Bank) (s : Sys os)
    → (ask os volume device pcrs bank s).0 ≢ no_
    → Clean
        (run os (consent_command volume device pcrs bank) (prompt_timeout + prompt_grace) 4096 s).0
        (ask os volume device pcrs bank s).0
unfolding ask
ask-Clean os volume device pcrs bank s h =
    answer_to-Clean
      (run os (consent_command volume device pcrs bank) (prompt_timeout + prompt_grace) 4096 s).0 h

-- ===== src/Consent.antt =====
-- src/consent.rs: the question that a human answers before a header is rewritten.
pub mod Adds
mod Tests
pub mod Clean
pub mod Answers
use tpm2_autoenroll.Base.{
  leb, ◌==◌, if◌then◌else◌, any, set, Bytes, codes, equal, starts_with, ℕ, ◌+◌, Bool, true, false,
  ◌&&◌, ◌||◌, none, some, List, [], ◌∷◌, ◌++◌,
}
use tpm2_autoenroll.Base.Decimal.{decimal}
use tpm2_autoenroll.Base.Utf8.{from_utf8_lossy}
use tpm2_autoenroll.Base.Trim.{trim}
use tpm2_autoenroll.Base.Results.{Result, ok, err}
use tpm2_autoenroll.AskPw.{cescape, prompt_timeout, prompt_grace}
use tpm2_autoenroll.Child.{ChildError, Output}
use tpm2_autoenroll.Child.Run.{run}
use tpm2_autoenroll.Config.{pcr_list}
use tpm2_autoenroll.Os.{Os, Sys, Command}
use tpm2_autoenroll.Tpm.{Bank, bank_name}

-- `struct Decisions`
pub record Decisions : Type 0 where
  pub declines : List Bytes
  pub accepts : List Bytes

abbrev pub undecided : Decisions
undecided = record { declines = []; accepts = [] }

-- `HashSet::contains` and `HashSet::insert`
unfoldable pub is_member : Bytes → List Bytes → Bool
is_member state set = any (λ e. equal e state) set

unfoldable pub add_member : Bytes → List Bytes → List Bytes
add_member state set = if is_member state set then set else state ∷ set

unfoldable pub declined : Decisions → Bytes → Bool
declined d state = is_member state d.declines

unfoldable pub decline : Bytes → Decisions → Decisions
decline state d = record d { declines = add_member state d.declines }

unfoldable pub accepted : Decisions → Bytes → Bool
accepted d state = is_member state d.accepts

unfoldable pub accept : Bytes → Decisions → Decisions
accept state d = record d { accepts = add_member state d.accepts }

-- `enum Answer`
pub data Answer : Type 0 where
  no_ yes_ always : Answer

-- `text.lines().next().unwrap_or("")`: a return before the newline goes with it.
first_line : Bytes → Bytes
first_line [] = []
first_line (b ∷ s) =
    if b == b'\n' || b == b'\r' && starts_with (codes "\n") s then [] else b ∷ first_line s

-- `to_ascii_lowercase`
lower : ℕ → ℕ
lower b = if leb b'A' b && leb b b'Z' then b + 32 else b

pub lowercase : Bytes → Bytes
lowercase [] = []
lowercase (b ∷ s) = lower b ∷ lowercase s

-- The match on the word.
pub answer_of : Bytes → Answer
answer_of word =
    if equal word (codes "y") || equal word (codes "yes")
    then yes_
    else if equal word (codes "a") || equal word (codes "always")
    then always
    else no_

-- `classify_response`
pub classify_response : Bytes → Answer
classify_response answer = answer_of (lowercase (trim (first_line (from_utf8_lossy answer))))

pub message : Bytes → List ℕ → Bank → Bytes
message volume pcrs bank =
    codes "Boot measurements for "
    ++ (volume
        ++ (codes " have changed since TPM2 enrollment. Re-enroll TPM2 for "
            ++ (volume
                ++ (codes " against PCRs "
                    ++ (pcr_list pcrs
                        ++ (codes " ("
                            ++ (bank_name bank
                                ++ codes ") in their current state? [y(es)/n(o)/a(lways)]")))))))

pub consent_command : Bytes → Bytes → List ℕ → Bank → Command
consent_command volume device pcrs bank = record {
  program = codes "systemd-ask-password";
  args =
      codes "--icon=drive-harddisk"
      ∷ codes "--emoji=yes"
      ∷ (codes "--id=tpm2-autoenroll:" ++ cescape device)
      ∷ codes "--echo=yes"
      ∷ (codes "--timeout=" ++ decimal prompt_timeout)
      ∷ codes "-n"
      ∷ message volume pcrs bank
      ∷ [];
  inherited = [];
  stdout_piped = true;
  stderr_piped = false;
}

-- What the end of the prompt amounts to: only a clean exit is listened to.
pub answer_to : Result ChildError Output → Answer
answer_to (err e) = no_
answer_to (ok out) = elim out.status [
  | none ↦ no_
  | some code ↦ if code == 0 then classify_response out.stdout else no_
]

module _ (os : Os) where
  -- `ask`
  pub ask : Bytes → Bytes → List ℕ → Bank → Sys os → Answer × Sys os
  ask volume device pcrs bank s =
      let ran =
        run os (consent_command volume device pcrs bank) (prompt_timeout + prompt_grace) 4096 s in
      (answer_to ran.0, ran.1)

-- ===== src/Consent/Answers.antt =====
-- A consent prompt that prints a given answer.
use tpm2_autoenroll.Base.{
  Bytes, codes, equal, starts_with, ℕ, ◌≡◌, refl, true, false, none, some, List, [], ◌∷◌,
}
use tpm2_autoenroll.Base.Exec.{◌>>=◌}
use tpm2_autoenroll.Base.Results.{ok}
use tpm2_autoenroll.Base.Utf8.{from_utf8_lossy}
use tpm2_autoenroll.Base.Trim.{
  trim, trim_start, trim_end, skip, behind_space, behind_2, behind_3, is_space_1, is_space_2,
  is_space_3,
}
use tpm2_autoenroll.Child.{collect, collect_loop, wake, drain_ready, drain, probe, fill, is_done}
use tpm2_autoenroll.Child.Run.{run, finish}
use tpm2_autoenroll.Consent.{
  consent_command, no_, always, classify_response, first_line, lowercase, lower, answer_of,
  answer_to, ask,
}
use tpm2_autoenroll.Os.Failing.{failing}
use tpm2_autoenroll.Os.{Os, Sys, polled, got, character_device, perform}
use tpm2_autoenroll.Tpm.{Bank}

-- The consent prompt prints `answer`.
abbrev pub says : Bytes → Os
says answer = record (failing (Unit {0})) {
  open_file = λ path w. (ok 3, w);
  file_type = λ fd w. (ok character_device, w);
  memfd_create = λ w. (ok 4, w);
  spawn = λ cmd timeout w. (
    ok (record {
      pidfd = ok tt;
      wakeups = polled false (some (got answer)) none ∷ polled true (some (got [])) none ∷ [];
      status = ok (some 0);
    }),
    w,
  );
}

pub ask-no :
    (volume device : Bytes) (pcrs : List ℕ) (bank : Bank) (s : Sys (says (codes "n\n")))
    → (ask (says (codes "n\n")) volume device pcrs bank s).0 ≡ no_
unfolding ask run answer_to ◌>>=◌ perform finish collect collect_loop is_done wake drain_ready drain
    consent_command fill probe codes classify_response answer_of equal lowercase lower first_line
    starts_with trim trim_start trim_end skip behind_space behind_2 behind_3 is_space_1 is_space_2
    is_space_3 from_utf8_lossy
ask-no volume device pcrs bank s = refl

pub ask-always :
    (volume device : Bytes) (pcrs : List ℕ) (bank : Bank) (s : Sys (says (codes "always\n")))
    → (ask (says (codes "always\n")) volume device pcrs bank s).0 ≡ always
unfolding ask run answer_to ◌>>=◌ perform finish collect collect_loop is_done wake drain_ready drain
    consent_command fill probe codes classify_response answer_of equal lowercase lower first_line
    starts_with trim trim_start trim_end skip behind_space behind_2 behind_3 is_space_1 is_space_2
    is_space_3 from_utf8_lossy
ask-always volume device pcrs bank s = refl

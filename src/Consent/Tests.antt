-- ===== src/Consent/Tests.antt =====
-- The prompt of the answer "always".
use tpm2_autoenroll.Base.{Bytes, codes, ◌+◌, sym, ◌∙◌, ◌≢◌, [], ◌∷◌}
use tpm2_autoenroll.AskPw.{prompt_timeout, prompt_grace}
use tpm2_autoenroll.Child.Run.{run}
use tpm2_autoenroll.Consent.{no_, always, consent_command, ask}
use tpm2_autoenroll.Consent.Answers.{says, ask-always}
use tpm2_autoenroll.Consent.Clean.{Clean, ask-Clean}
use tpm2_autoenroll.Os.{Sys}

abbrev answer : Bytes
answer = codes "always\n"

abbrev root : Bytes
root = codes "root"

abbrev device : Bytes
device = codes "/dev/sda2"

abbrev start : Sys (says answer)
start = record { world = tt; trace = [] }

always≢no : always ≢ no_
always≢no h = cc

not_no : (ask (says answer) root device (7 ∷ []) 11 start).0 ≢ no_
not_no h = always≢no (sym (ask-always root device (7 ∷ []) 11 start) ∙ h)

ask-Clean_example :
    Clean
      (run
        (says answer)
        (consent_command root device (7 ∷ []) 11)
        (prompt_timeout + prompt_grace)
        4096
        start).0
      (ask (says answer) root device (7 ∷ []) 11 start).0
ask-Clean_example = ask-Clean (says answer) root device (7 ∷ []) 11 start not_no

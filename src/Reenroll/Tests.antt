-- ===== src/Reenroll/Tests.antt =====
-- A human who declines, and one who agrees for good.
use tpm2_autoenroll.Base.{Bytes, codes, ◌≡◌, refl, false, none, some, [], ◌∷◌}
use tpm2_autoenroll.Acquire.{terminating}
use tpm2_autoenroll.Config.{Volume}
use tpm2_autoenroll.Consent.{
  undecided, declined, decline, accept, accepted, is_member, add_member, always, answer_to,
  consent_command,
}
use tpm2_autoenroll.Consent
use tpm2_autoenroll.Consent.Answers.{says, ask-no, ask-always}
use tpm2_autoenroll.Device.{Device}
use tpm2_autoenroll.Os.{Sys, ask}
use tpm2_autoenroll.Preflight.{Plan}
use tpm2_autoenroll.Reenroll.{may_enroll, ask_human, heed, declined_now, already_declined}
use tpm2_autoenroll.Reenroll.Later.{at_once, asked_too}
use tpm2_autoenroll.Reenroll.Remembered.{may_enroll-declined, may_enroll-always}

abbrev root : Volume
root = record {
  name = codes "root";
  device = codes "/dev/sda2";
  tpm2_device = codes "auto";
  pcrs = 7 ∷ [];
  bank = 11;
}

abbrev home : Volume
home = record root { name = codes "home"; device = codes "/dev/sdb1" }

abbrev disk : Device
disk = record { fd = 3; name = codes "/dev/sda2" }

abbrev plan : Plan
plan = record { old_token = some 0; enrolled = 1 ∷ []; state = 2 ∷ [] }

abbrev later : Plan
later = record plan { old_token = some 1 }

-- Another volume, with another state, that is asked about in between.
abbrev backup : Volume
backup = record root { name = codes "backup"; device = codes "/dev/sdc1" }

abbrev other : Plan
other = record plan { state = 5 ∷ [] }

abbrev at_boot : (answer : Bytes) → Sys (says answer)
at_boot answer = record { world = tt; trace = [] }

refuses :
    (may_enroll (says (codes "n\n")) plan root undecided (at_boot (codes "n\n"))).0.0
    ≡ some declined_now
unfolding may_enroll ask_human heed declined accepted is_member terminating ask
refuses = rw (ask-no (codes "root") (codes "/dev/sda2") (7 ∷ []) 11 (at_boot (codes "n\n")))

may_enroll-declined_example :
    let os = says (codes "n\n") in
    let first = (may_enroll os plan root undecided (at_boot (codes "n\n"))).0.1 in
    let decided = (may_enroll os other backup first (at_boot (codes "n\n"))).0.1 in
    may_enroll os later home decided (at_boot (codes "n\n"))
    ≡ ((some already_declined, decided), at_boot (codes "n\n"))
may_enroll-declined_example =
    may_enroll-declined plan root undecided (at_boot (codes "n\n")) refl refuses _
      (asked_too other backup (at_boot (codes "n\n")) at_once) later home (at_boot (codes "n\n"))
      refl

going : (terminating (says (codes "always\n")) (at_boot (codes "always\n"))).0 ≡ false
unfolding terminating ask
going = refl

agrees :
    (Consent.ask
      (says (codes "always\n"))
      (codes "root")
      (codes "/dev/sda2")
      (7 ∷ [])
      11
      (terminating (says (codes "always\n")) (at_boot (codes "always\n"))).1).0
    ≡ always
unfolding terminating ask
agrees = ask-always (codes "root") (codes "/dev/sda2") (7 ∷ []) 11 (at_boot (codes "always\n"))

fresh : declined undecided (2 ∷ []) ≡ false
unfolding declined is_member
fresh = refl

may_enroll-always_example :
    let os = says (codes "always\n") in
    let first = (may_enroll os plan root undecided (at_boot (codes "always\n"))).0.1 in
    let decided = (may_enroll os other backup first (at_boot (codes "always\n"))).0.1 in
    may_enroll os later home decided (at_boot (codes "always\n"))
    ≡ ((none, decided), at_boot (codes "always\n"))
may_enroll-always_example =
    may_enroll-always plan root undecided (at_boot (codes "always\n")) going agrees fresh _
      (asked_too other backup (at_boot (codes "always\n")) at_once) later home
      (at_boot (codes "always\n")) refl

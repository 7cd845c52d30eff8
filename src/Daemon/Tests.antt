-- ===== src/Daemon/Tests.antt =====
-- A daemon with one listener that nobody contacts.
use tpm2_autoenroll.Base.{
  if◌then◌else◌, length, replicate, All, Bytes, codes, equal, ℕ, suc, ◌-◌, ◌≤◌, ◌<◌, ◌≡◌, refl, ◌↔◌,
  true, false, none, some, List, [], ◌∷◌, arith,
}
use tpm2_autoenroll.Base.Results.{ok}
use tpm2_autoenroll.Consent.{undecided}
use tpm2_autoenroll.Daemon.{Listener, Loop, success, serve, finished_now}
use tpm2_autoenroll.Daemon.Done.{ReadsOnly, IsHandled, SomeLeft, finished_now_iff}
use tpm2_autoenroll.Finished.{all_answered, idle_too_long}
use tpm2_autoenroll.Daemon.Idle.{Idle, serve-ends}
use tpm2_autoenroll.Daemon.Justified.{Justified}
use tpm2_autoenroll.Serve.Genuine.{genuine}
use tpm2_autoenroll.Daemon.Rewrites.{AsConfigured, serve-AsConfigured}
use tpm2_autoenroll.Daemon.Sound.{serve-Justified}
use tpm2_autoenroll.Json.Tree.{no_fields, holding}
use tpm2_autoenroll.Os.Failing.{failing}
use tpm2_autoenroll.Os.{Os, Sys, ask}
use tpm2_autoenroll.Serve.Reply.{IsSound}

-- The world is the number of seconds since boot.
abbrev waiting : Os
waiting = record (failing ℕ) {
  seconds = λ w. (w, w);
  poll_listeners = λ fds w. (ok (replicate (length fds) false), suc w);
}

abbrev listener : Listener
listener = record {
  fd = 5;
  path = codes "/run/cryptsetup-keys.d/root.key";
  volume = record {
    name = codes "root";
    device = codes "/dev/sda2";
    tpm2_device = codes "auto";
    pcrs = 7 ∷ [];
    bank = 11;
  };
}

abbrev at_boot : Sys waiting
at_boot = record { world = 8; trace = [] }

waiting-Idle : Idle waiting
waiting-Idle = record {
  time = λ w. w;
  clock = λ w. (refl, omega arith);
  polled = λ fds w. refl;
  tick = λ fds w. omega arith;
  dir = λ path w. omega arith;
  text = λ path w. omega arith;
  flag = λ w. omega arith;
}

serve-ends_example : (serve waiting (holding no_fields) 9 301 (listener ∷ []) at_boot).0.0 ≡ success
serve-ends_example =
    serve-ends waiting-Idle (holding no_fields) 9 (listener ∷ []) 301 at_boot (omega arith)

-- A genuine peer connects, and the passphrase that an agent offers opens the volume.
abbrev busy : Os
busy = record genuine {
  poll_listeners = λ fds w. (ok (replicate (length fds) true), w);
  accept = λ fd w. (ok 9, w);
}

abbrev contacted : Sys busy
contacted = record { world = tt; trace = [] }

serve-Justified_example :
    Justified busy
      (holding no_fields)
      9
      (listener ∷ [])
      contacted
      (serve busy (holding no_fields) 9 2 (listener ∷ []) contacted).1
    × IsSound busy (serve busy (holding no_fields) 9 2 (listener ∷ []) contacted).0.1.memory
serve-Justified_example = serve-Justified busy (holding no_fields) 9 (listener ∷ []) 2 contacted

serve-AsConfigured_example :
    AsConfigured busy
      (holding no_fields)
      9
      (listener ∷ [])
      contacted
      (serve busy (holding no_fields) 9 2 (listener ∷ []) contacted).1
serve-AsConfigured_example =
    serve-AsConfigured busy (holding no_fields) 9 (listener ∷ []) 2 contacted

-- The volume `root` is open.
abbrev opened : Os
opened = record (failing (Unit {0})) {
  read_dir = λ path w. (ok (codes "dm-0" ∷ []), w);
  read_text = λ path w. (
    ok (
        if equal path (codes "/sys/block/dm-0/dm/name")
        then codes "root"
        else codes "CRYPT-LUKS2-x"),
    w,
  );
}

opened-ReadsOnly : ReadsOnly opened
opened-ReadsOnly = record { text = λ p w. refl; dir = λ p w. refl }

abbrev answered : Loop
answered = record {
  memory = record { cache = []; decided = undecided };
  served = codes "data" ∷ [];
  last_contact = 0;
}

abbrev later_on : Sys opened
later_on = record { world = tt; trace = [] }

abbrev both : List Bytes
both = codes "root" ∷ codes "data" ∷ []

finished_now_iff_example :
    ((finished_now opened both answered later_on).0 ≡ some all_answered
      ↔ All (IsHandled opened-ReadsOnly both answered later_on) both)
    × ((finished_now opened both answered later_on).0 ≡ some idle_too_long ↔ (
        SomeLeft opened-ReadsOnly both answered later_on
        × (300 ≤ (ask opened opened.seconds later_on).0 - 0)))
    × ((finished_now opened both answered later_on).0 ≡ none ↔ (
        SomeLeft opened-ReadsOnly both answered later_on
        × ((ask opened opened.seconds later_on).0 - 0 < 300)))
finished_now_iff_example = finished_now_iff opened-ReadsOnly both answered later_on

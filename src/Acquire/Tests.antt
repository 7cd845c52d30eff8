-- ===== src/Acquire/Tests.antt =====
-- A system on which cryptsetup accepts every passphrase.
use tpm2_autoenroll.Base.{
  if◌then◌else◌, Bool-cases, Bytes, codes, equal, ◌≡◌, refl, inl, inr, true, none, some, List, [],
  ◌∷◌, ◌++◌,
}
use tpm2_autoenroll.Base.Exec.{◌>>=◌}
use tpm2_autoenroll.Base.Results.{ok}
use tpm2_autoenroll.Acquire.{acquire}
use tpm2_autoenroll.Acquire.Expected.{Reliable, expected, remembered, acquire-expected}
use tpm2_autoenroll.AskPw
use tpm2_autoenroll.AskPw.{Attempt, parse_candidates, split, onto_first, non_empty}
use tpm2_autoenroll.Acquire.Tested.{IsSafe, acquire-IsSafe}
use tpm2_autoenroll.Cache.{Distinct, insert}
use tpm2_autoenroll.Config.{Volume}
use tpm2_autoenroll.Device.{Device, secret_file, with_secret, drop_secret, wipe_from, overwritten}
use tpm2_autoenroll.Child.{collect, collect_loop, wake, drain_ready, drain, probe, fill, is_done}
use tpm2_autoenroll.Child.Run.{run, finish}
use tpm2_autoenroll.Luks.{
  correct, wrong, test_passphrase, try_open, verdict_of, verdict_from_code, test_command,
}
use tpm2_autoenroll.Os.Failing.{failing}
use tpm2_autoenroll.Os.{Os, Sys, polled, got, block_device, ask, perform}

-- Every child exits with 0 at its first wake-up, having written nothing.
abbrev agreeable : Os
agreeable = record (failing (Unit {0})) {
  open_file = λ path w. (ok 3, w);
  file_type = λ fd w. (ok block_device, w);
  write_all = λ fd msg w. (ok tt, w);
  memfd_create = λ w. (ok 4, w);
  spawn = λ cmd timeout w. (
    ok (record {
      pidfd = ok tt;
      wakeups = polled true (some (got [])) (some (got [])) ∷ [];
      status = ok (some 0);
    }),
    w,
  );
}

abbrev root : Volume
root = record {
  name = codes "root";
  device = codes "/dev/sda2";
  tpm2_device = codes "auto";
  pcrs = 7 ∷ [];
  bank = 11;
}

abbrev disk : Device
disk = record { fd = 3; name = codes "/dev/sda2" }

abbrev at_boot : Sys agreeable
at_boot = record { world = tt; trace = [] }

accepts : (test_passphrase agreeable disk (codes "hunter2") at_boot).0 ≡ correct
unfolding test_command test_passphrase try_open verdict_of verdict_from_code run finish collect
    collect_loop wake drain_ready drain probe fill is_done secret_file with_secret drop_secret
    wipe_from overwritten codes ◌>>=◌ ask perform
accepts = refl

one_entry : Distinct (codes "hunter2" ∷ [])
unfolding Distinct
one_entry = (refl, tt)

acquire-IsSafe_example :
    IsSafe agreeable disk (acquire agreeable root disk (codes "hunter2" ∷ []) at_boot)
acquire-IsSafe_example =
    acquire-IsSafe agreeable root disk (codes "hunter2" ∷ []) at_boot ((disk, at_boot, accepts), tt)
      one_entry

-- cryptsetup accepts what was last written to a memfd if it is "hunter2"; the agent offers two
-- passphrases, the second of which is that one.
abbrev answer : Bytes
answer = codes "hunter1" ++ b'\n' ∷ codes "hunter2"

abbrev picky : Os
picky = record (failing Bytes) {
  write_all = λ fd msg w. (ok tt, msg);
  memfd_create = λ w. (ok 4, w);
  spawn = λ cmd timeout w. (
    ok (record {
      pidfd = ok tt;
      wakeups =
          (if cmd.stdout_piped
            then polled true (some (got answer)) none ∷ polled true (some (got [])) none ∷ []
            else polled true none (some (got [])) ∷ []);
      status =
          ok (
            if cmd.stdout_piped then some 0 else some (if equal w (codes "hunter2") then 0 else 2));
    }),
    w,
  );
}

picky_tests :
    (c : Bytes) (s : Sys picky)
    → (test_passphrase picky disk c s).0 ≡ (if equal c (codes "hunter2") then correct else wrong)
unfolding test_command test_passphrase try_open verdict_of verdict_from_code run finish collect
    collect_loop wake drain_ready drain probe fill is_done secret_file with_secret drop_secret ◌>>=◌
    ask perform
picky_tests c s = elim (Bool-cases (equal c (codes "hunter2"))) [
  | inl e ↦ rw e refl
  | inr e ↦ rw e refl
]

abbrev offered : Attempt → List Bytes
offered which = codes "hunter1" ∷ codes "hunter2" ∷ []

picky_asks :
    (which : Attempt) (s : Sys picky)
    → (AskPw.ask picky (codes "root") (codes "/dev/sda2") which s).0 ≡ ok (offered which)
unfolding ask perform AskPw.ask AskPw.answered AskPw.offered AskPw.ask_command parse_candidates
    split onto_first non_empty run finish collect collect_loop wake drain_ready drain probe fill
    is_done codes ◌>>=◌
picky_asks which s = refl

picky-Reliable : Reliable picky root disk (λ c. equal c (codes "hunter2")) offered
picky-Reliable = record { testing = picky_tests; asking = picky_asks; going = λ w. refl }

acquire-expected_example :
    (acquire picky root disk (codes "old" ∷ []) (record { world = []; trace = [] })).0
    ≡ expected (λ c. equal c (codes "hunter2")) offered (codes "old" ∷ [])
acquire-expected_example =
    acquire-expected picky-Reliable (codes "old" ∷ []) (record { world = []; trace = [] })

remembers :
    expected (λ c. equal c (codes "hunter2")) offered (codes "old" ∷ [])
    ≡ (some (codes "hunter2"), codes "old" ∷ codes "hunter2" ∷ [])
unfolding expected remembered insert codes equal
remembers = refl

-- ===== src/Serve/Tests.antt =====
-- A volume whose passphrase is in the cache, and a connection that takes two bytes at a time.
use tpm2_autoenroll.Base.{length, codes, ◌+◌, ◌≤◌, ◌≡◌, refl, ◌≢◌, ◌⊎◌, true, some, [], ◌∷◌, arith}
use tpm2_autoenroll.Base.Exec.{◌>>=◌}
use tpm2_autoenroll.Base.Results.{ok}
use tpm2_autoenroll.Cache.{Distinct}
use tpm2_autoenroll.Child.{collect, collect_loop, wake, drain_ready, drain, probe, fill, is_done}
use tpm2_autoenroll.Child.Run.{run, finish}
use tpm2_autoenroll.Config.{Volume}
use tpm2_autoenroll.Consent.{undecided}
use tpm2_autoenroll.Device.{Device, secret_file, with_secret, drop_secret, wipe_from, overwritten}
use tpm2_autoenroll.Json.Tree.{no_fields, holding}
use tpm2_autoenroll.Luks.{
  correct, test_passphrase, try_open, verdict_of, verdict_from_code, test_command,
}
use tpm2_autoenroll.Os.Adds.{Extends}
use tpm2_autoenroll.Os.Failing.{failing}
use tpm2_autoenroll.Os.{Os, Sys, polled, got, block_device, in_abstract, ask, perform}
use tpm2_autoenroll.Peer.{expected_systemd_binary}
use tpm2_autoenroll.Serve.{Memory, all_written, still_writing, write_all, next, note_sent, handle}
use tpm2_autoenroll.Serve.Reply.{IsSound, Silent, Answered, handle-Answered}
use tpm2_autoenroll.Serve.Stopped.{Untouched, handle-Untouched}
use tpm2_autoenroll.Acquire.Stopped.{Stopping}
use tpm2_autoenroll.Serve.Writes.{Sends, write_all-Sends, Patient, write_all-ends}

-- Every child exits with 0; the peer is systemd-cryptsetup for the volume "root".
abbrev pub unlocking : Os
unlocking = record (failing (Unit {0})) {
  open_file = λ path w. (ok 3, w);
  file_type = λ fd w. (ok block_device, w);
  read_text = λ path w. (ok (codes "0::/system.slice/systemd-cryptsetup@root.service\n"), w);
  read_link = λ path w. (ok expected_systemd_binary, w);
  write_all = λ fd msg w. (ok tt, w);
  write = λ fd buf w. (ok 2, w);
  memfd_create = λ w. (ok 4, w);
  peer_name = λ fd w. (ok (in_abstract (codes "f00d/cryptsetup/root")), w);
  peer_cred = λ fd w. (ok (0, 42), w);
  spawn = λ cmd timeout w. (
    ok (record {
      pidfd = ok tt;
      wakeups = polled true (some (got [])) (some (got [])) ∷ [];
      status = ok (some 0);
    }),
    w,
  );
}

abbrev pub root : Volume
root = record {
  name = codes "root";
  device = codes "/dev/sda2";
  tpm2_device = codes "auto";
  pcrs = 7 ∷ [];
  bank = 11;
}

abbrev pub disk : Device
disk = record { fd = 3; name = codes "/dev/sda2" }

abbrev at_boot : Sys unlocking
at_boot = record { world = tt; trace = [] }

abbrev memory : Memory
memory = record { cache = codes "hunter" ∷ []; decided = undecided }

accepts : (test_passphrase unlocking disk (codes "hunter") at_boot).0 ≡ correct
unfolding test_command test_passphrase try_open verdict_of verdict_from_code run finish collect
    collect_loop wake drain_ready drain probe fill is_done secret_file with_secret drop_secret
    wipe_from overwritten codes ◌>>=◌ ask perform
accepts = refl

memory-IsSound : IsSound unlocking memory
unfolding IsSound Distinct
memory-IsSound = (((disk, at_boot, accepts), tt), (refl, tt))

-- Six bytes in three writes.
three_writes : (write_all unlocking 4 9 (codes "hunter") at_boot).0 ≡ all_written
unfolding write_all next note_sent codes ask
three_writes = refl

write_all-Sends_example :
    Sends 9 (codes "hunter") at_boot (write_all unlocking 4 9 (codes "hunter") at_boot)
write_all-Sends_example = write_all-Sends 9 4 (codes "hunter") at_boot

unlocking-Patient : Patient unlocking
unlocking-Patient = record {
  patience = λ w. 0;
  interrupts = λ fd buf w h. cc;
  keeps = λ fd buf w. omega arith;
}

enough : length (codes "hunter") + 0 ≤ 6
unfolding codes
enough = omega arith

write_all-ends_example : (write_all unlocking 6 9 (codes "hunter") at_boot).0 ≢ still_writing
unfolding unlocking-Patient
write_all-ends_example = write_all-ends unlocking-Patient 6 9 (codes "hunter") at_boot enough

handle-Answered_example :
    (Extends Silent at_boot (handle unlocking (holding no_fields) 6 9 root memory at_boot).1
      ⊎ Answered
          (holding no_fields)
          6
          9
          root
          at_boot
          (handle unlocking (holding no_fields) 6 9 root memory at_boot))
    × IsSound unlocking (handle unlocking (holding no_fields) 6 9 root memory at_boot).0.1
handle-Answered_example = handle-Answered (holding no_fields) 6 9 root memory at_boot memory-IsSound

-- The same, after a stop has been asked for.
abbrev stopping : Os
stopping = record unlocking { terminate = λ w. (true, w) }

stopping-Stopping : Stopping stopping
unfolding Stopping
stopping-Stopping w = refl

handle-Untouched_example :
    let s : Sys stopping = record { world = tt; trace = [] } in
    Untouched memory s (handle stopping (holding no_fields) 6 9 root memory s)
handle-Untouched_example =
    handle-Untouched stopping-Stopping (holding no_fields) 6 9 root memory
      (record { world = tt; trace = [] })

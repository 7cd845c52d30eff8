-- ===== src/Serve/Genuine.antt =====
-- A genuine peer, an agent that offers the passphrase, and a cryptsetup that accepts it.
use tpm2_autoenroll.Base.{
  if◌then◌else◌, length, Bytes, codes, equal, is_alnum, strip_prefix, starts_with, position, ◌+◌,
  ◌≤◌, ◌≡◌, refl, true, none, some, List, [], ◌∷◌, arith,
}
use tpm2_autoenroll.Base.Decimal.{decimal}
use tpm2_autoenroll.Base.Exec.{◌>>=◌}
use tpm2_autoenroll.Base.Results.{ok}
use tpm2_autoenroll.Acquire.Expected.{Reliable, expected, remembered}
use tpm2_autoenroll.AskPw
use tpm2_autoenroll.AskPw.{Attempt, parse_candidates, split, onto_first, non_empty}
use tpm2_autoenroll.BindName.{plain, parse, parse_at, match_infix, named}
use tpm2_autoenroll.Child.{collect, collect_loop, wake, drain_ready, drain, probe, fill, is_done}
use tpm2_autoenroll.Child.Run.{run, finish}
use tpm2_autoenroll.Consent.{undecided}
use tpm2_autoenroll.Device.{open_device, check_kind, secret_file, with_secret, drop_secret}
use tpm2_autoenroll.Json.Tree.{no_fields, holding}
use tpm2_autoenroll.Luks.{
  correct, test_passphrase, try_open, verdict_of, verdict_from_code, test_command,
}
use tpm2_autoenroll.Os.{Os, Sys, polled, got, ask, perform}
use tpm2_autoenroll.Peer
use tpm2_autoenroll.Peer.{
  in_unit, unit_of, unit_escape, escape_byte, escape_rest, find_prefixed, lines, ended_lines,
  without_return, last_component, last_of, require, peer_pidfd, with_pidfd, pid_of, alive,
  is_expected_exe, components, names_of, from_first, all_equal,
}
use tpm2_autoenroll.Serve.{Memory, handle}
use tpm2_autoenroll.Serve.Served.{Served, handle-Served}
use tpm2_autoenroll.Serve.Tests.{unlocking, root, disk}
use tpm2_autoenroll.Serve.Writes.{Patient}

abbrev pub genuine : Os
genuine = record unlocking {
  spawn = λ cmd timeout w. (
    ok (record {
      pidfd = ok tt;
      wakeups =
          (if cmd.stdout_piped
            then polled true (some (got (codes "hunter"))) none
              ∷ polled true (some (got [])) none
              ∷ []
            else polled true none (some (got [])) ∷ []);
      status = ok (some 0);
    }),
    w,
  );
}

six : length (codes "hunter") + 0 ≤ 6
unfolding codes
six = omega arith

abbrev offers : Attempt → List Bytes
offers which = codes "hunter" ∷ []

genuine_tests : (c : Bytes) (s : Sys genuine) → (test_passphrase genuine disk c s).0 ≡ correct
unfolding test_command test_passphrase try_open verdict_of verdict_from_code run finish collect
    collect_loop wake drain_ready drain probe fill is_done secret_file with_secret drop_secret ◌>>=◌
    ask perform
genuine_tests c s = refl

genuine_asks :
    (which : Attempt) (s : Sys genuine)
    → (AskPw.ask genuine (codes "root") (codes "/dev/sda2") which s).0 ≡ ok (offers which)
unfolding ask perform AskPw.ask AskPw.answered AskPw.offered AskPw.ask_command parse_candidates
    split onto_first non_empty run finish collect collect_loop wake drain_ready drain probe fill
    is_done codes ◌>>=◌
genuine_asks which s = refl

genuine-Reliable : Reliable genuine root disk (λ c. true) offers
genuine-Reliable = record { testing = genuine_tests; asking = genuine_asks; going = λ w. refl }

genuine-Patient : Patient genuine
genuine-Patient = record {
  patience = λ w. 0;
  interrupts = λ fd buf w h. cc;
  keeps = λ fd buf w. omega arith;
}

abbrev forgetful : Memory
forgetful = record { cache = []; decided = undecided }

abbrev pub before_any : Sys genuine
before_any = record { world = tt; trace = [] }

is_plain :
    parse (codes "f00d/cryptsetup/root") ≡ some (record { phase = plain; volume = codes "root" })
unfolding parse codes position parse_at is_alnum match_infix strip_prefix named
is_plain = refl

passes :
    (Peer.check genuine 9 (codes "root") (ask genuine (genuine.peer_name 9) before_any).1).0 ≡ ok tt
unfolding Peer.check ask ◌>>=◌ codes require peer_pidfd with_pidfd pid_of in_unit find_prefixed
    lines ended_lines split onto_first strip_prefix without_return equal last_component last_of
    unit_of unit_escape decimal is_alnum alive escape_byte escape_rest is_expected_exe components
    names_of from_first all_equal starts_with
passes = refl

opens_disk :
    (open_device genuine
      (codes "/dev/sda2")
      (Peer.check genuine 9 (codes "root") (ask genuine (genuine.peer_name 9) before_any).1).1).0
    ≡ ok disk
unfolding open_device check_kind ask ◌>>=◌
opens_disk = refl

offered : (expected (λ c. true) offers []).0 ≡ some (codes "hunter")
unfolding expected remembered
offered = refl

handle-Served_example :
    Served 9
      (codes "hunter")
      before_any
      (handle genuine (holding no_fields) 6 9 root forgetful before_any)
unfolding genuine-Patient ask
handle-Served_example =
    handle-Served (holding no_fields) 6 9 root forgetful genuine-Patient (codes "hunter") (λ w. six)
      (codes "f00d/cryptsetup/root") disk genuine-Reliable before_any refl is_plain passes
      opens_disk offered

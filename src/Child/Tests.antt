-- ===== src/Child/Tests.antt =====
-- A child that writes two bytes into a buffer of two, and exits.
use tpm2_autoenroll.Base.{codes, ◌≡◌, refl, true, false, none, some, [], ◌∷◌}
use tpm2_autoenroll.Base.Results.{ok}
use tpm2_autoenroll.Child.{
  Collecting, collect, collect_loop, wake, drain_ready, drain, probe, fill, is_done,
}
use tpm2_autoenroll.Child.Collected.{Complete, collect-Complete}
use tpm2_autoenroll.Os.{Command, Life, got, interrupted, polled, poll_interrupted}

abbrev cat : Command
cat = record {
  program = codes "cat";
  args = [];
  inherited = [];
  stdout_piped = true;
  stderr_piped = false;
}

abbrev life : Life
life = record {
  pidfd = ok tt;
  wakeups =
      polled false (some (got (5 ∷ []))) none
      ∷ poll_interrupted
      ∷ polled true (some (got (6 ∷ []))) none
      ∷ polled false (some interrupted) none
      ∷ polled false (some (got [])) none
      ∷ [];
  status = ok (some 0);
}

abbrev collected : Collecting
collected = record {
  exited = true;
  stdout = record { is_open = false; into = 5 ∷ 6 ∷ [] };
  stderr = record { is_open = false; into = [] };
}

both_bytes : collect cat 2 life ≡ ok (some collected)
unfolding collect collect_loop wake drain_ready drain probe fill is_done
both_bytes = refl

collect-Complete_example : Complete 2 cat life.wakeups (some collected)
collect-Complete_example = collect-Complete cat 2 life (some collected) both_bytes

-- ===== src/Session/Script.antt =====
-- A system with a TPM that answers from a script, for running the model.
use tpm2_autoenroll.Base.{length, Bytes, List, [], ◌∷◌}
use tpm2_autoenroll.Base.Results.{ok, err}
use tpm2_autoenroll.Os.Failing.{failing}
use tpm2_autoenroll.Os.{Os, ready, character_device}

-- Every call succeeds, and a read gives the next response of the script.
abbrev pub scripted : Os
scripted = record (failing (List Bytes)) {
  open_file = λ path w. (ok 3, w);
  file_type = λ fd w. (ok character_device, w);
  write_all = λ fd msg w. (ok tt, w);
  write = λ fd msg w. (ok (length msg), w);
  poll = λ fd timeout w. (ready, w);
  read = λ fd max w. elim w [ [] ↦ (err 5, []) | r ∷ more ↦ (ok r, more) ];
  memfd_create = λ w. (ok 4, w);
}

-- ===== src/Device/Tests.antt =====
-- A memfd that takes whole writes.
use tpm2_autoenroll.Base.{
  length, take, drop, Bytes, codes, ◌+◌, ◌≡◌, refl, sym, ap, [], ◌++◌, arith,
}
use tpm2_autoenroll.Base.Results.{ok}
use tpm2_autoenroll.Device.{drop_secret}
use tpm2_autoenroll.Device.Wiped.{Memfd, take_whole, blank, drop_secret-blank}
use tpm2_autoenroll.Os.{Os, Sys}
use tpm2_autoenroll.Os.Failing.{failing}

-- The world is what the file holds.
abbrev one_file : Os
one_file = record (failing Bytes) {
  pwrite = λ fd msg at w. (ok (length msg), take at w ++ (msg ++ drop (at + length msg) w));
}

one_file-Memfd : Memfd one_file 4
one_file-Memfd = record {
  held = λ w. w;
  taken = λ msg at w. length msg;
  accepted = λ msg at w h. refl;
  some_taken = λ msg at w h. h;
  not_more = λ msg at w. omega arith;
  overwrites = λ msg at w.
      ap (λ l. take at w ++ (l ++ drop (at + length msg) w))
        (sym (take_whole msg (length msg) (omega arith)));
}

abbrev secret : Sys one_file
secret = record { world = codes "hunter2"; trace = [] }

seven_bytes : length (codes "hunter2") ≡ 7
unfolding codes
seven_bytes = refl

drop_secret-blank_example :
    (w : Bytes) × (w ≡ blank 7)
    × ((drop_secret one_file 4 7 secret).1.world ≡ (one_file.ftruncate 4 0 w).1)
unfolding one_file-Memfd
drop_secret-blank_example = drop_secret-blank one_file-Memfd 7 secret seven_bytes

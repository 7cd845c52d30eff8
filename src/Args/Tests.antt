-- ===== src/Args/Tests.antt =====
-- A validation of a file.
use tpm2_autoenroll.Base.{Bytes, codes, equal, strip_prefix, starts_with, ◌≡◌, refl, List, [], ◌∷◌}
use tpm2_autoenroll.Base.Results.{ok}
use tpm2_autoenroll.Args.{
  Args, check_config, default_dir, split_once, is_check_config, set_flag, flag_of, flag, flags,
  mode_of, parse_from,
}
use tpm2_autoenroll.Args.Accepted.{IsSound, parse_from-IsSound}

abbrev argv : List Bytes
argv = codes "check-config" ∷ codes "--config=/tmp/c" ∷ []

abbrev args : Args
args = record { mode = check_config; config = codes "/tmp/c"; socket_dir = default_dir }

accepted : parse_from argv ≡ ok args
unfolding parse_from flags flag flag_of set_flag split_once mode_of is_check_config codes equal
    starts_with strip_prefix
accepted = refl

parse_from-IsSound_example : IsSound args
parse_from-IsSound_example = parse_from-IsSound argv args accepted

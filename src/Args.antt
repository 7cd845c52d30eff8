-- ===== src/Args.antt =====
-- src/main.rs: the command line, after the program's name and without --version.
mod Tests
pub mod Accepted
use tpm2_autoenroll.Base.{
  ◌==◌, if◌then◌else◌, is_empty, Bytes, codes, equal, starts_with, ℕ, Bool, true, false, not, ◌&&◌,
  Option, none, some, List, [], ◌∷◌,
}
use tpm2_autoenroll.Base.Results.{Result, ok, err, ◌>>=◌}

-- `enum Mode`
pub data Mode : Type 0 where
  serve check_config clear_sockets : Mode

-- `config::DEFAULT_PATH` and `sockets::DEFAULT_DIR`
abbrev pub default_path : Bytes
default_path = codes "/etc/tpm2-autoenroll/config.json"

abbrev pub default_dir : Bytes
default_dir = codes "/run/cryptsetup-keys.d"

-- `struct Args`
pub record Args : Type 0 where
  pub mode : Mode
  pub config : Bytes
  pub socket_dir : Bytes

pub data ArgError : Type 0 where
  unrecognised_subcommand unrecognised_argument needs_path : Bytes → ArgError
  only_config : ArgError

-- `split_once`
pub split_once : ℕ → Bytes → Option (Bytes × Bytes)
split_once c [] = none
split_once c (b ∷ s) =
    let rest = split_once c s in
    if b == c
    then some ([], s)
    else elim rest [ none ↦ none | some (front, back) ↦ some (b ∷ front, back) ]

pub is_check_config : Mode → Bool
is_check_config check_config = true
is_check_config _ = false

-- The match on the name of a flag.
set_flag : Bytes → Bytes → Bytes → Args → Result ArgError Args
set_flag arg name value args =
    if equal name (codes "--config")
    then ok (record args { config = value })
    else if equal name (codes "--socket-dir") && not (is_check_config args.mode)
    then ok (record args { socket_dir = value })
    else if equal name (codes "--socket-dir")
    then err only_config
    else err (unrecognised_argument arg)

-- What the loop makes of an argument and its two parts.
flag_of : Bytes → Option (Bytes × Bytes) → Args → Result ArgError Args
flag_of arg none args = err (unrecognised_argument arg)
flag_of arg (some (name, value)) args =
    if is_empty value then err (needs_path name) else set_flag arg name value args

-- The body of the loop over the flags.
flag : Bytes → Args → Result ArgError Args
flag arg args = flag_of arg (split_once b'=' arg) args

flags : List Bytes → Args → Result ArgError Args
flags [] args = ok args
flags (arg ∷ more) args = do args' ← flag arg args; flags more args'

-- The subcommands.
mode_of : Bytes → Result ArgError Mode
mode_of word =
    if equal word (codes "check-config")
    then ok check_config
    else if equal word (codes "clear-sockets")
    then ok clear_sockets
    else err (unrecognised_subcommand word)

abbrev start : Mode → Args
start mode = record { mode = mode; config = default_path; socket_dir = default_dir }

-- `parse_from`
pub parse_from : List Bytes → Result ArgError Args
parse_from [] = ok (start serve)
parse_from (first ∷ rest) = elim (starts_with (codes "-") first) [
  | true ↦ flags (first ∷ rest) (start serve)
  | false ↦ do mode ← mode_of first; flags rest (start mode)
]

-- ===== src/Args/Accepted.antt =====
-- What an accepted command line asks for.
use tpm2_autoenroll.Base.{
  Bool-cases, is_empty, Bytes, codes, equal, starts_with, ◌≡◌, refl, inl, inr, true, false, Option,
  none, some, List, [], ◌∷◌, arith,
}
use tpm2_autoenroll.Base.Results.{ok, Holds, bind-Holds, Holds-eq}
use tpm2_autoenroll.Args.{
  Mode, serve, Args, default_dir, split_once, is_check_config, set_flag, flag_of, flag, flags,
  mode_of, start, parse_from,
}

-- Both paths are there, and a validation run looks at no other socket directory than the default.
pub record IsSound (args : Args) : Type 0 where
  pub config_given : is_empty args.config ≡ false
  pub dir_given : is_empty args.socket_dir ≡ false
  pub dir_unused : is_check_config args.mode ≡ true → args.socket_dir ≡ default_dir

set_flag-Holds :
    (arg name value : Bytes) (args : Args)
    → is_empty value ≡ false
    → IsSound args
    → Holds IsSound (set_flag arg name value args)
unfolding set_flag
set_flag-Holds arg name value args given sound = elim (Bool-cases (equal name (codes "--config"))) [
  | inl e ↦
      rw e (record {
        config_given = given;
        dir_given = sound.dir_given;
        dir_unused = sound.dir_unused;
      })
  | inr e ↦ elim (Bool-cases (equal name (codes "--socket-dir"))) [
    | inr f ↦ rw (e, f) tt
    | inl f ↦ elim (Bool-cases (is_check_config args.mode)) [
      | inl m ↦ rw (e, f, m) tt
      | inr m ↦
          rw (e, f, m)
            (record {
              config_given = sound.config_given;
              dir_given = given;
              dir_unused = λ h. absurd (ground arith);
            })
    ]
  ]
]

flag_of-Holds :
    (arg : Bytes) (parts : Option (Bytes × Bytes)) (args : Args)
    → IsSound args
    → Holds IsSound (flag_of arg parts args)
unfolding flag_of
flag_of-Holds arg none args sound = tt
flag_of-Holds arg (some (name, value)) args sound = elim (Bool-cases (is_empty value)) [
  | inl missing ↦ rw missing tt
  | inr given ↦ rw given (set_flag-Holds arg name value args given sound)
]

flag-Holds : (arg : Bytes) (args : Args) → IsSound args → Holds IsSound (flag arg args)
unfolding flag
flag-Holds arg args sound = flag_of-Holds arg (split_once b'=' arg) args sound

flags-Holds : (l : List Bytes) (args : Args) → IsSound args → Holds IsSound (flags l args)
unfolding flags
flags-Holds [] args sound = sound
flags-Holds (arg ∷ l) args sound =
    bind-Holds IsSound (flag arg args) _
      (λ args' e. flags-Holds l args' (Holds-eq _ _ (flag-Holds arg args sound) e))

start-IsSound : (mode : Mode) → IsSound (start mode)
unfolding codes
start-IsSound mode = record { config_given = refl; dir_given = refl; dir_unused = λ h. refl }

parse_from-Holds : (argv : List Bytes) → Holds IsSound (parse_from argv)
unfolding parse_from
parse_from-Holds [] = start-IsSound serve
parse_from-Holds (first ∷ rest) = elim (Bool-cases (starts_with (codes "-") first)) [
  | inl e ↦ rw (parse_from, e) (flags-Holds (first ∷ rest) (start serve) (start-IsSound serve))
  | inr e ↦
      rw (parse_from, e)
        (bind-Holds IsSound (mode_of first) _
          (λ mode e'. flags-Holds rest (start mode) (start-IsSound mode)))
]

-- A command line that is accepted, however its flags are ordered and repeated, names a
-- configuration and a socket directory, and for check-config the directory is the default one.
pub parse_from-IsSound :
    (argv : List Bytes) (args : Args) → parse_from argv ≡ ok args → IsSound args
parse_from-IsSound argv args h = Holds-eq IsSound (parse_from argv) (parse_from-Holds argv) h

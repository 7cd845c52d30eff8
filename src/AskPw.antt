-- ===== src/AskPw.antt =====
-- src/askpw.rs: asking for a passphrase through systemd-ask-password.
pub mod Adds
mod Tests
pub mod Candidates
pub mod Unescape
use tpm2_autoenroll.Base.{
  leb, ◌==◌, if◌then◌else◌, is_empty, take, Bytes, codes, ℕ, ◌+◌, true, false, ◌&&◌, Option, none,
  some, List, [], ◌∷◌, ◌++◌,
}
use tpm2_autoenroll.Base.Decimal.{decimal}
use tpm2_autoenroll.Base.Exec.{Exec, pure, raise, map_err, ◌>>=◌}
use tpm2_autoenroll.Child.{ChildError, Output}
use tpm2_autoenroll.Child.Run.{run}
use tpm2_autoenroll.Hex.{hex}
use tpm2_autoenroll.Os.{Os, Sys, Command}

pub data AskError : Type 0 where
  child : ChildError → AskError
  exited_with : Option ℕ → AskError
  no_passphrase : AskError

-- `enum Attempt`
pub data Attempt : Type 0 where
  first_time retry : Attempt

abbrev pub prompt_timeout : ℕ
prompt_timeout = 90

abbrev pub prompt_grace : ℕ
prompt_grace = 30

abbrev pub max_output : ℕ
max_output = 65536

abbrev pub max_candidates : ℕ
max_candidates = 4

-- The arm of `cescape` for one byte.
pub escape_byte : ℕ → Bytes
escape_byte b =
    if b == 7
    then codes "\\a"
    else if b == 8
    then codes "\\b"
    else if b == 12
    then codes "\\f"
    else if b == 10
    then codes "\\n"
    else if b == 13
    then codes "\\r"
    else if b == 9
    then codes "\\t"
    else if b == 11
    then codes "\\v"
    else if b == 92
    then 92 ∷ 92 ∷ []
    else if b == 34
    then 92 ∷ 34 ∷ []
    else if b == 39
    then 92 ∷ 39 ∷ []
    else if leb 0x20 b && leb b 0x7e
    then b ∷ []
    else codes "\\x" ++ hex (b ∷ [])

-- `cescape`
pub cescape : Bytes → Bytes
cescape [] = []
cescape (b ∷ s) = escape_byte b ++ cescape s

unfoldable pub onto_first : ℕ → List Bytes → List Bytes
onto_first b [] = (b ∷ []) ∷ []
onto_first b (line ∷ lines) = (b ∷ line) ∷ lines

-- `split` by a byte
unfoldable pub split : ℕ → Bytes → List Bytes
split c [] = [] ∷ []
split c (b ∷ s) = let rest = split c s in if b == c then [] ∷ rest else onto_first b rest

-- `filter(|s| !s.is_empty())`
unfoldable pub non_empty : List Bytes → List Bytes
non_empty [] = []
non_empty (line ∷ lines) = let rest = non_empty lines in if is_empty line then rest else line ∷ rest

-- `parse_candidates`
unfoldable pub parse_candidates : Bytes → List Bytes
parse_candidates stdout = take max_candidates (non_empty (split b'\n' stdout))

-- `friendly_name`
pub friendly_name : Bytes → Bytes → Bytes
friendly_name volume device = device ++ (codes " (" ++ (volume ++ codes ")"))

pub accept_cached : Attempt → List Bytes
accept_cached first_time = codes "--accept-cached" ∷ []
accept_cached retry = []

pub question : Attempt → Bytes → Bytes
question first_time friendly = codes "Please enter passphrase for disk " ++ (friendly ++ codes ":")
question retry friendly =
    codes "Passphrase did not unlock " ++ (friendly ++ codes ", please try again:")

unfoldable pub ask_command : Bytes → Bytes → Attempt → Command
ask_command volume device attempt = record {
  program = codes "systemd-ask-password";
  args =
      (codes "--icon=drive-harddisk"
        ∷ (codes "--id=cryptsetup:" ++ cescape device)
        ∷ codes "--keyname=cryptsetup"
        ∷ codes "--credential=cryptsetup.passphrase"
        ∷ codes "--multiple"
        ∷ (codes "--timeout=" ++ decimal prompt_timeout)
        ∷ codes "-n"
        ∷ [])
      ++ (accept_cached attempt ++ question attempt (friendly_name volume device) ∷ []);
  inherited = [];
  stdout_piped = true;
  stderr_piped = false;
}

module _ (os : Os) where
  unfoldable pub offered : List Bytes → Exec (Sys os) AskError (List Bytes)
  offered [] = raise no_passphrase
  offered (c ∷ cs) = pure (c ∷ cs)

  unfoldable pub answered : Output → Exec (Sys os) AskError (List Bytes)
  answered out = elim out.status [
    | none ↦ raise (exited_with none)
    | some code ↦
        if code == 0 then offered (parse_candidates out.stdout) else raise (exited_with (some code))
  ]

  -- `ask`
  unfoldable pub ask : Bytes → Bytes → Attempt → Exec (Sys os) AskError (List Bytes)
  ask volume device attempt = do
    out ←
        map_err child
          (run os (ask_command volume device attempt) (prompt_timeout + prompt_grace) max_output)
    answered out

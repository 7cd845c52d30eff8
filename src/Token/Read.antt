-- ===== src/Token/Read.antt =====
-- src/token.rs, `read`: the tokens of a device, from what cryptsetup prints of its header.
pub mod Adds
use tpm2_autoenroll.Base.{
  ◌==◌, if◌then◌else◌, Bytes, codes, ℕ, true, Option, none, some, List, [], ◌∷◌,
}
use tpm2_autoenroll.Base.Utf8.{from_utf8_lossy}
use tpm2_autoenroll.Base.Exec.{Exec, raise, lift, map_err, ◌>>=◌}
use tpm2_autoenroll.Child.{ChildError, Output}
use tpm2_autoenroll.Child.Run.{run, fd_path}
use tpm2_autoenroll.Device.{Device}
use tpm2_autoenroll.Json.{Json}
use tpm2_autoenroll.Os.{Os, Sys, Command}
use tpm2_autoenroll.Token.{TokenError, Tpm2Token, parse}

pub data ReadError : Type 0 where
  child : ChildError → ReadError
  exited_with : Option ℕ → Bytes → ReadError
  malformed : TokenError → ReadError

abbrev pub max_json : ℕ
max_json = 16777216

unfoldable pub dump_command : Device → Command
dump_command device = record {
  program = codes "cryptsetup";
  args = codes "luksDump" ∷ codes "--dump-json-metadata" ∷ fd_path device.fd ∷ [];
  inherited = device.fd ∷ [];
  stdout_piped = true;
  stderr_piped = true;
}

module _ (os : Os) (json : Json) where
  unfoldable pub dumped : Output → Exec (Sys os) ReadError (List Tpm2Token)
  dumped out = elim out.status [
    | some code ↦
        if code == 0
        then map_err malformed (lift (parse json (from_utf8_lossy out.stdout)))
        else raise (exited_with (some code) out.stderr)
    | none ↦ raise (exited_with none out.stderr)
  ]

  -- `read`
  unfoldable pub read : Device → Exec (Sys os) ReadError (List Tpm2Token)
  read device = do out ← map_err child (run os (dump_command device) 30 max_json); dumped out

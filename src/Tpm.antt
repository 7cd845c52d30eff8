-- ===== src/Tpm.antt =====
-- src/tpm2.rs without the device: the commands, the response header, the responses to GetCapability
-- and PCR_Read, and how one PCR_Read round is folded into what was read before.
mod Tests
pub mod Describe
use Prim.Native.Nat.{bit_and}
use tpm2_autoenroll.Base.{
  ltb, ◌==◌, if◌then◌else◌, length, take, drop, Bytes, codes, equal, ℕ, zero, suc, ◌+◌, ◌%◌, ◌^◌,
  Bool, not, Option, none, some, [], ◌++◌,
}
use tpm2_autoenroll.Base.Results.{Result, ok, err, ◌>>=◌}
use tpm2_autoenroll.Wire.{
  TpmError, short_response, wrong_size, returned_code, wrong_capability, no_permanent, from_be,
  put_u16, put_u32, new, Read, u8, u32,
}

abbrev pub st_no_sessions : ℕ
st_no_sessions = 0x8001

abbrev pub cc_flush_context : ℕ
cc_flush_context = 0x165

abbrev pub cc_start_auth_session : ℕ
cc_start_auth_session = 0x176

abbrev pub cc_get_capability : ℕ
cc_get_capability = 0x17a

abbrev pub cc_pcr_read : ℕ
cc_pcr_read = 0x17e

abbrev pub cc_policy_pcr : ℕ
cc_policy_pcr = 0x17f

abbrev pub cc_policy_get_digest : ℕ
cc_policy_get_digest = 0x189

abbrev pub rh_null : ℕ
rh_null = 0x4000_0007

abbrev pub se_trial : ℕ
se_trial = 0x03

abbrev pub alg_null : ℕ
alg_null = 0x0010

abbrev pub cap_tpm_properties : ℕ
cap_tpm_properties = 0x6

abbrev pub pt_permanent : ℕ
pt_permanent = 0x200

abbrev pub pt_lockout_counter : ℕ
pt_lockout_counter = 0x20e

abbrev pub pt_max_auth_fail : ℕ
pt_max_auth_fail = 0x20f

abbrev pub permanent_in_lockout : ℕ
permanent_in_lockout = 2 ^ 9

abbrev pub max_response : ℕ
max_response = 4096

-- `struct Bank(u16)`: the TPM's algorithm number.
abbrev pub Bank : Type 0
Bank = ℕ

abbrev pub sha256 : Bank
sha256 = 0x000b

-- `Bank::from_name`
unfoldable pub from_name : Bytes → Option Bank
from_name name =
    if equal name (codes "sha1")
    then some 0x0004
    else if equal name (codes "sha256")
    then some 0x000b
    else if equal name (codes "sha384")
    then some 0x000c
    else if equal name (codes "sha512")
    then some 0x000d
    else none

-- `Bank::name`
unfoldable pub bank_name : Bank → Bytes
bank_name bank =
    if bank == 0x0004
    then codes "sha1"
    else if bank == 0x000b
    then codes "sha256"
    else if bank == 0x000c
    then codes "sha384"
    else if bank == 0x000d
    then codes "sha512"
    else codes "unknown"

pub record Lockout : Type 0 where
  pub in_lockout : Bool
  pub counter : ℕ
  pub max_auth_fail : ℕ

-- `command`: header, then the caller's handle and parameter areas.
unfoldable pub command : ℕ → Bytes → Bytes
command cc body =
    put_u32 (put_u32 (put_u16 [] st_no_sessions) ((10 + length body) % 2 ^ 32)) cc ++ body

-- `response_payload`
unfoldable pub response_payload : Bytes → Result TpmError Bytes
response_payload buf =
    let size = from_be (take 4 (drop 2 buf)) in
    let rc = from_be (take 4 (drop 6 buf)) in
    if ltb (length buf) 10
    then err (short_response (length buf))
    else if not (size == length buf)
    then err (wrong_size size (length buf))
    else if not (rc == 0)
    then err (returned_code rc)
    else ok (drop 10 buf)

-- The three variables that the loop of `parse_properties` assigns.
pub record Properties : Type 0 where
  pub permanent : Option ℕ
  pub counter : Option ℕ
  pub max_auth_fail : Option ℕ

abbrev pub no_properties : Properties
no_properties = record { permanent = none; counter = none; max_auth_fail = none }

-- The `match property` of that loop.
unfoldable pub record_property : ℕ → ℕ → Properties → Properties
record_property property value p =
    if property == pt_permanent
    then record p { permanent = some value }
    else if property == pt_lockout_counter
    then record p { counter = some value }
    else if property == pt_max_auth_fail
    then record p { max_auth_fail = some value }
    else p

-- `for _ in 0..count`
unfoldable pub read_properties : ℕ → Properties → Read Properties
read_properties zero p r = ok (p, r)
read_properties (suc n) p r = do
  (property, r1) ← u32 r
  (value, r2) ← u32 r1
  read_properties n (record_property property value p) r2

abbrev pub or_zero : Option ℕ → ℕ
or_zero none = 0
or_zero (some n) = n

-- The `Lockout` that `parse_properties` builds at its end.
unfoldable pub lockout_of : Properties → Result TpmError Lockout
lockout_of p = elim p.permanent [
  | none ↦ err no_permanent
  | some permanent ↦ ok (record {
    in_lockout = not (bit_and permanent permanent_in_lockout == 0);
    counter = or_zero p.counter;
    max_auth_fail = or_zero p.max_auth_fail;
  })
]

unfoldable pub parse_properties : Bytes → Result TpmError Lockout
parse_properties payload = do
  (more_data, r1) ← u8 (new payload)
  (capability, r2) ← u32 r1
  if not (capability == cap_tpm_properties)
      then err (wrong_capability capability)
      else do (count, r3) ← u32 r2; (p, r4) ← read_properties count no_properties r3; lockout_of p

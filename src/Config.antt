-- ===== src/Config.antt =====
-- src/config.rs: the volumes that the daemon serves, and their validation.
mod Tests
pub mod Volumes
pub mod Names
use tpm2_autoenroll.Base.{
  leb, if◌then◌else◌, is_empty, find, Bytes, codes, equal, starts_with, contains, ℕ, ◌%◌, ◌^◌, Bool,
  true, false, not, ◌||◌, Option, none, some, List, [], ◌∷◌, ◌++◌,
}
use tpm2_autoenroll.Base.Decimal.{decimal}
use tpm2_autoenroll.Base.Results.{Result, ok, err, ok_or, ◌>>=◌}
use tpm2_autoenroll.Base.Sort.{set_insert}
use tpm2_autoenroll.Json.{Json, keys}
use tpm2_autoenroll.Tpm.{Bank, sha256, from_name}

-- `MAX_PCR`
abbrev pub max_pcr : ℕ
max_pcr = 23

-- The source formats each into a message with these values.
pub data ConfigError : Type 0 where
  not_json not_an_object no_volumes volumes_not_an_object : ConfigError
  unknown_top_level_key unknown_key not_a_string : Bytes → ConfigError
  unusable_name volume_not_an_object no_device no_pcrs pcrs_not_an_array non_integer_pcr :
      ConfigError
  relative_device relative_tpm2_device unknown_bank : Bytes → ConfigError
  not_a_pcr : ℕ → ConfigError
  empty_pcrs : ConfigError

pub record Volume : Type 0 where
  pub name : Bytes
  pub device : Bytes
  pub tpm2_device : Bytes
  pub pcrs : List ℕ
  pub bank : Bank

pub record Loaded : Type 0 where
  pub volumes : List Volume
  pub rejected : List (Bytes × ConfigError)

abbrev pub unwrap_or {ℓ} : {A : Type ℓ} → A → Option A → A
unwrap_or d none = d
unwrap_or d (some a) = a

-- `keys().find(|k| …)`, turned into the error that follows it
unfoldable pub refuse_key : (Bytes → ConfigError) → Option Bytes → Result ConfigError (Unit {0})
refuse_key why none = ok tt
refuse_key why (some key) = err (why key)

unfoldable pub is_volume_key : Bytes → Bool
is_volume_key k =
    equal k (codes "device")
    || equal k (codes "tpm2_device")
    || equal k (codes "pcrs")
    || equal k (codes "pcr_bank")

unfoldable pub is_usable_name : Bytes → Bool
is_usable_name name =
    not (is_empty name || contains b'/' name || equal name (codes ".") || equal name (codes ".."))

unfoldable pub guard : Bool → ConfigError → Result ConfigError (Unit {0})
guard true why = ok tt
guard false why = err why

module _ (json : Json) where
  open json use {Value, Map, from_str, as_object, as_array, as_str, as_u64, entries, map_get}

  -- `string`
  unfoldable pub string : Map → Bytes → Result ConfigError (Option Bytes)
  string obj key = elim (map_get obj key) [
    | none ↦ ok none
    | some v ↦ elim (as_str v) [ none ↦ err (not_a_string key) | some s ↦ ok (some s) ]
  ]

  -- The loop of `pcrs` over the array; `out` is the `BTreeSet`.
  unfoldable pub insert_pcrs : List Value → List ℕ → Result ConfigError (List ℕ)
  insert_pcrs [] out = ok out
  insert_pcrs (item ∷ list) out = do
    n ← ok_or non_integer_pcr (as_u64 item)
    u ← guard (leb n max_pcr) (not_a_pcr n)
    insert_pcrs list (set_insert (n % 2 ^ 8) out)

  -- `pcrs`
  unfoldable pub pcrs : Value → Result ConfigError (List ℕ)
  pcrs value = do
    list ← ok_or pcrs_not_an_array (as_array value)
    out ← insert_pcrs list []
    if is_empty out then err empty_pcrs else ok out

  -- The bank of a volume: the one named, or SHA-256.
  unfoldable pub bank_of : Option Bytes → Result ConfigError Bank
  bank_of none = ok sha256
  bank_of (some b) = ok_or (unknown_bank b) (from_name b)

  -- `volume`
  unfoldable pub volume : Bytes → Value → Result ConfigError Volume
  volume name value = do
    u0 ← guard (is_usable_name name) unusable_name
    obj ← ok_or volume_not_an_object (as_object value)
    u1 ← refuse_key unknown_key (find (λ k. not (is_volume_key k)) (keys (entries obj)))
    named_device ← string obj (codes "device")
    device ← ok_or no_device named_device
    u2 ← guard (starts_with (codes "/") device) (relative_device device)
    named_tpm2 ← string obj (codes "tpm2_device")
    let tpm2_device = unwrap_or (codes "auto") named_tpm2
    u3 ←
        guard (equal tpm2_device (codes "auto") || starts_with (codes "/") tpm2_device)
          (relative_tpm2_device tpm2_device)
    list ← ok_or no_pcrs (map_get obj (codes "pcrs"))
    selection ← pcrs list
    named_bank ← string obj (codes "pcr_bank")
    bank ← bank_of named_bank
    ok (record {
      name = name;
      device = device;
      tpm2_device = tpm2_device;
      pcrs = selection;
      bank = bank;
    })

  -- The loop of `parse` over the volumes; `out` is what it has collected.
  unfoldable pub parse_volumes : List (Bytes × Value) → Loaded → Loaded
  parse_volumes [] out = out
  parse_volumes ((name, value) ∷ rest) out = parse_volumes rest (elim (volume name value) [
    | ok v ↦ record out { volumes = out.volumes ++ v ∷ [] }
    | err e ↦ record out { rejected = out.rejected ++ (name, e) ∷ [] }
  ])

  -- `parse`
  unfoldable pub parse : Bytes → Result ConfigError Loaded
  parse text = do
    root ← ok_or not_json (from_str text)
    obj ← ok_or not_an_object (as_object root)
    u ←
        refuse_key unknown_top_level_key
          (find (λ k. not (equal k (codes "volumes"))) (keys (entries obj)))
    value ← ok_or no_volumes (map_get obj (codes "volumes"))
    volumes ← ok_or volumes_not_an_object (as_object value)
    ok (parse_volumes (entries volumes) (record { volumes = []; rejected = [] }))

-- `pcr_list`
pub pcr_list : List ℕ → Bytes
pcr_list [] = []
pcr_list (pcr ∷ []) = decimal pcr
pcr_list (pcr ∷ q ∷ pcrs) = decimal pcr ++ (codes "+" ++ pcr_list (q ∷ pcrs))

-- ===== src/Token.antt =====
-- src/token.rs: the systemd-tpm2 tokens of a LUKS2 header, read from its JSON.
mod Tests
pub mod Tokens
pub mod Read
use tpm2_autoenroll.Base.{
  ltb, leb, ◌==◌, if◌then◌else◌, length, any, find, Bytes, codes, equal, ℕ, ◌+◌, ◌-◌, ◌*◌, ◌%◌, ◌^◌,
  Bool, true, false, not, ◌&&◌, ◌||◌, Option, none, some, List, [], ◌∷◌, ◌++◌,
}
use tpm2_autoenroll.Base.Results.{Result, ok, err, ok_or, ◌>>=◌}
use tpm2_autoenroll.Base.Sort.{sort, dedup}
use tpm2_autoenroll.Hex.{unhex}
use tpm2_autoenroll.Json.{Json, get, keys, is_some}

-- The source formats each into a message with these values.
pub data TokenError : Type 0 where
  not_json : TokenError
  not_an_index : Bytes → TokenError
  no_policy_hash : ℕ → TokenError
  pcrs_not_an_array non_integer_pcr : TokenError
  not_a_pcr : ℕ → TokenError
  non_string_shard : TokenError
  several_shards : ℕ → TokenError
  neither_string_nor_array not_hex : TokenError

-- Why an enrollment is more than a literal PCR policy.
pub data Kind : Type 0 where
  unknown_field : Bytes → Kind
  signed pcrlock : Kind

pub record Tpm2Token : Type 0 where
  pub index : ℕ
  pub pcrs : List ℕ
  pub bank : Option Bytes
  pub policy_hash : Bytes
  pub pin : Bool
  pub advanced : Option Kind

-- `KNOWN_KEYS`
abbrev pub known_keys : List Bytes
known_keys =
    codes "type"
    ∷ codes "keyslots"
    ∷ codes "tpm2-blob"
    ∷ codes "tpm2-pcrs"
    ∷ codes "tpm2-pcr-bank"
    ∷ codes "tpm2-primary-alg"
    ∷ codes "tpm2-policy-hash"
    ∷ codes "tpm2-pin"
    ∷ codes "tpm2_pcrlock"
    ∷ codes "tpm2_pubkey_pcrs"
    ∷ codes "tpm2_pubkey"
    ∷ codes "tpm2_salt"
    ∷ codes "tpm2_srk"
    ∷ codes "tpm2_pcrlock_nv"
    ∷ []

-- `KNOWN_KEYS.contains`
unfoldable pub is_known_key : Bytes → Bool
is_known_key k = any (λ known. equal known k) known_keys

-- The digits of `str::parse::<u32>`, checked against overflow at every digit.
unfoldable pub parse_digits : ℕ → Bytes → Option ℕ
parse_digits acc [] = some acc
parse_digits acc (c ∷ rest) =
    let more = parse_digits (acc * 10 + (c - b'0')) rest in
    if leb b'0' c && leb c b'9' && ltb (acc * 10 + (c - b'0')) (2 ^ 32) then more else none

-- `str::parse::<u32>`: one sign is allowed, and there is a digit.
unfoldable pub parse_u32 : Bytes → Option ℕ
parse_u32 [] = none
parse_u32 (c ∷ []) = parse_digits 0 (c ∷ [])
parse_u32 (c ∷ d ∷ rest) =
    if c == b'+' then parse_digits 0 (d ∷ rest) else parse_digits 0 (c ∷ d ∷ rest)

-- `sort_by_key(|t| t.index)`; the sort is stable.
unfoldable pub insert_token : Tpm2Token → List Tpm2Token → List Tpm2Token
insert_token t [] = t ∷ []
insert_token t (u ∷ l) =
    let rest = insert_token t l in if leb t.index u.index then t ∷ u ∷ l else u ∷ rest

unfoldable pub sort_tokens : List Tpm2Token → List Tpm2Token
sort_tokens [] = []
sort_tokens (t ∷ l) = insert_token t (sort_tokens l)

module _ (json : Json) where
  open json use {
    Value, Map, from_str, as_object, as_array, as_str, as_bool, as_u64, entries, map_get,
  }

  -- `advanced`
  unfoldable pub advanced_kind : Value → Option Kind
  advanced_kind value = elim (as_object value) [
    | none ↦ none
    | some obj ↦ elim (find (λ k. not (is_known_key k)) (keys (entries obj))) [
      | some key ↦ some (unknown_field key)
      | none ↦
          if is_some (map_get obj (codes "tpm2_pubkey"))
            || is_some (map_get obj (codes "tpm2_pubkey_pcrs"))
          then some signed
          else if is_some (map_get obj (codes "tpm2_pcrlock"))
              || is_some (map_get obj (codes "tpm2_pcrlock_nv"))
          then some pcrlock
          else none
    ]
  ]

  -- The loop of `pcr_list`.
  unfoldable pub collect_pcrs : List Value → List ℕ → Result TokenError (List ℕ)
  collect_pcrs [] out = ok out
  collect_pcrs (item ∷ list) out = do
    n ← ok_or non_integer_pcr (as_u64 item)
    if ltb 23 n then err (not_a_pcr n) else collect_pcrs list (out ++ (n % 2 ^ 8) ∷ [])

  -- `pcr_list`
  unfoldable pub pcr_list : Value → Result TokenError (List ℕ)
  pcr_list value = do
    list ← ok_or pcrs_not_an_array (as_array value)
    out ← collect_pcrs list []
    ok (dedup (sort out))

  unfoldable pub only_item : List Value → Result TokenError Bytes
  only_item (item ∷ []) = ok_or non_string_shard (as_str item)
  only_item items = err (several_shards (length items))

  -- `single_shard`
  unfoldable pub single_shard : Value → Result TokenError Bytes
  single_shard value = do
    text ← elim (as_str value) [
      | some s ↦ ok s
      | none ↦ elim (as_array value) [
        | some items ↦ only_item items
        | none ↦ err neither_string_nor_array
      ]
    ]
    ok_or not_hex (unhex text)

  unfoldable pub token_pcrs : Option Value → Result TokenError (List ℕ)
  token_pcrs (some v) = pcr_list v
  token_pcrs none = ok []

  unfoldable pub token_hash : ℕ → Option Value → Result TokenError Bytes
  token_hash index (some v) = single_shard v
  token_hash index none = err (no_policy_hash index)

  unfoldable pub and_then {ℓ} : {A : Type ℓ} → Option Value → (Value → Option A) → Option A
  and_then none f = none
  and_then (some v) f = f v

  unfoldable pub or_false : Option Bool → Bool
  or_false none = false
  or_false (some b) = b

  -- `token`
  unfoldable pub token : ℕ → Value → Result TokenError Tpm2Token
  token index value = do
    pcrs ← token_pcrs (get json value (codes "tpm2-pcrs"))
    policy_hash ← token_hash index (get json value (codes "tpm2-policy-hash"))
    ok (record {
      index = index;
      pcrs = pcrs;
      bank = and_then (get json value (codes "tpm2-pcr-bank")) as_str;
      policy_hash = policy_hash;
      pin =
          or_false (and_then (get json value (codes "tpm2-pin")) as_bool)
          || is_some (get json value (codes "tpm2_salt"));
      advanced = advanced_kind value;
    })

  unfoldable pub is_tpm2_token : Value → Bool
  is_tpm2_token value = elim (and_then (get json value (codes "type")) as_str) [
    | none ↦ false
    | some type ↦ equal type (codes "systemd-tpm2")
  ]

  -- The loop of `parse` over the tokens of the header.
  unfoldable pub collect_tokens :
      List (Bytes × Value) → List Tpm2Token → Result TokenError (List Tpm2Token)
  collect_tokens [] out = ok out
  collect_tokens ((key, value) ∷ rest) out = elim (is_tpm2_token value) [
    | false ↦ collect_tokens rest out
    | true ↦ do
      index ← ok_or (not_an_index key) (parse_u32 key)
      t ← token index value
      collect_tokens rest (out ++ t ∷ [])
  ]

  -- What `parse` makes of the "tokens" object, or of a header without one.
  unfoldable pub tokens_of : Option Map → Result TokenError (List Tpm2Token)
  tokens_of none = ok []
  tokens_of (some tokens) = do out ← collect_tokens (entries tokens) []; ok (sort_tokens out)

  -- `parse`
  unfoldable pub parse : Bytes → Result TokenError (List Tpm2Token)
  parse text = do
    root ← ok_or not_json (from_str text)
    tokens_of (and_then (get json root (codes "tokens")) as_object)

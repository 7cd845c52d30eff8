-- ===== src/Json.antt =====
-- serde_json as the program uses it: a parser and the accessors of `Value` and `Map`. The crate is
-- not part of the repository, so it is a parameter, with the documented facts that the theorems use.
pub mod Tree
use tpm2_autoenroll.Base.{Bytes, ℕ, Bool, true, false, Option, none, some, List, [], ◌∷◌, map}

pub record Json : Type 1 where
  pub Value : Type 0
  pub Map : Type 0
  -- `serde_json::from_str`
  pub from_str : Bytes → Option Value
  pub as_object : Value → Option Map
  pub as_array : Value → Option (List Value)
  pub as_str : Value → Option Bytes
  pub as_bool : Value → Option Bool
  pub as_u64 : Value → Option ℕ
  -- `Map::iter`, in the map's order
  pub entries : Map → List (Bytes × Value)
  -- `Map::get`
  pub map_get : Map → Bytes → Option Value

abbrev pub keys {ℓ} : {V : Type ℓ} → List (Bytes × V) → List Bytes
keys [] = []
keys ((k, v) ∷ l) = k ∷ keys l

abbrev pub is_some {ℓ} : {A : Type ℓ} → Option A → Bool
is_some none = false
is_some (some a) = true

module _ (json : Json) where
  -- `Value::get` with a string: the value at that key of an object.
  unfoldable pub get : json.Value → Bytes → Option json.Value
  get value key = elim (json.as_object value) [ none ↦ none | some map ↦ json.map_get map key ]

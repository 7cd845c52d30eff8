-- ===== src/Json/Tree.antt =====
-- A concrete JSON document type, against which the readers of the program are run.
use tpm2_autoenroll.Base.{
  if◌then◌else◌, Bytes, codes, equal, ℕ, Bool, Option, none, some, List, [], ◌∷◌,
}
use tpm2_autoenroll.Json.{Json}

pub data Tree : Type 0 where
  text : Bytes → Tree
  number : ℕ → Tree
  flag : Bool → Tree
  no_items no_fields : Tree
  item : Tree → Tree → Tree
  field : Bytes → Tree → Tree → Tree

abbrev items : Tree → Option (List Tree)
items no_items = some []
items (item t more) = elim (items more) [ none ↦ none | some l ↦ some (t ∷ l) ]
items _ = none

abbrev fields : Tree → Option (List (Bytes × Tree))
fields no_fields = some []
fields (field k t more) = elim (fields more) [ none ↦ none | some l ↦ some ((k, t) ∷ l) ]
fields _ = none

abbrev lookup : List (Bytes × Tree) → Bytes → Option Tree
lookup [] key = none
lookup ((k, t) ∷ more) key = if equal k key then some t else lookup more key

abbrev string_of : Tree → Option Bytes
string_of (text s) = some s
string_of _ = none

abbrev number_of : Tree → Option ℕ
number_of (number n) = some n
number_of _ = none

abbrev flag_of : Tree → Option Bool
flag_of (flag b) = some b
flag_of _ = none

-- The parser of a library that knows one document, under the text "document".
abbrev pub holding : Tree → Json
holding document = record {
  Value = Tree;
  Map = List (Bytes × Tree);
  from_str = λ s. if equal s (codes "document") then some document else none;
  as_object = fields;
  as_array = items;
  as_str = string_of;
  as_bool = flag_of;
  as_u64 = number_of;
  entries = λ m. m;
  map_get = lookup;
}

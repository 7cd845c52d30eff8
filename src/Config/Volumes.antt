-- ===== src/Config/Volumes.antt =====
-- What the volumes of a parsed file satisfy.
use tpm2_autoenroll.Base.{
  leb, if◌then◌else◌, leb→le, Bool-cases, some_inj, length, is_empty, all, find, All, All-snoc,
  length-append, Bytes, codes, equal, starts_with, ℕ, ◌+◌, ◌%◌, ◌^◌, ◌≤◌, ◌≡◌, refl, ◌⊎◌, inl, inr,
  Bool, true, false, not, ◌||◌, Option, none, some, List, [], ◌∷◌, ◌++◌, arith,
}
use mathlib.Core.Path.{subst}
use tpm2_autoenroll.Base.Ascending.{IsAscending}
use tpm2_autoenroll.Base.Sort.{set_insert, set_insert-From}
use tpm2_autoenroll.Base.Results.{Result, ok, err, ok_or, Holds, bind-Holds, Holds-eq}
use tpm2_autoenroll.Config.{
  ConfigError, unusable_name, unknown_key, relative_device, relative_tpm2_device, unknown_bank,
  not_a_pcr, no_device, volume_not_an_object, no_pcrs, pcrs_not_an_array, non_integer_pcr, Volume,
  Loaded, no_volumes, not_an_object, not_json, unknown_top_level_key, volumes_not_an_object,
  max_pcr, refuse_key, is_volume_key, is_usable_name, guard, string, insert_pcrs, pcrs, bank_of,
  volume, parse_volumes, parse, unwrap_or,
}
use tpm2_autoenroll.Json.{Json, keys}
use tpm2_autoenroll.Tpm.{Bank, from_name, bank_name}

-- A bank that has a name, so that it can be pinned on a command line.
abbrev pub IsBank : Bank → Type 0
IsBank b = from_name (bank_name b) ≡ some b

-- What the fields of `Volume` promise.
pub record IsValid (v : Volume) : Type 0 where
  pub name_usable : is_usable_name v.name ≡ true
  pub device_absolute : starts_with (codes "/") v.device ≡ true
  pub tpm2_device_named :
      (equal v.tpm2_device (codes "auto") || starts_with (codes "/") v.tpm2_device) ≡ true
  pub pcrs_ascending : IsAscending v.pcrs
  pub pcrs_exist : All (λ p. p ≤ max_pcr) v.pcrs
  pub pcrs_given : is_empty v.pcrs ≡ false
  pub bank_known : IsBank v.bank

guard-eq-ok : (b : Bool) (why : ConfigError) {u : Unit {0}} → guard b why ≡ ok u → b ≡ true
unfolding guard
guard-eq-ok true why h = refl
guard-eq-ok false why h = cc

abbrev IsSelection : List ℕ → Type 0
IsSelection l = IsAscending l × All (λ p. p ≤ max_pcr) l

set_insert-exist :
    (n : ℕ) (l : List ℕ)
    → n ≤ max_pcr
    → All (λ p. p ≤ max_pcr) l
    → All (λ p. p ≤ max_pcr) (set_insert n l)
unfolding set_insert
set_insert-exist n [] h a = (h, tt)
set_insert-exist n (x ∷ l) h a = ground (arith, set_insert-exist n l h a.1)

banks-IsBank : IsBank 4 × IsBank 11 × IsBank 12 × IsBank 13
unfolding from_name bank_name equal codes
banks-IsBank = (refl, refl, refl, refl)

-- What `if` gives, when that is a bank, is the bank of one of its branches.
if-some :
    (t : Bool) (a b : Bank) (o : Option Bank)
    → (if t then some a else o) ≡ some b
    → (a ≡ b) ⊎ (o ≡ some b)
if-some true a b o h = inl (some_inj h)
if-some false a b o h = inr h

from_name-IsBank : (n : Bytes) (b : Bank) → from_name n ≡ some b → IsBank b
unfolding from_name
from_name-IsBank n b h = elim (if-some (equal n (codes "sha1")) 4 b _ h) [
  | inl e ↦ subst IsBank e banks-IsBank.0
  | inr h ↦ elim (if-some (equal n (codes "sha256")) 11 b _ h) [
    | inl e ↦ subst IsBank e banks-IsBank.1
    | inr h ↦ elim (if-some (equal n (codes "sha384")) 12 b _ h) [
      | inl e ↦ subst IsBank e banks-IsBank.2
      | inr h ↦ elim (if-some (equal n (codes "sha512")) 13 b _ h) [
        | inl e ↦ subst IsBank e banks-IsBank.3
        | inr h ↦ cc
      ]
    ]
  ]
]

module _ (json : Json) where
  insert_pcrs-Holds :
      (list : List json.Value) (out : List ℕ)
      → IsSelection out
      → Holds IsSelection (insert_pcrs json list out)
  unfolding insert_pcrs
  insert_pcrs-Holds [] out sel = sel
  insert_pcrs-Holds (item ∷ list) out sel =
      bind-Holds _ (ok_or non_integer_pcr (json.as_u64 item)) _ (λ n _.
        bind-Holds _ (guard (leb n max_pcr) (not_a_pcr n)) _ (λ u e.
          let small : n ≤ max_pcr = leb→le n max_pcr (guard-eq-ok _ _ e) in
          let same : n % 2 ^ 8 ≡ n = omega arith in
          insert_pcrs-Holds list (set_insert (n % 2 ^ 8) out) (
            rw same
              (set_insert-From n 0 out sel.0 (omega arith), set_insert-exist n out small sel.1))))

  pcrs-Holds :
      (value : json.Value) → Holds (λ l. IsSelection l × (is_empty l ≡ false)) (pcrs json value)
  unfolding pcrs
  pcrs-Holds value = bind-Holds _ (ok_or pcrs_not_an_array (json.as_array value)) _ (λ list _.
      bind-Holds _ (insert_pcrs json list []) _ (λ out e. elim (Bool-cases (is_empty out)) [
        | inl none_given ↦ rw none_given tt
        | inr given ↦ rw given ((Holds-eq _ _ (insert_pcrs-Holds list [] (tt, tt)) e, given))
      ]))

  bank_of-Holds : (named : Option Bytes) → Holds IsBank (bank_of json named)
  unfolding bank_of
  bank_of-Holds none = banks-IsBank.1
  bank_of-Holds (some n) = bank_named n (from_name n) refl
    where
      bank_named :
          (n : Bytes) (o : Option Bank) → from_name n ≡ o → Holds IsBank (ok_or (unknown_bank n) o)
      bank_named n none e = tt
      bank_named n (some b) e = from_name-IsBank n b e

  -- A volume is valid, and has the name of its entry.
  pub volume-Holds :
      (name : Bytes) (value : json.Value)
      → Holds (λ v. IsValid v × (v.name ≡ name)) (volume json name value)
  unfolding volume
  volume-Holds name value = bind-Holds _ (guard (is_usable_name name) unusable_name) _ (λ u0 named.
      bind-Holds _ (ok_or volume_not_an_object (json.as_object value)) _ (λ obj _.
        bind-Holds _
          (refuse_key unknown_key (find (λ k. not (is_volume_key k)) (keys (json.entries obj)))) _
          (λ u1 _. bind-Holds _ (string json obj (codes "device")) _ (λ named_device _.
            bind-Holds _ (ok_or no_device named_device) _ (λ device _.
              bind-Holds _ (guard (starts_with (codes "/") device) (relative_device device)) _
                (λ u2 absolute.
                  bind-Holds _ (string json obj (codes "tpm2_device")) _ (λ named_tpm2 _.
                    bind-Holds _
                      (guard
                        (equal (unwrap_or (codes "auto") named_tpm2) (codes "auto")
                          || starts_with (codes "/") (unwrap_or (codes "auto") named_tpm2))
                        (relative_tpm2_device (unwrap_or (codes "auto") named_tpm2)))
                      _
                      (λ u3 tpm2.
                        bind-Holds _ (ok_or no_pcrs (json.map_get obj (codes "pcrs"))) _ (λ list _.
                          bind-Holds _ (pcrs json list) _ (λ selection sel.
                            bind-Holds _ (string json obj (codes "pcr_bank")) _ (λ named_bank _.
                              bind-Holds _ (bank_of json named_bank) _ (λ bank known.
                                let good = Holds-eq _ _ (pcrs-Holds list) sel in
                                (
                                  record {
                                    name_usable = guard-eq-ok _ _ named;
                                    device_absolute = guard-eq-ok _ _ absolute;
                                    tpm2_device_named = guard-eq-ok _ _ tpm2;
                                    pcrs_ascending = good.0.0;
                                    pcrs_exist = good.0.1;
                                    pcrs_given = good.1;
                                    bank_known = Holds-eq _ _ (bank_of-Holds named_bank) known;
                                  },
                                  refl,
                                )))))))))))))

  volume-IsValid : (name : Bytes) (value : json.Value) → Holds IsValid (volume json name value)
  volume-IsValid name value = first (volume json name value) (volume-Holds name value)
    where
      first :
          (r : Result ConfigError Volume)
          → Holds (λ v. IsValid v × (v.name ≡ name)) r
          → Holds IsValid r
      first (ok v) h = h.0
      first (err e) h = tt

  -- What one entry adds.
  abbrev collect : Bytes → Result ConfigError Volume → Loaded → Loaded
  collect name r out = elim r [
    | ok v ↦ record out { volumes = out.volumes ++ v ∷ [] }
    | err e ↦ record out { rejected = out.rejected ++ (name, e) ∷ [] }
  ]

  collect-sorts :
      (name : Bytes) (r : Result ConfigError Volume) (out : Loaded)
      → Holds IsValid r
      → All IsValid out.volumes
      → All IsValid (collect name r out).volumes
        × (length (collect name r out).volumes + length (collect name r out).rejected
            ≡ length out.volumes + length out.rejected + 1)
  collect-sorts name (ok v) out valid all =
      (All-snoc _ out.volumes valid all, omega (arith, length-append out.volumes (v ∷ [])))
  collect-sorts name (err e) out valid all =
      (all, omega (arith, length-append out.rejected ((name, e) ∷ [])))

  -- When the volumes collected so far are valid, so are those collected at the end, whatever the
  -- entries hold; and each entry is either served or among the rejected ones, none is lost.
  pub parse_volumes-sorts :
      (l : List (Bytes × json.Value)) (out : Loaded)
      → All IsValid out.volumes
      → All IsValid (parse_volumes json l out).volumes
        × (length (parse_volumes json l out).volumes + length (parse_volumes json l out).rejected
            ≡ length out.volumes + length out.rejected + length l)
  unfolding parse_volumes
  parse_volumes-sorts [] out valid = (valid, omega arith)
  parse_volumes-sorts ((name, value) ∷ l) out valid =
      let (valid', counted) =
        collect-sorts name (volume json name value) out (volume-IsValid name value) valid in
      let (valid'', counted') =
        parse_volumes-sorts l (collect name (volume json name value) out) valid' in
      (valid'', omega arith)

  parse-Holds : (text : Bytes) → Holds (λ loaded. All IsValid loaded.volumes) (parse json text)
  unfolding parse
  parse-Holds text = bind-Holds _ (ok_or not_json (json.from_str text)) _ (λ root _.
      bind-Holds _ (ok_or not_an_object (json.as_object root)) _ (λ obj _.
        bind-Holds _
          (refuse_key unknown_top_level_key
            (find (λ k. not (equal k (codes "volumes"))) (keys (json.entries obj))))
          _
          (λ u _. bind-Holds _ (ok_or no_volumes (json.map_get obj (codes "volumes"))) _ (λ value _.
            bind-Holds _ (ok_or volumes_not_an_object (json.as_object value)) _
              (λ volumes _. (parse_volumes-sorts (json.entries volumes) _ tt).0)))))

  -- A configuration that is accepted serves valid volumes only: each has a name that is one path
  -- component, an absolute device path, a TPM that is "auto" or an absolute path, a bank that has a
  -- name, and PCRs up to 23 that are ascending, given once each and at least one.
  pub parse-IsValid :
      (text : Bytes) (loaded : Loaded) → parse json text ≡ ok loaded → All IsValid loaded.volumes
  parse-IsValid text loaded h = Holds-eq _ _ (parse-Holds text) h

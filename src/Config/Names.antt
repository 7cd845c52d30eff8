-- ===== src/Config/Names.antt =====
-- A configuration without rejections serves each of its entries.
use tpm2_autoenroll.Base.{
  find, Bytes, codes, equal, ◌≡◌, sym, ap, ◌∙◌, ◌≢◌, inl, inr, not, Option, none, some, List, [],
  ◌∷◌, ◌++◌, map,
}
use mathlib.Core.List.{append-nil, append_assoc, map-append}
use tpm2_autoenroll.Base.Results.{
  ok, ok_or, ok_or-eq-ok, ok_inj, bind-eq-ok, Holds-eq, Result-cases,
}
use tpm2_autoenroll.Config.{
  Loaded, volume, parse_volumes, parse, refuse_key, unknown_top_level_key, no_volumes, not_json,
  not_an_object, volumes_not_an_object,
}
use tpm2_autoenroll.Config.Volumes.{volume-Holds}
use tpm2_autoenroll.Json.{Json, keys}

abbrev and_then {ℓ} : {A B : Type ℓ} → Option A → (A → Option B) → Option B
and_then none f = none
and_then (some a) f = f a

cons≢nil : {A : Type 0} (l : List A) (a : A) → l ++ a ∷ [] ≢ []
cons≢nil [] a h = cc
cons≢nil (x ∷ l) a h = cc

module _ (json : Json) where
  -- The names in the "volumes" object of a document, as they stand there.
  pub entry_names : Bytes → Option (List Bytes)
  entry_names text = and_then (json.from_str text) λ root. and_then (json.as_object root) λ obj.
      and_then (json.map_get obj (codes "volumes"))
        λ value. and_then (json.as_object value) λ volumes. some (keys (json.entries volumes))

  -- Nothing that was rejected is forgotten; when nothing was, the names are those of the entries.
  parse_volumes-names :
      (l : List (Bytes × json.Value)) (out : Loaded)
      → (parse_volumes json l out).rejected ≡ []
      → (out.rejected ≡ [])
        × (map (λ v. v.name) (parse_volumes json l out).volumes
            ≡ map (λ v. v.name) out.volumes ++ keys l)
  unfolding parse_volumes
  parse_volumes-names [] out h = (h, sym (append-nil (map (λ v. v.name) out.volumes)))
  parse_volumes-names ((name, value) ∷ l) out h = elim (Result-cases (volume json name value)) [
    | inl (v, e) ↦
        let later =
          parse_volumes-names l (record out { volumes = out.volumes ++ v ∷ [] })
            (rw (parse_volumes, e) at h) in
        let same : v.name ≡ name = (Holds-eq _ _ (volume-Holds json name value) e).1 in
        (later.0, rw (parse_volumes, e) (later.1 ∙ simp (map-append, append_assoc, same)))
    | inr (why, e) ↦
        let later =
          parse_volumes-names l (record out { rejected = out.rejected ++ (name, why) ∷ [] })
            (rw (parse_volumes, e) at h) in
        absurd (cons≢nil out.rejected (name, why) later.0)
  ]

  -- A document that is accepted with no volume rejected gives one volume for each entry, in order.
  pub parse-names :
      (text : Bytes) (loaded : Loaded)
      → parse json text ≡ ok loaded
      → loaded.rejected ≡ []
      → entry_names text ≡ some (map (λ v. v.name) loaded.volumes)
  unfolding parse entry_names
  parse-names text loaded h none_bad =
      let root = bind-eq-ok (ok_or not_json (json.from_str text)) _ h in
      let obj = bind-eq-ok (ok_or not_an_object (json.as_object root.0)) _ root.2 in
      let known =
        bind-eq-ok
          (refuse_key unknown_top_level_key
            (find (λ k. not (equal k (codes "volumes"))) (keys (json.entries obj.0))))
          _ obj.2 in
      let value = bind-eq-ok (ok_or no_volumes (json.map_get obj.0 (codes "volumes"))) _ known.2 in
      let volumes = bind-eq-ok (ok_or volumes_not_an_object (json.as_object value.0)) _ value.2 in
      let empty : Loaded = record { volumes = []; rejected = [] } in
      let same : parse_volumes json (json.entries volumes.0) empty ≡ loaded = ok_inj volumes.2 in
      let names =
        (parse_volumes-names (json.entries volumes.0) empty
          (ap (λ x. x.rejected) same ∙ none_bad)).1 in
      rw
        (
          ok_or-eq-ok _ _ root.1,
          ok_or-eq-ok _ _ obj.1,
          ok_or-eq-ok _ _ value.1,
          ok_or-eq-ok _ _ volumes.1,
        )
        (ap some (sym names ∙ ap (λ x. map (λ v. v.name) x.volumes) same))

-- ===== src/Token/Tokens.antt =====
-- What the tokens of a header that is read satisfy.
use mathlib.Core.List.{Perm, append-nil, append_assoc}
use mathlib.Core.List.Perm
use mathlib.Core.Path.{subst}
use tpm2_autoenroll.Base.{
  ltb, leb, leb→le, Bool-cases, All, All-snoc, Bytes, codes, ℕ, ◌%◌, ◌^◌, ◌≤◌, ◌≡◌, sym, ◌∙◌, inl,
  inr, true, false, Option, none, some, List, [], ◌∷◌, ◌++◌, arith,
}
use tpm2_autoenroll.Base.Results.{Result, ok, err, ok_or, ok_or-eq-ok, Holds, bind-Holds, Holds-eq}
use tpm2_autoenroll.Base.Ascending.{IsAscending}
use tpm2_autoenroll.Base.Sort.{dedup-sort-IsAscending, dedup-sort-All}
use tpm2_autoenroll.Json.{Json, get}
use tpm2_autoenroll.Token.{
  Tpm2Token, TokenError, parse_u32, insert_token, sort_tokens, collect_pcrs, pcr_list, token_pcrs,
  token_hash, token, is_tpm2_token, collect_tokens, parse, non_integer_pcr, pcrs_not_an_array,
  not_an_index, and_then, tokens_of,
}

-- In header order: no token has a smaller index than one before it.
abbrev pub Ordered : List Tpm2Token → Type 0
Ordered [] = Unit {0}
Ordered (t ∷ l) = All (λ u. t.index ≤ u.index) l × Ordered l

insert_token-All {ℓ} :
    (P : Tpm2Token → Type ℓ) (t : Tpm2Token) (l : List Tpm2Token)
    → P t
    → All P l
    → All P (insert_token t l)
unfolding insert_token
insert_token-All P t [] ht h = (ht, tt)
insert_token-All P t (u ∷ l) ht h = elim (Bool-cases (leb t.index u.index)) [
  | inl e ↦ rw e ((ht, h))
  | inr e ↦ rw e ((h.0, insert_token-All P t l ht h.1))
]

sort_tokens-All {ℓ} :
    (P : Tpm2Token → Type ℓ) (l : List Tpm2Token) → All P l → All P (sort_tokens l)
unfolding sort_tokens
sort_tokens-All P [] h = tt
sort_tokens-All P (t ∷ l) h = insert_token-All P t (sort_tokens l) h.0 (sort_tokens-All P l h.1)

All-below :
    (i j : ℕ) (l : List Tpm2Token) → i ≤ j → All (λ u. j ≤ u.index) l → All (λ u. i ≤ u.index) l
All-below i j [] h a = tt
All-below i j (u ∷ l) h a = (omega arith, All-below i j l h a.1)

insert_token-Ordered : (t : Tpm2Token) (l : List Tpm2Token) → Ordered l → Ordered (insert_token t l)
unfolding insert_token
insert_token-Ordered t [] h = (tt, tt)
insert_token-Ordered t (u ∷ l) h = elim (Bool-cases (leb t.index u.index)) [
  | inl e ↦ rw e (((leb→le _ _ e, All-below t.index u.index l (leb→le _ _ e) h.0), h))
  | inr e ↦ rw e (
      (
        insert_token-All (λ v. u.index ≤ v.index) t l (ground arith) h.0,
        insert_token-Ordered t l h.1,
      ))
]

sort_tokens-Ordered : (l : List Tpm2Token) → Ordered (sort_tokens l)
unfolding sort_tokens
sort_tokens-Ordered [] = tt
sort_tokens-Ordered (t ∷ l) = insert_token-Ordered t (sort_tokens l) (sort_tokens-Ordered l)

insert_token-Perm : (t : Tpm2Token) (l : List Tpm2Token) → Perm (insert_token t l) (t ∷ l)
unfolding insert_token
insert_token-Perm t [] = Perm.rfl
insert_token-Perm t (u ∷ l) = elim (Bool-cases (leb t.index u.index)) [
  | inl e ↦ rw (insert_token, e) Perm.rfl
  | inr e ↦
      rw (insert_token, e) (Perm.trans (Perm.cons u (insert_token-Perm t l)) (Perm.swap t u l))
]

sort_tokens-Perm : (l : List Tpm2Token) → Perm (sort_tokens l) l
unfolding sort_tokens
sort_tokens-Perm [] = Perm.rfl
sort_tokens-Perm (t ∷ l) =
    Perm.trans (insert_token-Perm t (sort_tokens l)) (Perm.cons t (sort_tokens-Perm l))

-- A selection as it is compared with the configured one.
abbrev pub IsSelection : List ℕ → Type 0
IsSelection l = IsAscending l × All (λ p. p ≤ 23) l

module _ (json : Json) where
  collect_pcrs-Holds :
      (list : List json.Value) (out : List ℕ)
      → All (λ p. p ≤ 23) out
      → Holds (All (λ p. p ≤ 23)) (collect_pcrs json list out)
  unfolding collect_pcrs
  collect_pcrs-Holds [] out h = h
  collect_pcrs-Holds (item ∷ list) out h =
      bind-Holds _ (ok_or non_integer_pcr (json.as_u64 item)) _ (λ n _.
        elim (Bool-cases (ltb 23 n)) [
          | inl e ↦ rw e tt
          | inr e ↦
              let small : n % 2 ^ 8 ≤ 23 = ground arith in
              rw e (collect_pcrs-Holds list (out ++ (n % 2 ^ 8) ∷ []) (All-snoc _ out small h))
        ])

  pcr_list-Holds : (value : json.Value) → Holds IsSelection (pcr_list json value)
  unfolding pcr_list
  pcr_list-Holds value = bind-Holds _ (ok_or pcrs_not_an_array (json.as_array value)) _ (λ list _.
      bind-Holds _ (collect_pcrs json list []) _ (λ out e. (
        dedup-sort-IsAscending out,
        dedup-sort-All (λ p. p ≤ 23) out (Holds-eq _ _ (collect_pcrs-Holds list [] tt) e),
      )))

  token_pcrs-Holds : (v : Option json.Value) → Holds IsSelection (token_pcrs json v)
  unfolding token_pcrs
  token_pcrs-Holds none = (tt, tt)
  token_pcrs-Holds (some v) = pcr_list-Holds v

  token-Holds :
      (index : ℕ) (value : json.Value) → Holds (λ t. IsSelection t.pcrs) (token json index value)
  unfolding token
  token-Holds index value =
      bind-Holds _ (token_pcrs json (get json value (codes "tpm2-pcrs"))) _ (λ pcrs e.
        bind-Holds _ (token_hash json index (get json value (codes "tpm2-policy-hash"))) _
          (λ hash _. Holds-eq _ _ (token_pcrs-Holds _) e))

  -- The tokens of some entries of the header, one for each entry of type systemd-tpm2, in their order:
  -- what `token` reads of the value, under the number that the key is.
  pub data ReadFrom : List (Bytes × json.Value) → List Tpm2Token → Type 0 where
    none_left : ReadFrom [] []
    other :
        {key : Bytes} {value : json.Value} {l : List (Bytes × json.Value)} {ts : List Tpm2Token}
        → is_tpm2_token json value ≡ false
        → ReadFrom l ts
        → ReadFrom ((key, value) ∷ l) ts
    one_more :
        {key : Bytes} {value : json.Value} {l : List (Bytes × json.Value)} {ts : List Tpm2Token}
        {t : Tpm2Token} (index : ℕ)
        → is_tpm2_token json value ≡ true
        → parse_u32 key ≡ some index
        → token json index value ≡ ok t
        → ReadFrom l ts
        → ReadFrom ((key, value) ∷ l) (t ∷ ts)

  -- What `collect_tokens` adds to the tokens before.
  IsCollected : List (Bytes × json.Value) → List Tpm2Token → List Tpm2Token → Type 0
  IsCollected l out r =
      (ts : List Tpm2Token) × (r ≡ out ++ ts) × ReadFrom l ts × All (λ t. IsSelection t.pcrs) ts

  Holds-map :
      (P Q : List Tpm2Token → Type 0) (r : Result TokenError (List Tpm2Token))
      → ((a : List Tpm2Token) → P a → Q a)
      → Holds P r
      → Holds Q r
  Holds-map P Q (ok a) h x = h a x
  Holds-map P Q (err e) h x = tt

  collect_tokens-Holds :
      (l : List (Bytes × json.Value)) (out : List Tpm2Token)
      → Holds (IsCollected l out) (collect_tokens json l out)
  unfolding collect_tokens IsCollected
  collect_tokens-Holds [] out = ([], sym (append-nil out), none_left, tt)
  collect_tokens-Holds ((key, value) ∷ l) out = elim (Bool-cases (is_tpm2_token json value)) [
    | inr e ↦
        rw (e, collect_tokens)
          (Holds-map (IsCollected l out) (IsCollected ((key, value) ∷ l) out)
            (collect_tokens json l out) (λ r (ts, same, from, good). (ts, same, other e from, good))
            (collect_tokens-Holds l out))
    | inl e ↦
        rw (e, collect_tokens)
          (bind-Holds (IsCollected ((key, value) ∷ l) out)
            (ok_or (not_an_index key) (parse_u32 key)) _
            (λ index e1.
              bind-Holds (IsCollected ((key, value) ∷ l) out) (token json index value) _ (λ t e2.
                Holds-map (IsCollected l (out ++ t ∷ [])) (IsCollected ((key, value) ∷ l) out)
                  (collect_tokens json l (out ++ t ∷ []))
                  (λ r (ts, same, from, good). (
                    t ∷ ts,
                    same ∙ append_assoc out (t ∷ []) ts,
                    one_more index e (ok_or-eq-ok _ (parse_u32 key) e1) e2 from,
                    (Holds-eq _ _ (token-Holds index value) e2, good),
                  ))
                  (collect_tokens-Holds l (out ++ t ∷ [])))))
  ]

  entries_of : Option json.Map → List (Bytes × json.Value)
  entries_of none = []
  entries_of (some tokens) = json.entries tokens

  -- The entries of the header's "tokens" object; a header without one has none.
  pub header_entries : json.Value → List (Bytes × json.Value)
  header_entries root = entries_of (and_then json (get json root (codes "tokens")) json.as_object)

  -- The tokens that are read of entries, put into the order of their indices.
  pub Sorted : List (Bytes × json.Value) → List Tpm2Token → Type 0
  Sorted entries tokens =
      (ts : List Tpm2Token) × ReadFrom entries ts
      × Perm tokens ts
      × Ordered tokens
      × All (λ t. IsSelection t.pcrs) tokens

  tokens_of-Holds : (o : Option json.Map) → Holds (Sorted (entries_of o)) (tokens_of json o)
  unfolding tokens_of entries_of Sorted IsCollected
  tokens_of-Holds none = ([], none_left, Perm.rfl, tt, tt)
  tokens_of-Holds (some obj) =
      bind-Holds (Sorted (json.entries obj)) (collect_tokens json (json.entries obj) []) _ (λ out e.
        let (ts, same, from, good) = Holds-eq _ _ (collect_tokens-Holds (json.entries obj) []) e in
        (
          ts,
          from,
          subst (Perm (sort_tokens out)) same (sort_tokens-Perm out),
          sort_tokens-Ordered out,
          sort_tokens-All _ out (subst (All (λ t. IsSelection t.pcrs)) (sym same) good),
        ))

  -- When a header is read, the tokens are those that `token` reads of its entries of type systemd-tpm2,
  -- one of each, none lost and none twice; they stand in the order of their indices; and each
  -- selection is ascending, without repetition, of PCRs up to 23.
  pub parse-Sorted :
      (text : Bytes) (root : json.Value) (tokens : List Tpm2Token)
      → json.from_str text ≡ some root
      → parse json text ≡ ok tokens
      → Sorted (header_entries root) tokens
  unfolding parse header_entries
  parse-Sorted text root tokens r h =
      Holds-eq (Sorted (header_entries root))
        (tokens_of json (and_then json (get json root (codes "tokens")) json.as_object))
        (tokens_of-Holds _) (rw r at h)

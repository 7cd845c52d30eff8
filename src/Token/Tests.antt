-- ===== src/Token/Tests.antt =====
-- A header with two systemd-tpm2 tokens and another one.
use tpm2_autoenroll.Base.{codes, equal, ◌≡◌, refl, false, none, [], ◌∷◌}
use tpm2_autoenroll.Base.Results.{ok}
use tpm2_autoenroll.Base.Sort.{sort, dedup}
use tpm2_autoenroll.Json.{get}
use tpm2_autoenroll.Json.Tree.{Tree, text, number, no_items, no_fields, item, field, holding}
use tpm2_autoenroll.Hex.{unhex, unhex_pairs, to_digit}
use tpm2_autoenroll.Token.{
  Tpm2Token, is_known_key, parse_digits, parse_u32, insert_token, sort_tokens, advanced_kind,
  collect_pcrs, pcr_list, single_shard, only_item, token_pcrs, token_hash, and_then, or_false,
  token, is_tpm2_token, collect_tokens, tokens_of, parse,
}
use tpm2_autoenroll.Token.Tokens.{Sorted, header_entries, parse-Sorted}

abbrev sealed : Tree → Tree
sealed pcrs = field (codes "type") (text (codes "systemd-tpm2")) (
    field (codes "tpm2-pcrs") pcrs
      (field (codes "tpm2-policy-hash") (text (codes "ab07")) no_fields))

abbrev recovery : Tree
recovery = field (codes "type") (text (codes "systemd-recovery")) no_fields

abbrev header : Tree
header =
    field (codes "tokens")
      (field (codes "10") (sealed (item (number 7) no_items)) (
        field (codes "2") (sealed (item (number 7) (item (number 4) no_items)))
          (field (codes "3") recovery no_fields)))
      no_fields

abbrev tenth : Tpm2Token
tenth = record {
  index = 10;
  pcrs = 7 ∷ [];
  bank = none;
  policy_hash = 0xab ∷ 0x07 ∷ [];
  pin = false;
  advanced = none;
}

abbrev second : Tpm2Token
second = record {
  index = 2;
  pcrs = 4 ∷ 7 ∷ [];
  bank = none;
  policy_hash = 0xab ∷ 0x07 ∷ [];
  pin = false;
  advanced = none;
}

reads_header : parse (holding header) (codes "document") ≡ ok (second ∷ tenth ∷ [])
unfolding parse tokens_of collect_tokens is_tpm2_token token token_pcrs token_hash and_then or_false
    pcr_list collect_pcrs single_shard only_item advanced_kind sort_tokens insert_token parse_u32
    parse_digits is_known_key unhex unhex_pairs to_digit get sort dedup codes equal
reads_header = refl

parse-Sorted_example :
    Sorted (holding header) (header_entries (holding header) header) (second ∷ tenth ∷ [])
unfolding codes equal
parse-Sorted_example =
    parse-Sorted (holding header) (codes "document") header (second ∷ tenth ∷ []) refl reads_header

-- ===== src/Config/Tests.antt =====
-- A configuration with one volume to serve and one to reject.
use tpm2_autoenroll.Base.{
  All, codes, equal, strip_prefix, starts_with, contains, ◌≡◌, refl, [], ◌∷◌,
}
use tpm2_autoenroll.Base.Results.{ok}
use tpm2_autoenroll.Base.Sort.{set_insert}
use tpm2_autoenroll.Json.Tree.{Tree, text, number, no_items, no_fields, item, field, holding}
use tpm2_autoenroll.Config.{
  Volume, Loaded, no_device, parse, parse_volumes, volume, pcrs, insert_pcrs, bank_of, string,
  is_volume_key, is_usable_name, guard, refuse_key,
}
use tpm2_autoenroll.Config.Volumes.{IsValid, parse-IsValid}

abbrev root_entry : Tree
root_entry =
    field (codes "device") (text (codes "/dev/sda2")) (
      field (codes "pcrs") (item (number 7) (item (number 4) (item (number 7) no_items))) no_fields)

abbrev both_entries : Tree
both_entries = field (codes "data") no_fields (field (codes "root") root_entry no_fields)

abbrev document : Tree
document = field (codes "volumes") both_entries no_fields

abbrev root_volume : Volume
root_volume = record {
  name = codes "root";
  device = codes "/dev/sda2";
  tpm2_device = codes "auto";
  pcrs = 4 ∷ 7 ∷ [];
  bank = 11;
}

abbrev read_document : Loaded
read_document = record { volumes = root_volume ∷ []; rejected = (codes "data", no_device) ∷ [] }

reads_document : parse (holding document) (codes "document") ≡ ok read_document
unfolding parse parse_volumes volume pcrs insert_pcrs bank_of string is_volume_key is_usable_name
    guard refuse_key set_insert codes equal starts_with strip_prefix contains
reads_document = refl

parse-IsValid_example : All IsValid (root_volume ∷ [])
parse-IsValid_example =
    parse-IsValid (holding document) (codes "document") read_document reads_document

-- ===== src/BindName/Tests.antt =====
-- Names that systemd-cryptsetup binds.
use tpm2_autoenroll.Base.{codes, is_alnum, strip_prefix, position, ◌≡◌, refl, ◌↔◌, some}
use tpm2_autoenroll.BindName.{
  PeerName, plain, parse, parse_at, after_last_slash, named, match_infix,
}
use tpm2_autoenroll.BindName.Shape.{Names, parse-iff-Names}

abbrev root_name : PeerName
root_name = record { phase = plain; volume = codes "root" }

parse-iff-Names_example :
    parse (codes "1af3/cryptsetup/root") ≡ some root_name
    ↔ Names (codes "1af3/cryptsetup/root") root_name
parse-iff-Names_example = parse-iff-Names (codes "1af3/cryptsetup/root") root_name

reads_root : parse (codes "1af3/cryptsetup/root") ≡ some root_name
unfolding parse parse_at match_infix named after_last_slash position codes strip_prefix is_alnum
reads_root = refl

-- ===== src/AskPw/Tests.antt =====
-- Two passphrases.
use tpm2_autoenroll.Base.{take, codes, contains, ◌≡◌, refl, some, [], ◌∷◌, arith}
use tpm2_autoenroll.AskPw.{cescape, parse_candidates}
use tpm2_autoenroll.AskPw.Unescape.{unescape, unescape-cescape}
use tpm2_autoenroll.AskPw.Candidates.{lines_of, parse_candidates-lines_of}

parse_candidates-lines_of_example :
    parse_candidates (lines_of (codes "hunter2" ∷ codes "a b" ∷ []))
    ≡ take 4 (codes "hunter2" ∷ codes "a b" ∷ [])
unfolding codes contains
parse_candidates-lines_of_example =
    parse_candidates-lines_of (codes "hunter2") (codes "a b" ∷ [])
      ((refl, refl), ((refl, refl), tt))

unescape-cescape_example :
    unescape 11 (cescape (codes "/dev/a \\\"b")) ≡ some (codes "/dev/a \\\"b")
unfolding codes
unescape-cescape_example = unescape-cescape (codes "/dev/a \\\"b") (omega arith)

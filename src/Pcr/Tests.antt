-- ===== src/Pcr/Tests.antt =====
-- A PCR_Read response with two digests.
use tpm2_autoenroll.Base.{length, Bytes, ◌^◌, ◌<◌, ◌≡◌, List, [], ◌∷◌, arith}
use tpm2_autoenroll.Base.Results.{ok}
use tpm2_autoenroll.Base.Sort.{dedup, sort}
use tpm2_autoenroll.Pcr.{parse_pcr_read, put_pcr_selection, select, select_all}
use tpm2_autoenroll.Wire.{put_u16, put_u32, put_tpm2b}
use tpm2_autoenroll.Pcr.RoundTrip.{answer, parse_pcr_read-answer}

abbrev two : List Bytes
two = (1 ∷ 2 ∷ []) ∷ (3 ∷ []) ∷ []

short : length (answer 5 11 (7 ∷ 4 ∷ []) two) < 2 ^ 64
unfolding put_pcr_selection put_u16 put_u32 put_tpm2b select_all select
short = omega arith

parse_pcr_read-answer_example :
    parse_pcr_read (answer 5 11 (7 ∷ 4 ∷ []) two) ≡ ok (dedup (sort (7 ∷ 4 ∷ [])), two)
parse_pcr_read-answer_example =
    parse_pcr_read-answer 5 11 (7 ∷ 4 ∷ []) two (omega arith) (omega arith)
      (omega arith, (omega arith, tt)) (omega arith, (omega arith, tt)) (omega arith) short

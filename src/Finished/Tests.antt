-- ===== src/Finished/Tests.antt =====
-- One volume answered, one not.
use tpm2_autoenroll.Base.{Bytes, codes, equal, ◌≡◌, refl, true, false, none, some, List, [], ◌∷◌}
use tpm2_autoenroll.Finished.{is_done, finished, all_answered, idle_too_long}

abbrev two : List Bytes
two = codes "root" ∷ codes "data" ∷ []

goes_on : finished two (codes "root" ∷ []) (λ v. false) 299 ≡ none
unfolding finished is_done equal codes
goes_on = refl

gives_up : finished two (codes "root" ∷ []) (λ v. false) 300 ≡ some idle_too_long
unfolding finished is_done equal codes
gives_up = refl

all_open : finished two (codes "root" ∷ []) (λ v. true) 300 ≡ some all_answered
unfolding finished is_done equal codes
all_open = refl

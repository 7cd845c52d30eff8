-- ===== src/Enroll/Tests.antt =====
-- A header in which the old token and the new one both stand.
use tpm2_autoenroll.Base.{ℕ, ◌≡◌, ◌↔◌, false, none, some, [], ◌∷◌}
use tpm2_autoenroll.Enroll.{find_new_token}
use tpm2_autoenroll.Enroll.NewToken.{IsOnlyNew, find_new_token-iff-IsOnlyNew}
use tpm2_autoenroll.Token.{Tpm2Token}

abbrev token_at : ℕ → Tpm2Token
token_at i = record {
  index = i;
  pcrs = 7 ∷ [];
  bank = none;
  policy_hash = 1 ∷ [];
  pin = false;
  advanced = none;
}

find_new_token-iff-IsOnlyNew_example :
    find_new_token (token_at 0 ∷ token_at 1 ∷ []) (some 0) ≡ some (token_at 1)
    ↔ IsOnlyNew (token_at 0 ∷ token_at 1 ∷ []) (some 0) (token_at 1)
find_new_token-iff-IsOnlyNew_example =
    find_new_token-iff-IsOnlyNew (token_at 0 ∷ token_at 1 ∷ []) (some 0) (token_at 1)

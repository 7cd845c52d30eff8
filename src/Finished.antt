-- ===== src/Finished.antt =====
-- src/main.rs, `finished`: why the daemon can stop, if it can.
mod Tests
use tpm2_autoenroll.Base.{
  leb, if◌then◌else◌, all, any, Bytes, equal, ℕ, ◌<◌, ◌≡◌, refl, ◌↔◌, Bool, true, not, ◌||◌, Option,
  none, some, List, [], ◌∷◌, arith,
}

-- `IDLE_LIMIT`, in seconds
abbrev pub idle_limit : ℕ
idle_limit = 300

pub data Stop : Type 0 where
  all_answered idle_too_long : Stop

-- `served.contains(v) || active(v)`
unfoldable pub is_done : List Bytes → (Bytes → Bool) → Bytes → Bool
is_done served active v = any (λ name. equal name v) served || active v

-- `finished`; `served` is the set of the volumes that were answered.
unfoldable pub finished : List Bytes → List Bytes → (Bytes → Bool) → ℕ → Option Stop
finished volumes served active idle =
    if all (is_done served active) volumes
    then some all_answered
    else if leb idle_limit idle
    then some idle_too_long
    else none

not-all : {A : Type 0} (test : A → Bool) (l : List A) → all test l ≡ not (any (λ a. not (test a)) l)
not-all test [] = refl
not-all test (a ∷ l) = ground (arith, not-all test l)

-- The daemon goes on exactly while a volume is neither active nor answered in the plain phase and
-- the last contact is less than five minutes ago.
pub finished-none :
    (volumes served : List Bytes) (active : Bytes → Bool) (idle : ℕ)
    → finished volumes served active idle ≡ none
      ↔ ((any (λ v. not (is_done served active v)) volumes ≡ true) × (idle < 300))
unfolding finished
finished-none volumes served active idle = (
  λ h. ground (arith, not-all (is_done served active) volumes),
  λ h. ground (arith, not-all (is_done served active) volumes),
)

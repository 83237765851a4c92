-- ===== src/Staking/StakerInfo.antt =====
-- `EraStake` and `StakerInfo` of pallets/dapi-staking/src/lib.rs: what a staker has staked on a
-- provider in the eras not yet claimed, as one entry for each era in which the stake changed.
pub mod History
pub mod Claims
pub mod Schedule
use massbit_verification.Prelude.{
  ℕ, ◌+◌, ◌-◌, ◌%◌, Bool, true, false, ◌||◌, Option, none, some, List, [], ◌∷◌, ◌++◌, ltb, ◌==◌,
  nat_eq, if◌then◌else◌, length, get_last?, set_last, u32_size, add_u32, saturating_add_u32,
  saturating_add_u128,
}
use massbit_verification.Dispatch.{Balance, EraIndex}

pub record EraStake : Type 0 where
  pub staked : Balance
  pub era : EraIndex

pub record StakerInfo : Type 0 where
  pub stakes : List EraStake

-- `StakerInfo::default()`
abbrev pub no_stakes : StakerInfo
no_stakes = record { stakes = [] }

-- `is_empty` of a vector
abbrev pub no_chunks : {A : Type 0} → List A → Bool
no_chunks [] = true
no_chunks (x ∷ xs) = false

unfoldable pub is_empty : StakerInfo → Bool
is_empty i = no_chunks i.stakes

-- `len`, with the cast to `u32`
unfoldable pub len : StakerInfo → ℕ
len i = length i.stakes % u32_size

abbrev pub last_value : Option EraStake → Balance
last_value none = 0
last_value (some s) = s.staked

unfoldable pub latest_staked_value : StakerInfo → Balance
latest_staked_value i = last_value (get_last? i.stakes)

-- The entry of the current era is replaced, a later era gets an entry of its own.
unfoldable pub record_value : List EraStake → EraStake → EraIndex → Balance → List EraStake
record_value stakes last current_era value =
    if current_era == last.era
    then set_last (record { staked = value; era = current_era }) stakes
    else stakes ++ record { staked = value; era = current_era } ∷ []

-- `if !self.stakes.is_empty() && self.stakes[0].staked.is_zero() { self.stakes.remove(0); }`
unfoldable pub drop_zero_head : List EraStake → List EraStake
drop_zero_head [] = []
drop_zero_head (s ∷ r) = if s.staked == 0 then r else s ∷ r

-- `none` is the error "Unexpected era".
unfoldable pub stake_last :
    Option EraStake → List EraStake → EraIndex → Balance → Option (List EraStake)
stake_last none stakes current_era value =
    some (stakes ++ record { staked = value; era = current_era } ∷ [])
stake_last (some last) stakes current_era value =
    if ltb current_era last.era
    then none
    else some (record_value stakes last current_era (saturating_add_u128 last.staked value))

abbrev pub with_stakes : Option (List EraStake) → Option StakerInfo
with_stakes none = none
with_stakes (some l) = some (record { stakes = l })

unfoldable pub stake : StakerInfo → EraIndex → Balance → Option StakerInfo
unfolding stake_last
stake i current_era value = with_stakes (stake_last (get_last? i.stakes) i.stakes current_era value)

unfoldable pub unstake_last :
    Option EraStake → List EraStake → EraIndex → Balance → Option (List EraStake)
unstake_last none stakes current_era value = some stakes
unstake_last (some last) stakes current_era value =
    if ltb current_era last.era
    then none
    else some (drop_zero_head (record_value stakes last current_era (last.staked - value)))

unfoldable pub unstake : StakerInfo → EraIndex → Balance → Option StakerInfo
unfolding unstake_last
unstake i current_era value =
    with_stakes (unstake_last (get_last? i.stakes) i.stakes current_era value)

-- The entries once the first one, `s`, has been claimed for its era; `r` are the others.
unfoldable pub claim_rest : EraStake → List EraStake → List EraStake
claim_rest s [] = record { staked = s.staked; era = saturating_add_u32 s.era 1 } ∷ []
claim_rest s (t ∷ r) =
    if ltb (add_u32 s.era 1) t.era
    then record { staked = s.staked; era = saturating_add_u32 s.era 1 } ∷ t ∷ r
    else t ∷ r

-- The claimed era with the value staked in it, and what is left to claim.
unfoldable pub claim : StakerInfo → (EraIndex × Balance) × StakerInfo
unfolding claim_rest drop_zero_head
claim i = elim i.stakes [
  | [] ↦ ((0, 0), i)
  | s ∷ r ↦ ((s.era, s.staked), record { stakes = drop_zero_head (claim_rest s r) })
]

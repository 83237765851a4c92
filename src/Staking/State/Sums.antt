-- ===== src/Staking/State/Sums.antt =====
-- What all stakers of a provider come to, in whatever is counted of each.
use massbit_verification.Prelude.{ℕ, ◌+◌, ◌≤◌, ◌≡◌, arith, nat_beq, pair_eq, if◌then◌else◌}
use massbit_verification.StorageMap.{IsDistinct, sum_by, sum_by-insert, sum_by-remove}
use massbit_verification.Dispatch.{AccountId}
use massbit_verification.Staking.StakerInfo.{StakerInfo, no_stakes, latest_staked_value}
use massbit_verification.Staking.State.{ProviderId, State, staker_info, update_staker_info}
use massbit_verification.Staking.State.Access.{no_stakes_lem}

-- A staker counts as one while it has a stake.
abbrev pub is_staker : StakerInfo → ℕ
is_staker i = if nat_beq (latest_staked_value i) 0 then 0 else 1

module _ {B : Type 0} (f : StakerInfo → ℕ) where
  unfoldable pub sum_on : ProviderId → State B → ℕ
  sum_on p s =
      sum_by (λ (k : AccountId × ProviderId) i. if nat_beq k.1 p then f i else 0)
        s.general_staker_info

  pub sum_on_cong :
      (p : ProviderId) (s t : State B)
      → t.general_staker_info ≡ s.general_staker_info
      → sum_on p t ≡ sum_on p s
  unfolding sum_on
  sum_on_cong p s t h = rw h

  pub sum_on-update_staker_info :
      (a : AccountId) (p q : ProviderId) (i : StakerInfo) (s : State B)
      → f no_stakes ≡ 0
      → IsDistinct s.general_staker_info
      → sum_on q (update_staker_info a p i s) + (if nat_beq p q then f (staker_info a p s) else 0)
        ≡ sum_on q s + (if nat_beq p q then f i else 0)
  unfolding sum_on update_staker_info staker_info
  sum_on-update_staker_info a p q i s z d =
      let m = s.general_staker_info in
      let g = λ (k : AccountId × ProviderId) (x : StakerInfo). if nat_beq k.1 q then f x else 0 in
      ground (arith, no_stakes_lem i, z, sum_by-insert g (a, p) i m, sum_by-remove g (a, p) m d)

  -- One staker is part of the sum.
  pub staker-le-sum_on :
      (a : AccountId) (p : ProviderId) (s : State B)
      → f no_stakes ≡ 0
      → f (staker_info a p s) ≤ sum_on p s
  unfolding sum_on staker_info
  staker-le-sum_on a p s z =
      let g = λ (k : AccountId × ProviderId) (x : StakerInfo). if nat_beq k.1 p then f x else 0 in
      ground (arith, z, sum_by-insert g (a, p) no_stakes s.general_staker_info)

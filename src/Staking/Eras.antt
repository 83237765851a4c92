-- ===== src/Staking/Eras.antt =====
-- The hook and the rewards of pallets/dapi-staking/src/pallet/mod.rs: how an era ends, and how block
-- rewards are put aside for it.
pub mod Rotation
use massbit_verification.Prelude.{
  ℕ, ◌+◌, ◌-◌, ◌%◌, Bool, true, false, ◌||◌, Option, none, some, List, [], ◌∷◌, ◌==◌, nat_eq,
  pair_eq, if◌then◌else◌, add_u32, add_u64, saturating_add_u64, saturating_add_u128,
}
use massbit_verification.StorageMap.{StorageMap, lookup, insert}
use massbit_verification.Dispatch.{EraIndex}
use massbit_verification.Staking.State.{
  ProviderId, Env, DbWeight, State, ProviderInfo, ProviderState, registered, unregistered,
  ProviderStakeInfo, RewardInfo, EraInfo, no_rewards, no_era_info, unwrap_or, Forcing, not_forcing,
  force_new, new_dapi_staking_era, deposit_event,
}

-- The stake of each provider at the end of an era, by provider and era.
abbrev pub EraStakes : Type 0
EraStakes = StorageMap (ProviderId × EraIndex) ProviderStakeInfo

abbrev pub is_force_new : Forcing → Bool
is_force_new not_forcing = false
is_force_new force_new = true

-- One round of the loop for a registered provider, with the weight so far.
unfoldable pub copy_stake :
    DbWeight → ProviderId → EraIndex → Option ProviderStakeInfo → ℕ × EraStakes → ℕ × EraStakes
copy_stake w provider_id next_era none (weight, stakes) =
    (saturating_add_u64 weight (w.reads 1), stakes)
copy_stake w provider_id next_era (some info) (weight, stakes) = (
  saturating_add_u64 weight (w.reads_writes 1 1),
  insert (provider_id, next_era) (record info { provider_reward_claimed = false }) stakes,
)

unfoldable pub rotate_provider :
    DbWeight → EraIndex → EraIndex → ProviderId → ProviderState → ℕ × EraStakes → ℕ × EraStakes
unfolding copy_stake
rotate_provider w current_era next_era p (unregistered e) (weight, stakes) =
    (saturating_add_u64 weight (w.reads 1), stakes)
rotate_provider w current_era next_era p registered (weight, stakes) =
    copy_stake w p next_era (lookup (p, current_era) stakes)
      (saturating_add_u64 weight (w.reads 1), stakes)

unfoldable pub rotate_loop :
    DbWeight
    → EraIndex
    → EraIndex
    → StorageMap ProviderId ProviderInfo
    → ℕ × EraStakes
    → ℕ × EraStakes
unfolding rotate_provider
rotate_loop w current_era next_era [] acc = acc
rotate_loop w current_era next_era ((p, info) ∷ ps) acc =
    rotate_loop w current_era next_era ps (rotate_provider w current_era next_era p info.state acc)

module _ {B I P : Type 0} (env : Env B I P) where
  open env use {config, currency, perbill, db_weight}

  -- The weight that the loop consumed, and the state that it leaves.
  unfoldable pub rotate_staking_info : EraIndex → State B → ℕ × State B
  unfolding rotate_loop
  rotate_staking_info current_era s =
      let (weight, stakes) =
        rotate_loop db_weight current_era (add_u32 current_era 1) s.registered_providers
          (0, s.provider_era_stake) in
      (weight, record s { provider_era_stake = stakes })

  unfoldable pub reward_balance_snapshot : EraIndex → RewardInfo → State B → State B
  reward_balance_snapshot era rewards s =
      let era_info = unwrap_or no_era_info (lookup era s.general_era_info) in
      let next_info : EraInfo = record {
        rewards = no_rewards;
        staked = era_info.staked;
        locked = era_info.locked;
      } in
      record s {
        general_era_info =
            insert era (record era_info { rewards = rewards })
              (insert (add_u32 era 1) next_info s.general_era_info);
      }

  -- A new era begins in this block.
  unfoldable pub begins_era : ℕ → State B → Bool
  begins_era now s =
      now % config.block_per_era == 1 || is_force_new s.force_era || s.current_era == 0

  unfoldable pub new_era : State B → ℕ × State B
  unfolding rotate_staking_info reward_balance_snapshot
  new_era s =
      let previous_era = s.current_era in
      let next_era = add_u32 previous_era 1 in
      let s₁ : State B = record s {
        current_era = next_era;
        block_reward_accumulator = no_rewards;
      } in
      let s₂ = reward_balance_snapshot previous_era s.block_reward_accumulator s₁ in
      let (consumed_weight, s₃) = rotate_staking_info previous_era s₂ in
      let s₄ : State B =
        if is_force_new s.force_era then record s₃ { force_era = not_forcing } else s₃ in
      (
        add_u64 consumed_weight (db_weight.reads_writes 5 3),
        deposit_event (new_dapi_staking_era next_era) s₄,
      )

  -- The hook that runs at the start of each block, with the weight that it returns.
  unfoldable pub on_initialize : ℕ → State B → ℕ × State B
  unfolding begins_era new_era
  on_initialize now s = if begins_era now s then new_era s else (db_weight.reads 4, s)

  -- Puts an imbalance aside for the operators and the stakers of the current era.
  unfoldable pub rewards : I → State B → State B
  rewards imbalance s =
      let amount = currency.peek imbalance in
      let operators_part = perbill.of_amount config.operator_reward_percentage amount in
      let stakers_part = amount - operators_part in
      let acc = s.block_reward_accumulator in
      record s {
        block_reward_accumulator = record {
          operators = saturating_add_u128 acc.operators operators_part;
          stakers = saturating_add_u128 acc.stakers stakers_part;
        };
        bank = currency.resolve_creating config.pallet_account imbalance s.bank;
      }

-- ===== src/Staking/Calls.antt =====
-- The calls of pallets/dapi-staking/src/pallet/mod.rs that stake, unstake, withdraw and claim.
pub mod Outcomes
pub mod Atomic
pub mod Stranded
use massbit_verification.Prelude.{
  ◌-◌, Bool, true, not, ◌||◌, Option, none, some, ltb, leb, ◌==◌, nat_eq, pair_eq, min,
  if◌then◌else◌, add_u32, saturating_add_u32, saturating_add_u128, checked_add_u128,
}
use massbit_verification.StorageMap.{lookup}
use massbit_verification.Dispatch.{
  AccountId, Balance, EraIndex, Origin, Action, staking, arithmetic_overflow, insufficient_value,
  get_state, modify, ensure, ok_or, ensure_signed, ensure_root, zoom, ◌>>=◌, ◌>>◌,
  staking_with_no_value, max_number_of_stakers_exceeded, not_operated_provider, not_staked_provider,
  unknown_era_reward, unexpected_stake_info_era, too_many_era_stake_values,
  unclaimed_rewards_remaining, unstaking_with_no_value, too_many_unlocking_chunks,
  nothing_to_withdraw, era_out_of_bounds, not_owned_provider, already_claimed_in_this_era,
  not_unregistered_provider,
}
use massbit_verification.Currency.{allow_death}
use massbit_verification.Staking.StakerInfo
use massbit_verification.Staking.StakerInfo.{StakerInfo, no_stakes, latest_staked_value}
use massbit_verification.Staking.Unbonding
use massbit_verification.Staking.Unbonding.{AccountLedger}
use massbit_verification.Staking.State.{
  ProviderId, Env, State, ProviderState, registered, unregistered, EraInfo, force_new, stake_event,
  unstake_event, withdraw_from_unregistered, withdrawn, reward_event, ledger_of, staker_info,
  provider_stake_info, deposit_event, is_active_provider, mutate_era_info,
  insert_provider_era_stake, insert_provider, update_staker_info, update_ledger,
  available_staking_balance, operator_stakers_split,
}

-- The era in which a provider was unregistered, as the calls read it off its state.
abbrev pub unregistered_era : ProviderState → Option EraIndex
unregistered_era registered = none
unregistered_era (unregistered e) = some e

-- `if let ProviderState::Unregistered(e) = state { ensure!(era < e, ..) }`
abbrev pub before_unregistration : EraIndex → ProviderState → Bool
before_unregistration era registered = true
before_unregistration era (unregistered e) = ltb era e

abbrev pub add_staked : Balance → EraInfo → EraInfo
add_staked v x = record x {
  staked = saturating_add_u128 x.staked v;
  locked = saturating_add_u128 x.locked v;
}

abbrev pub sub_staked : Balance → EraInfo → EraInfo
sub_staked v x = record x { staked = x.staked - v }

abbrev pub sub_locked : Balance → EraInfo → EraInfo
sub_locked v x = record x { locked = x.locked - v }

abbrev pub sub_both : Balance → EraInfo → EraInfo
sub_both v x = record x { staked = x.staked - v; locked = x.locked - v }

module _ {B I P : Type 0} (env : Env B I P) where
  open env use {config, currency, perbill}

  unfoldable pub withdraw_from_unregistered_staker :
      Origin → ProviderId → Action (State B) (Unit {0})
  withdraw_from_unregistered_staker origin provider_id = do
    staker ← ensure_signed origin
    s ← get_state
    provider_info ←
        ok_or (lookup provider_id s.registered_providers) (staking not_operated_provider)
    era ← ok_or (unregistered_era provider_info.state) (staking not_unregistered_provider)
    ensure (ltb (add_u32 era config.unbonding_period) s.current_era) (staking nothing_to_withdraw)
    let info = staker_info staker provider_id s
    let staked_value = latest_staked_value info
    ensure (ltb 0 staked_value) (staking not_staked_provider)
    let claimable_era = (StakerInfo.claim info).0.0
    ensure (leb era claimable_era || claimable_era == 0) (staking unclaimed_rewards_remaining)
    let l = ledger_of staker s
    modify (update_ledger env staker (record l { locked = l.locked - staked_value }))
    modify (update_staker_info staker provider_id no_stakes)
    modify (mutate_era_info s.current_era (sub_both staked_value))
    modify (deposit_event (withdraw_from_unregistered staker provider_id staked_value))

  unfoldable pub withdraw_from_unregistered_operator :
      Origin → ProviderId → Action (State B) (Unit {0})
  withdraw_from_unregistered_operator origin provider_id = do
    operator ← ensure_signed origin
    s ← get_state
    provider_info ←
        ok_or (lookup provider_id s.registered_providers) (staking not_operated_provider)
    ensure (provider_info.operator == operator) (staking not_owned_provider)
    ensure (not provider_info.unreserved) (staking nothing_to_withdraw)
    era ← ok_or (unregistered_era provider_info.state) (staking not_unregistered_provider)
    ensure (ltb (add_u32 era config.unbonding_period) s.current_era) (staking nothing_to_withdraw)
    modify (insert_provider provider_id (record provider_info { unreserved = true }))
    modify λ t. record t { bank = currency.unreserve operator config.register_deposit t.bank }
    modify (deposit_event (withdraw_from_unregistered operator provider_id config.register_deposit))

  unfoldable pub stake : Origin → ProviderId → Balance → Action (State B) (Unit {0})
  stake origin provider_id value = do
    staker ← ensure_signed origin
    s ← get_state
    ensure (is_active_provider provider_id s) (staking not_operated_provider)
    let l = ledger_of staker s
    let value_to_stake = min value (available_staking_balance env staker l s)
    ensure (ltb 0 value_to_stake) (staking staking_with_no_value)
    let staking_info = provider_stake_info provider_id s.current_era s
    let info = staker_info staker provider_id s
    let is_new = latest_staked_value info == 0
    ensure
        (not is_new || ltb staking_info.number_of_stakers config.max_number_of_stakers_per_provider)
        (staking max_number_of_stakers_exceeded)
    let number =
        if is_new
        then saturating_add_u32 staking_info.number_of_stakers 1
        else staking_info.number_of_stakers
    info' ←
        ok_or (StakerInfo.stake info s.current_era value_to_stake)
          (staking unexpected_stake_info_era)
    ensure (ltb (StakerInfo.len info') config.max_era_stake_values)
        (staking too_many_era_stake_values)
    ensure (leb config.minimum_staking_amount (latest_staked_value info'))
        (staking insufficient_value)
    locked ← ok_or (checked_add_u128 l.locked value_to_stake) arithmetic_overflow
    total ← ok_or (checked_add_u128 staking_info.total value_to_stake) arithmetic_overflow
    modify (mutate_era_info s.current_era (add_staked value_to_stake))
    modify (update_ledger env staker (record l { locked = locked }))
    modify (update_staker_info staker provider_id info')
    modify (
        insert_provider_era_stake provider_id s.current_era
          (record staking_info { total = total; number_of_stakers = number }))
    modify (deposit_event (stake_event staker provider_id value_to_stake))

  unfoldable pub unstake : Origin → ProviderId → Balance → Action (State B) (Unit {0})
  unstake origin provider_id value = do
    staker ← ensure_signed origin
    s ← get_state
    ensure (ltb 0 value) (staking unstaking_with_no_value)
    ensure (is_active_provider provider_id s) (staking not_operated_provider)
    let info = staker_info staker provider_id s
    let staked_value = latest_staked_value info
    ensure (ltb 0 staked_value) (staking not_staked_provider)
    let stake_info = provider_stake_info provider_id s.current_era s
    let takes_all = ltb (staked_value - value) config.minimum_staking_amount
    let number =
        if takes_all then stake_info.number_of_stakers - 1 else stake_info.number_of_stakers
    let value_to_unstake = if takes_all then staked_value else value
    ensure (ltb 0 value_to_unstake) (staking unstaking_with_no_value)
    info' ←
        ok_or (StakerInfo.unstake info s.current_era value_to_unstake)
          (staking unexpected_stake_info_era)
    ensure (ltb (StakerInfo.len info') config.max_era_stake_values)
        (staking too_many_era_stake_values)
    let l = ledger_of staker s
    let unbonding = Unbonding.add l.unbonding_info (record {
      amount = value_to_unstake;
      unlock_era = add_u32 s.current_era config.unbonding_period;
    })
    ensure (leb (Unbonding.len unbonding) config.max_unlocking_chunks)
        (staking too_many_unlocking_chunks)
    modify (update_ledger env staker (record l { unbonding_info = unbonding }))
    modify (mutate_era_info s.current_era (sub_staked value_to_unstake))
    modify (update_staker_info staker provider_id info')
    modify (
        insert_provider_era_stake provider_id s.current_era (record stake_info {
          total = stake_info.total - value_to_unstake;
          number_of_stakers = number;
        }))
    modify (deposit_event (unstake_event staker provider_id value_to_unstake))

  unfoldable pub withdraw_unstaked : Origin → Action (State B) (Unit {0})
  withdraw_unstaked origin = do
    staker ← ensure_signed origin
    s ← get_state
    let l = ledger_of staker s
    let chunks = Unbonding.partition l.unbonding_info s.current_era
    let withdraw_amount = Unbonding.sum chunks.0
    ensure (not (withdraw_amount == 0)) (staking nothing_to_withdraw)
    modify (
        update_ledger env staker
          (record { locked = l.locked - withdraw_amount; unbonding_info = chunks.1 }))
    modify (mutate_era_info s.current_era (sub_locked withdraw_amount))
    modify (deposit_event (withdrawn staker withdraw_amount))

  -- `Currency::withdraw` from the account of the pallet, then `resolve_creating`.
  unfoldable pub pay_from_pallet : AccountId → Balance → Action (State B) (Unit {0})
  pay_from_pallet who amount = do
    imbalance ←
        zoom (λ t. t.bank) (λ t b. record t { bank = b })
          (currency.withdraw config.pallet_account amount allow_death)
    modify λ t. record t { bank = currency.resolve_creating who imbalance t.bank }

  unfoldable pub claim_staker : Origin → ProviderId → Action (State B) (Unit {0})
  claim_staker origin provider_id = do
    staker ← ensure_signed origin
    s ← get_state
    let ((era, staked), info') = StakerInfo.claim (staker_info staker provider_id s)
    ensure (ltb 0 staked) (staking not_staked_provider)
    provider_info ←
        ok_or (lookup provider_id s.registered_providers) (staking not_operated_provider)
    ensure (before_unregistration era provider_info.state) (staking not_operated_provider)
    ensure (ltb era s.current_era) (staking era_out_of_bounds)
    let staking_info = provider_stake_info provider_id era s
    reward_and_stake ← ok_or (lookup era s.general_era_info) (staking unknown_era_reward)
    let joint_reward = (operator_stakers_split env staking_info reward_and_stake).1
    let staker_reward =
        perbill.of_amount (perbill.from_rational staked staking_info.total) joint_reward
    pay_from_pallet staker staker_reward
    modify (update_staker_info staker provider_id info')
    modify (deposit_event (reward_event staker provider_id era staker_reward))

  unfoldable pub claim_operator : Origin → ProviderId → EraIndex → Action (State B) (Unit {0})
  claim_operator origin provider_id era = do
    ensure_signed origin
    s ← get_state
    provider_info ←
        ok_or (lookup provider_id s.registered_providers) (staking not_operated_provider)
    ensure (before_unregistration era provider_info.state) (staking not_operated_provider)
    ensure (ltb era s.current_era) (staking era_out_of_bounds)
    let stake_info = provider_stake_info provider_id era s
    ensure (not stake_info.provider_reward_claimed) (staking already_claimed_in_this_era)
    ensure (ltb 0 stake_info.total) (staking not_staked_provider)
    reward_and_stake ← ok_or (lookup era s.general_era_info) (staking unknown_era_reward)
    let operator_reward = (operator_stakers_split env stake_info reward_and_stake).0
    pay_from_pallet provider_info.operator operator_reward
    modify (
        insert_provider_era_stake provider_id era
          (record stake_info { provider_reward_claimed = true }))
    modify (deposit_event (reward_event provider_info.operator provider_id era operator_reward))

  unfoldable pub force_new_era : Origin → Action (State B) (Unit {0})
  force_new_era origin = do ensure_root origin; modify λ s. record s { force_era = force_new }

-- ===== src/Tests/Calls.antt =====
-- Examples of single calls of the staking pallet, on the branches where they are refused too.
use massbit_verification.Prelude.{
  ◌+◌, ◌<◌, ◌≡◌, ◌&&◌, refl, List, [], ◌∷◌, nat_beq, pair_beq, leb, min, if◌then◌else◌, arith,
  nat_eq, pair_eq, get_last?, false,
}
use massbit_verification.StorageMap.{lookup, sum_by}
use massbit_verification.Dispatch.{
  AccountId, Balance, EraIndex, signed, err, staking, already_claimed_in_this_era,
  already_registered_provider, insufficient_value,
}
use massbit_verification.Tests.{Bank, balance_of, hold_back, take_from, toy_withdraw}
use massbit_verification.Tests.Stakers.{toy_env, genesis}
use massbit_verification.Staking.StakerInfo
use massbit_verification.Staking.StakerInfo.{
  EraStake, StakerInfo, latest_staked_value, stake_last, record_value,
}
use massbit_verification.Staking.StakerInfo.History.{staked_in}
use massbit_verification.Staking.State
use massbit_verification.Staking.State.{
  ProviderId, ProviderInfo, registered, unregistered, no_rewards, ledger_of, staker_info,
  provider_stake_info, available_staking_balance, is_active_provider, insert_provider,
  operator_stakers_split,
}
use massbit_verification.Staking.State.Access.{staked_by}
use massbit_verification.Staking.Unbonding
use massbit_verification.Staking.Unbonding.Laws as Chunks
use massbit_verification.Staking.Calls.{
  stake, unstake, claim_staker, claim_operator, withdraw_from_unregistered_staker, pay_from_pallet,
}
use massbit_verification.Staking.Calls.Stranded.{IsRefused, zero_entry_strands}
use massbit_verification.Staking.Pallet.Once.{claim_operator_once}
use massbit_verification.Staking.Registry.{register}
use massbit_verification.Staking.Pallet.{Operation, run}
use massbit_verification.Staking.Pallet.Failures.{register_failure_stays}
use massbit_verification.Staking.Registry.Outcomes.{enrolled_state}
use massbit_verification.Staking.Pallet.Books.{Books}
use massbit_verification.Staking.Pallet.Effects.{stake_takes_effect}
use massbit_verification.Staking.Pallet.Withdrawal.{unlocked_by, withdraw_unstaked_takes_all}
use massbit_verification.Dispatch.{nothing_to_withdraw, DispatchError}
use massbit_verification.Prelude.{length, u32_size}
use massbit_verification.Staking.Calls.{withdraw_unstaked}
use massbit_verification.Staking.Pallet.Leaving.{unstake_takes_effect}
use massbit_verification.Staking.Calls.Outcomes.{unstaked_value}
use massbit_verification.Prelude.{◌-◌}

-- In era 6 provider 1 of account 7 is active, nobody has staked yet, and era 5 had rewards.
abbrev pub open_state : State.State Bank
open_state = record genesis {
  bank = (7, 500) ∷ (8, 300) ∷ (99, 100) ∷ [];
  current_era = 6;
  registered_providers = (1, record { operator = 7; state = registered; unreserved = false }) ∷ [];
  general_era_info =
      (5, record { rewards = record { operators = 80; stakers = 20 }; staked = 60; locked = 60 })
      ∷ [];
  provider_era_stake =
      ((1, 5), record { total = 60; number_of_stakers = 1; provider_reward_claimed = false }) ∷ [];
}

open_state-Books : Books open_state
unfolding ledger_of staker_info lookup Chunks.total staked_by sum_by
open_state-Books = record {
  distinct = tt;
  balanced = λ a. refl;
  bounded = λ a. omega arith;
  ordered = λ a. tt;
  rising = λ a p. tt;
}

stake_takes_effect_example :
    let v = min 50 (available_staking_balance toy_env 8 (ledger_of 8 open_state) open_state) in
    let t = (stake toy_env (signed 8) 1 50 open_state).1 in
    ((j : AccountId)
      → ledger_of j t ≡ (
          if nat_beq 8 j
          then record (ledger_of 8 open_state) { locked = (ledger_of 8 open_state).locked + v }
          else ledger_of j open_state))
    × ((j : AccountId) (q : ProviderId) (e : EraIndex)
        → staked_in (staker_info j q t) e ≡ (
            if pair_beq (8, 1) (j, q) && leb 6 e
            then latest_staked_value (staker_info 8 1 open_state) + v
            else staked_in (staker_info j q open_state) e))
    × ((q : ProviderId) (e : EraIndex)
        → (provider_stake_info q e t).total ≡ (
            if pair_beq (1, 6) (q, e)
            then (provider_stake_info 1 6 open_state).total + v
            else (provider_stake_info q e open_state).total))
unfolding stake is_active_provider lookup available_staking_balance balance_of ledger_of
    latest_staked_value get_last? staker_info provider_stake_info StakerInfo.stake StakerInfo.len
stake_takes_effect_example = stake_takes_effect toy_env 8 1 50 open_state open_state-Books refl

-- Account 8 has staked 60 on provider 1 since era 5.
abbrev pub staked_state : State.State Bank
staked_state = record open_state {
  ledger = (8, record { locked = 60; unbonding_info = record { unlocking_chunks = [] } }) ∷ [];
  general_staker_info = ((8, 1), record { stakes = record { era = 5; staked = 60 } ∷ [] }) ∷ [];
}

staked_state-Books : Books staked_state
unfolding ledger_of staker_info lookup Chunks.total staked_by sum_by latest_staked_value get_last?
staked_state-Books = record {
  distinct = (refl, tt);
  balanced = λ a. ground arith;
  bounded = λ a. ground arith;
  ordered = λ a. ground arith;
  rising = λ a p. ground arith;
}

unstake_takes_effect_example :
    let v = unstaked_value toy_env (latest_staked_value (staker_info 8 1 staked_state)) 20 in
    let t = (unstake toy_env (signed 8) 1 20 staked_state).1 in
    ((j : AccountId) → (ledger_of j t).locked ≡ (ledger_of j staked_state).locked)
    × ((j : AccountId) (e : EraIndex)
        → Chunks.amount_at e (ledger_of j t).unbonding_info.unlocking_chunks ≡ (
            if nat_beq 8 j && nat_beq 8 e
            then Chunks.amount_at e (ledger_of 8 staked_state).unbonding_info.unlocking_chunks + v
            else Chunks.amount_at e (ledger_of j staked_state).unbonding_info.unlocking_chunks))
    × ((j : AccountId) (q : ProviderId) (e : EraIndex)
        → staked_in (staker_info j q t) e ≡ (
            if pair_beq (8, 1) (j, q) && leb 6 e
            then latest_staked_value (staker_info 8 1 staked_state) - v
            else staked_in (staker_info j q staked_state) e))
    × ((q : ProviderId) (e : EraIndex)
        → (provider_stake_info q e t).total ≡ (
            if pair_beq (1, 6) (q, e)
            then (provider_stake_info 1 6 staked_state).total - v
            else (provider_stake_info q e staked_state).total))
unfolding unstake is_active_provider lookup latest_staked_value get_last? staker_info
    StakerInfo.unstake StakerInfo.len StakerInfo.drop_zero_head record_value Unbonding.len
    Unbonding.add ledger_of Unbonding.insert_chunk
unstake_takes_effect_example =
    unstake_takes_effect toy_env 8 1 20 staked_state (omega arith) staked_state-Books refl

-- Of the 30, 20 have unlocked in era 6, and 10 unlock in era 8.
abbrev pub unlocked_state : State.State Bank
unlocked_state = record open_state {
  ledger =
      (
        8,
        record {
          locked = 30;
          unbonding_info = record {
            unlocking_chunks =
                record { amount = 20; unlock_era = 6 }
                ∷ record { amount = 10; unlock_era = 8 }
                ∷ [];
          };
        },
      )
      ∷ [];
}

unlocked_state-Books : Books unlocked_state
unfolding ledger_of staker_info lookup Chunks.total staked_by sum_by
unlocked_state-Books = record {
  distinct = tt;
  balanced = λ a. ground arith;
  bounded = λ a. ground arith;
  ordered = λ a. ground arith;
  rising = λ a p. tt;
}

withdraw_unstaked_takes_all_example :
    let cs = (ledger_of 8 unlocked_state).unbonding_info.unlocking_chunks in
    let v = unlocked_by 6 cs in
    let t = (withdraw_unstaked toy_env (signed 8) unlocked_state).1 in
    (0 < v)
    × ((ledger_of 8 t).locked + v ≡ (ledger_of 8 unlocked_state).locked)
    × ((e : EraIndex)
        → Chunks.amount_at e (ledger_of 8 t).unbonding_info.unlocking_chunks
          ≡ (if leb e 6 then 0 else Chunks.amount_at e cs))
    × ((j : AccountId) → nat_beq 8 j ≡ false → ledger_of j t ≡ ledger_of j unlocked_state)
    × (withdraw_unstaked toy_env (signed 8) t ≡ (err (staking nothing_to_withdraw), t))
unfolding withdraw_unstaked ledger_of lookup Unbonding.partition Unbonding.sum
withdraw_unstaked_takes_all_example =
    withdraw_unstaked_takes_all toy_env 8 unlocked_state unlocked_state-Books refl

claim_operator_once_example :
    let t = (claim_operator toy_env (signed 7) 1 5 open_state).1 in
    (claim_operator toy_env (signed 8) 1 5 t ≡ (err (staking already_claimed_in_this_era), t))
    × ((ops : List (Operation Balance))
        → 6 + length ops < u32_size
        → (e : DispatchError) × (claim_operator toy_env (signed 8) 1 5 (run toy_env ops t)
            ≡ (err e, run toy_env ops t)))
unfolding claim_operator lookup provider_stake_info pay_from_pallet take_from operator_stakers_split
claim_operator_once_example = claim_operator_once toy_env toy_withdraw 7 8 1 5 open_state refl

-- Account 4 can pay the deposit and not the stake.
abbrev pub poor_state : State.State Bank
poor_state = record genesis { bank = (4, 95) ∷ [] }

register_failure_stays_example :
    let t = (register toy_env 4 1 100 poor_state).1 in
    (t ≡ enrolled_state toy_env 4 1 poor_state)
    × ((ops : List (Operation Balance)) (b : AccountId) (w : Balance)
        → register toy_env b 1 w (run toy_env ops t)
          ≡ (err (staking already_registered_provider), run toy_env ops t))
unfolding register lookup hold_back stake is_active_provider insert_provider
    available_staking_balance ledger_of latest_staked_value get_last? staker_info
    provider_stake_info StakerInfo.stake StakerInfo.len
register_failure_stays_example =
    register_failure_stays toy_env 4 1 100 poor_state (staking insufficient_value) refl refl refl
      refl

-- Provider 1 has been unregistered in era 9. Account 8 had staked again in era 8, after two eras
-- in each of which it had unstaked everything.
abbrev pub gone_provider : ProviderInfo
gone_provider = record { operator = 7; state = unregistered 9; unreserved = false }

abbrev pub stranded_state : State.State Bank
stranded_state = record genesis {
  current_era = 20;
  registered_providers = (1, gone_provider) ∷ [];
  general_staker_info =
      (
        (8, 1),
        record { stakes = record { era = 7; staked = 0 } ∷ record { era = 8; staked = 30 } ∷ [] },
      )
      ∷ [];
}

zero_entry_strands_example :
    IsRefused (claim_staker toy_env (signed 8) 1) stranded_state
    × ((v : Balance) → IsRefused (stake toy_env (signed 8) 1 v) stranded_state)
    × ((v : Balance) → IsRefused (unstake toy_env (signed 8) 1 v) stranded_state)
    × IsRefused (withdraw_from_unregistered_staker toy_env (signed 8) 1) stranded_state
unfolding lookup staker_info
zero_entry_strands_example =
    zero_entry_strands toy_env 8 1 stranded_state gone_provider 9 (record { era = 7; staked = 0 })
      (record { era = 8; staked = 30 } ∷ []) refl refl refl refl (omega arith) (omega arith)

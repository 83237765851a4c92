-- ===== src/Staking/Pallet/Limits/Runs.antt =====
-- The limits of the storage hold at all times.
use massbit_verification.Prelude.{
  ◌<◌, ◌≤◌, ◌≡◌, refl, suc, List, [], ◌∷◌, inr, arith, length, u32_size, min, add_u32, ◌+◌, some,
}
use massbit_verification.Dispatch.{AccountId, Balance, signed, ok}
use massbit_verification.Staking.StakerInfo
use massbit_verification.Staking.StakerInfo.{latest_staked_value, no_stakes}
use massbit_verification.Staking.StakerInfo.Claims.{latest-claim}
use massbit_verification.Staking.Unbonding
use massbit_verification.Staking.State.{
  ProviderId, Env, State, staker_info, ledger_of, available_staking_balance, update_staker_info,
  deposit_event,
}
use massbit_verification.Staking.Calls.{
  stake, unstake, withdraw_unstaked, withdraw_from_unregistered_staker, claim_staker,
}
use massbit_verification.Staking.Calls.Outcomes.{
  stake_outcome, staked_state, unstake_outcome, unstaked_state, unstaked_value, unlocking,
  withdraw_unstaked_outcome, withdrawn_state, withdraw_staker_outcome, left_state,
  claim_staker_outcome, claimed_state,
}
use massbit_verification.Staking.Pallet.{Operation, step, run}
use massbit_verification.Staking.Pallet.Keeping.{Keeping, step-Keeping}
use massbit_verification.Staking.Pallet.Preservation.{
  staked_state-ledgers, staked_state-infos, unstaked_state-ledgers, unstaked_state-infos,
}
use massbit_verification.Staking.Pallet.Payouts.{
  withdrawn_state-ledgers, withdrawn_state-infos, left_state-ledgers, left_state-infos,
  claimed_state-ledgers,
}
use massbit_verification.Staking.Pallet.Limits.{
  Proper, Limited, no_stakes-Proper, written-Limited, ledger_written-Limited, untouched-Limited,
}
use massbit_verification.Staking.Pallet.Limits.Lengths.{
  length-stake, length-unstake, latest-unstake, length-claim, length-add, length-partition,
}

module _ {B I P : Type 0} (env : Env B I P) where
  -- The checks of the calls on the number of entries and chunks.
  stake_checks :
      (a : AccountId) (p : ProviderId) (value : Balance) (s : State B) (i : StakerInfo.StakerInfo)
      → (stake env (signed a) p value s).0 ≡ ok tt
      → StakerInfo.stake
          (staker_info a p s)
          s.current_era
          (min value (available_staking_balance env a (ledger_of a s) s))
        ≡ some i
      → StakerInfo.len i < env.config.max_era_stake_values
  unfolding stake
  stake_checks a p value s i h taken = ground arith

  unstake_checks :
      (a : AccountId) (p : ProviderId) (value : Balance) (s : State B) (i : StakerInfo.StakerInfo)
      → (unstake env (signed a) p value s).0 ≡ ok tt
      → let v = unstaked_value env (latest_staked_value (staker_info a p s)) value in
        StakerInfo.unstake (staker_info a p s) s.current_era v ≡ some i
        → (StakerInfo.len i < env.config.max_era_stake_values)
          × (Unbonding.len (unlocking env v (ledger_of a s) s) ≤ env.config.max_unlocking_chunks)
  unfolding unstake
  unstake_checks a p value s i h taken = ground arith

  module _ (values : 0 < env.config.max_era_stake_values)
      (few : env.config.max_era_stake_values < u32_size)
      (fits : suc env.config.max_unlocking_chunks < u32_size) where
    stake-Limited :
        (a : AccountId) (p : ProviderId) (value : Balance) (s : State B)
        → Limited env s
        → (stake env (signed a) p value s).0 ≡ ok tt
        → Limited env (stake env (signed a) p value s).1
    unfolding StakerInfo.len
    stake-Limited a p value s k h =
        let l = ledger_of a s in
        let v = min value (available_staking_balance env a l s) in
        let (i, taken, _, _, _, _, least, after) = stake_outcome env a p value s h in
        let check = stake_checks a p value s i h taken in
        let longer = length-stake (staker_info a p s) i s.current_era v taken in
        let old = (k.entries a p).few in
        let short : length i.stakes < u32_size = omega (arith, longer, old, few) in
        let proper : Proper env i = record {
          few = omega (arith, check, short);
          enough = inr least;
        } in
        rw after (
          written-Limited env a p (record l { locked = l.locked + v }) i s
            (staked_state env a p v i s) (staked_state-ledgers env a p v i s)
            (staked_state-infos env a p v i s) proper (k.chunks a) k)

    unstake-Limited :
        (a : AccountId) (p : ProviderId) (value : Balance) (s : State B)
        → Limited env s
        → (unstake env (signed a) p value s).0 ≡ ok tt
        → Limited env (unstake env (signed a) p value s).1
    unfolding StakerInfo.len Unbonding.len
    unstake-Limited a p value s k h =
        let l = ledger_of a s in
        let info = staker_info a p s in
        let v = unstaked_value env (latest_staked_value info) value in
        let (i, taken, _, _, _, after) = unstake_outcome env a p value s h in
        let check = unstake_checks a p value s i h taken in
        let longer = length-unstake info i s.current_era v taken in
        let chunk : Unbonding.UnlockingChunk = record {
          amount = v;
          unlock_era = add_u32 s.current_era env.config.unbonding_period;
        } in
        let more = length-add l.unbonding_info chunk in
        let old = (k.entries a p).few in
        let short : length i.stakes < u32_size = omega (arith, longer, old, few) in
        let proper : Proper env i = record {
          few = omega (arith, check.0, short);
          enough = ground (arith, latest-unstake info i s.current_era v taken);
        } in
        rw after (
          written-Limited env a p (record l { unbonding_info = unlocking env v l s }) i s
            (unstaked_state env a p value i s) (unstaked_state-ledgers env a p value i s)
            (unstaked_state-infos env a p value i s) proper
            (omega (arith, check.1, more, k.chunks a)) k)

    withdraw_unstaked-Limited :
        (a : AccountId) (s : State B)
        → Limited env s
        → (withdraw_unstaked env (signed a) s).0 ≡ ok tt
        → Limited env (withdraw_unstaked env (signed a) s).1
    withdraw_unstaked-Limited a s k h =
        let (_, after) = withdraw_unstaked_outcome env a s h in
        rw after (
          ledger_written-Limited env a _ s (withdrawn_state env a s)
            (withdrawn_state-ledgers env a s) (withdrawn_state-infos env a s)
            (omega
              (arith, length-partition (ledger_of a s).unbonding_info s.current_era, k.chunks a))
            k)

    withdraw_staker-Limited :
        (a : AccountId) (p : ProviderId) (s : State B)
        → Limited env s
        → (withdraw_from_unregistered_staker env (signed a) p s).0 ≡ ok tt
        → Limited env (withdraw_from_unregistered_staker env (signed a) p s).1
    withdraw_staker-Limited a p s k h =
        let (_, _, _, _, _, _, after) = withdraw_staker_outcome env a p s h in
        rw after (
          written-Limited env a p _ no_stakes s (left_state env a p s)
            (left_state-ledgers env a p s) (left_state-infos env a p s)
            (no_stakes-Proper env values) (k.chunks a) k)

    claim_staker-Limited :
        (a : AccountId) (p : ProviderId) (s : State B)
        → Limited env s
        → (claim_staker env (signed a) p s).0 ≡ ok tt
        → Limited env (claim_staker env (signed a) p s).1
    unfolding deposit_event update_staker_info
    claim_staker-Limited a p s k h =
        let info = staker_info a p s in
        let c = StakerInfo.claim info in
        let (x, y, i, _, _, _, _, _, _, after) = claim_staker_outcome env a p s h in
        let proper : Proper env c.1 = record {
          few = omega (arith, length-claim info, (k.entries a p).few);
          enough = rw (latest-claim info) ((k.entries a p).enough);
        } in
        rw after (
          written-Limited env a p (ledger_of a s) c.1 s (claimed_state env a p _ _ s)
            (claimed_state-ledgers env a p _ _ s) refl proper (k.chunks a) k)

    keeping : Keeping env (Limited env)
    keeping = record {
      stakes = stake-Limited;
      unstakes = unstake-Limited;
      withdraws = withdraw_unstaked-Limited;
      leaves = withdraw_staker-Limited;
      claims = claim_staker-Limited;
      same = λ s t h _ k. untouched-Limited env s t h.0 h.1 k;
    }

    -- Every run of operations of the pallet, failed ones among them, keeps the limits: each staker has
    -- fewer than `max_era_stake_values` entries on a provider, each ledger at most
    -- `max_unlocking_chunks` chunks, and what a staker has staked on a provider is nothing or at
    -- least `minimum_staking_amount`. The limit of entries is not zero, and both limits are so small
    -- that one more than a ledger or a staker may have can be counted in a `u32`.
    pub run-Limited :
        (ops : List (Operation I)) (s : State B) → Limited env s → Limited env (run env ops s)
    unfolding run
    run-Limited [] s k = k
    run-Limited (op ∷ ops) s k =
        run-Limited ops (step env op s) (step-Keeping env (Limited env) keeping op s k)

-- ===== src/Staking/Pallet/Leaving.antt =====
-- What unstaking does to the storage when it succeeds, as accounts see it.
use massbit_verification.Prelude.{
  ◌+◌, ◌-◌, ◌≡◌, ◌<◌, arith, nat_eq, pair_eq, pair_beq, pair_beq_iff, nat_beq, leb, ◌&&◌,
  if◌then◌else◌, add_u32, u128_size,
}
use massbit_verification.StorageMap.{lookup-insert}
use massbit_verification.Dispatch.{AccountId, Balance, EraIndex, signed, ok}
use massbit_verification.Staking.StakerInfo.{StakerInfo, latest_staked_value}
use massbit_verification.Staking.StakerInfo.History.{staked_in, unstake_subtracts}
use massbit_verification.Staking.Unbonding.{UnlockingChunk}
use massbit_verification.Staking.Unbonding.Laws.{amount_at, add_inserts}
use massbit_verification.Staking.State.{
  ProviderId, Env, State, ProviderStakeInfo, ledger_of, staker_info, provider_stake_info,
  deposit_event, insert_provider_era_stake, update_staker_info, update_ledger,
}
use massbit_verification.Staking.State.Access.{
  staker_info-update_staker_info, staker_info_cong, mutate_era_info_rest, update_ledger_rest,
}
use massbit_verification.Staking.Calls.{unstake, sub_staked}
use massbit_verification.Staking.Calls.Outcomes.{
  unstake_outcome, unstaked_state, unstaked_value, stakers_left, unlocking,
}
use massbit_verification.Staking.Pallet.Books.{Books, latest-add-unbonding-le, unbonding_of}
use massbit_verification.Staking.Pallet.Preservation.{
  unstaked_state-ledgers, unstaked_state-infos, unstaked-le,
}

module _ {B I P : Type 0} (env : Env B I P) where
  unstaked_state-totals :
      (a : AccountId) (p : ProviderId) (value : Balance) (i : StakerInfo) (s : State B)
      (q : ProviderId) (e : EraIndex)
      → (provider_stake_info q e (unstaked_state env a p value i s)).total ≡ (
          if pair_beq (p, s.current_era) (q, e)
          then (provider_stake_info p s.current_era s).total
            - unstaked_value env (latest_staked_value (staker_info a p s)) value
          else (provider_stake_info q e s).total)
  unfolding provider_stake_info deposit_event insert_provider_era_stake update_staker_info
  unstaked_state-totals a p value i s q e =
      let old = latest_staked_value (staker_info a p s) in
      let v = unstaked_value env old value in
      let l = record (ledger_of a s) { unbonding_info = unlocking env v (ledger_of a s) s } in
      let k = provider_stake_info p s.current_era s in
      let k' : ProviderStakeInfo = record k {
        total = k.total - v;
        number_of_stakers = stakers_left env old value k.number_of_stakers;
      } in
      ground (
        arith,
        update_ledger_rest env a l s,
        mutate_era_info_rest s.current_era (sub_staked v) (update_ledger env a l s),
        lookup-insert (p, s.current_era) (q, e) k' s.provider_era_stake,
      )

  -- Unstaking that succeeds is of the amount asked for, or of all that is staked if less than the
  -- minimum stake would be left. By this amount falls what the account has staked on the
  -- provider in the current era and in all later ones, and the provider's total of the current
  -- era, down to zero. The same amount is added to what unlocks for the account once the
  -- unbonding period is over; what unlocks in other eras and what is locked stay, and so do all
  -- other ledgers, stakes and totals. The minimum stake is not zero, and the books are kept
  -- before.
  pub unstake_takes_effect :
      (a : AccountId) (p : ProviderId) (value : Balance) (s : State B)
      → 0 < env.config.minimum_staking_amount
      → Books s
      → (unstake env (signed a) p value s).0 ≡ ok tt
      → let old = latest_staked_value (staker_info a p s) in
        let v = unstaked_value env old value in
        let free = add_u32 s.current_era env.config.unbonding_period in
        let t = (unstake env (signed a) p value s).1 in
        ((j : AccountId) → (ledger_of j t).locked ≡ (ledger_of j s).locked)
        × ((j : AccountId) (e : EraIndex)
            → amount_at e (ledger_of j t).unbonding_info.unlocking_chunks ≡ (
                if nat_beq a j && nat_beq free e
                then amount_at e (ledger_of a s).unbonding_info.unlocking_chunks + v
                else amount_at e (ledger_of j s).unbonding_info.unlocking_chunks))
        × ((j : AccountId) (q : ProviderId) (e : EraIndex)
            → staked_in (staker_info j q t) e ≡ (
                if pair_beq (a, p) (j, q) && leb s.current_era e
                then old - v
                else staked_in (staker_info j q s) e))
        × ((q : ProviderId) (e : EraIndex)
            → (provider_stake_info q e t).total ≡ (
                if pair_beq (p, s.current_era) (q, e)
                then (provider_stake_info p s.current_era s).total - v
                else (provider_stake_info q e s).total))
  unstake_takes_effect a p value s m b h =
      let old = latest_staked_value (staker_info a p s) in
      let v = unstaked_value env old value in
      let l = ledger_of a s in
      let (i, taken, _, _, _, after) = unstake_outcome env a p value s h in
      let room : unbonding_of a s + v < u128_size =
        omega (arith, latest-add-unbonding-le a p s b, unstaked-le env old value m, b.bounded a) in
      let chunk : UnlockingChunk = record {
        amount = v;
        unlock_era = add_u32 s.current_era env.config.unbonding_period;
      } in
      let adds = add_inserts 0 l.unbonding_info chunk (b.ordered a) (omega arith) room in
      let subs = unstake_subtracts 0 (staker_info a p s) s.current_era v (b.rising a p) taken in
      rw after (
        (λ j. ground (arith, unstaked_state-ledgers env a p value i s j)),
        (λ j e. ground (arith, unstaked_state-ledgers env a p value i s j, adds.2 e)),
        (λ j q e. ground (
          arith,
          subs.2 e,
          staker_info_cong j q (update_staker_info a p i s) (unstaked_state env a p value i s)
              (unstaked_state-infos env a p value i s),
          staker_info-update_staker_info a j p q i s,
          pair_beq_iff (a, p) (j, q),
        )),
        unstaked_state-totals a p value i s,
      )

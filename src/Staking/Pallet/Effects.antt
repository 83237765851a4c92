-- ===== src/Staking/Pallet/Effects.antt =====
-- What a stake that succeeds does to the storage, as accounts see it.
use massbit_verification.Prelude.{
  ◌+◌, ◌≡◌, arith, nat_eq, pair_eq, pair_beq, nat_beq, leb, min, ◌&&◌, if◌then◌else◌, pair_beq_iff,
}
use massbit_verification.StorageMap.{lookup-insert}
use massbit_verification.Dispatch.{AccountId, Balance, EraIndex, signed, ok}
use massbit_verification.Staking.StakerInfo.{StakerInfo, latest_staked_value}
use massbit_verification.Staking.StakerInfo.History.{staked_in, stake_adds}
use massbit_verification.Staking.State.{
  ProviderId, Env, State, ledger_of, staker_info, provider_stake_info, available_staking_balance,
  deposit_event, insert_provider_era_stake, update_staker_info, mutate_era_info, ProviderStakeInfo,
}
use massbit_verification.Staking.State.Access.{
  staker_info-update_staker_info, staker_info_cong, mutate_era_info_rest, update_ledger_rest,
}
use massbit_verification.Staking.Calls.{stake, add_staked}
use massbit_verification.Staking.Calls.Outcomes.{stake_outcome, staked_state, stakers_after}
use massbit_verification.Staking.Pallet.Books.{Books, latest-add-unbonding-le}
use massbit_verification.Staking.Pallet.Preservation.{staked_state-ledgers, staked_state-infos}

module _ {B I P : Type 0} (env : Env B I P) where
  staked_state-totals :
      (a : AccountId) (p : ProviderId) (v : Balance) (i : StakerInfo) (s : State B) (q : ProviderId)
      (e : EraIndex)
      → (provider_stake_info q e (staked_state env a p v i s)).total ≡ (
          if pair_beq (p, s.current_era) (q, e)
          then (provider_stake_info p s.current_era s).total + v
          else (provider_stake_info q e s).total)
  unfolding provider_stake_info deposit_event insert_provider_era_stake update_staker_info
  staked_state-totals a p v i s q e =
      let m = mutate_era_info s.current_era (add_staked v) s in
      let l = record (ledger_of a s) { locked = (ledger_of a s).locked + v } in
      let k = provider_stake_info p s.current_era s in
      let k' : ProviderStakeInfo = record k {
        total = k.total + v;
        number_of_stakers = stakers_after env (staker_info a p s) k;
      } in
      ground (
        arith,
        update_ledger_rest env a l m,
        mutate_era_info_rest s.current_era (add_staked v) s,
        lookup-insert (p, s.current_era) (q, e) k' s.provider_era_stake,
      )

  -- A stake that succeeds is of the amount asked for, or of what the account has available if that is
  -- less. By this amount grow: the account's ledger, what the account has staked on the
  -- provider in the current era and in all later ones, and the provider's total of the current era.
  -- So the stake counts already in the era in which it is made. All other ledgers, stakes and totals
  -- stay as they were. The books are kept before.
  pub stake_takes_effect :
      (a : AccountId) (p : ProviderId) (value : Balance) (s : State B)
      → Books s
      → (stake env (signed a) p value s).0 ≡ ok tt
      → let v = min value (available_staking_balance env a (ledger_of a s) s) in
        let t = (stake env (signed a) p value s).1 in
        ((j : AccountId)
          → ledger_of j t ≡ (
              if nat_beq a j
              then record (ledger_of a s) { locked = (ledger_of a s).locked + v }
              else ledger_of j s))
        × ((j : AccountId) (q : ProviderId) (e : EraIndex)
            → staked_in (staker_info j q t) e ≡ (
                if pair_beq (a, p) (j, q) && leb s.current_era e
                then latest_staked_value (staker_info a p s) + v
                else staked_in (staker_info j q s) e))
        × ((q : ProviderId) (e : EraIndex)
            → (provider_stake_info q e t).total ≡ (
                if pair_beq (p, s.current_era) (q, e)
                then (provider_stake_info p s.current_era s).total + v
                else (provider_stake_info q e s).total))
  stake_takes_effect a p value s b h =
      let v = min value (available_staking_balance env a (ledger_of a s) s) in
      let (i, taken, _, fits, _, _, _, after) = stake_outcome env a p value s h in
      let adds =
        stake_adds 0 (staker_info a p s) s.current_era v (b.rising a p) (omega arith)
          (omega (arith, latest-add-unbonding-le a p s b)) taken in
      rw after (
        staked_state-ledgers env a p v i s,
        (λ j q e. ground (
          arith,
          adds.2 e,
          staker_info_cong j q (update_staker_info a p i s) (staked_state env a p v i s)
              (staked_state-infos env a p v i s),
          staker_info-update_staker_info a j p q i s,
          pair_beq_iff (a, p) (j, q),
        )),
        staked_state-totals a p v i s,
      )

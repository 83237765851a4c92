-- ===== src/Staking/Pallet/Preservation.antt =====
-- Staking and unstaking keep the books.
use massbit_verification.Prelude.{
  ◌+◌, ◌≤◌, ◌<◌, ◌≡◌, refl, ◌∙◌, arith, min, if◌then◌else◌, nat_beq, u128_size, add_u32,
}
use massbit_verification.Dispatch.{AccountId, Balance, signed, ok}
use massbit_verification.Staking.StakerInfo.{StakerInfo, latest_staked_value}
use massbit_verification.Staking.StakerInfo.History.{
  stake_adds, unstake_subtracts, latest_staked_value_lem,
}
use massbit_verification.Staking.Unbonding.{AccountLedger, UnlockingChunk}
use massbit_verification.Staking.Unbonding.Laws.{add_inserts, total-add}
use massbit_verification.Staking.State.{
  ProviderId, Env, State, ledger_of, staker_info, update_staker_info, update_ledger, deposit_event,
  insert_provider_era_stake, mutate_era_info, available_staking_balance,
}
use massbit_verification.Staking.State.Access.{
  ledger_of-update_ledger, update_ledger_rest, mutate_era_info_rest, ledger_of_cong,
}
use massbit_verification.Staking.Calls.{add_staked, sub_staked, stake, unstake}
use massbit_verification.Staking.Calls.Outcomes.{
  staked_state, stake_outcome, unstaked_value, unlocking, unstaked_state, unstake_outcome,
}
use massbit_verification.Staking.Pallet.Books.{
  Books, unbonding_of, written-Books, latest-add-unbonding-le,
}

pub infos_cong :
    {B : Type 0} (a : AccountId) (p : ProviderId) (i : StakerInfo) (s t : State B)
    → t.general_staker_info ≡ s.general_staker_info
    → (update_staker_info a p i t).general_staker_info
      ≡ (update_staker_info a p i s).general_staker_info
unfolding update_staker_info
infos_cong a p i s t h = rw h

module _ {B I P : Type 0} (env : Env B I P) where
  pub staked_state-ledgers :
      (a : AccountId) (p : ProviderId) (v : Balance) (i : StakerInfo) (s : State B) (j : AccountId)
      → ledger_of j (staked_state env a p v i s) ≡ (
          if nat_beq a j
          then record (ledger_of a s) { locked = (ledger_of a s).locked + v }
          else ledger_of j s)
  unfolding deposit_event insert_provider_era_stake update_staker_info
  staked_state-ledgers a p v i s j =
      let l = ledger_of a s in
      let l' : AccountLedger = record l { locked = l.locked + v } in
      let m = mutate_era_info s.current_era (add_staked v) s in
      ground (
        arith,
        ledger_of_cong j (update_ledger env a l' m) (staked_state env a p v i s) refl,
        ledger_of-update_ledger env a j l' m,
        ledger_of_cong j s m (mutate_era_info_rest s.current_era (add_staked v) s).2,
      )

  pub staked_state-infos :
      (a : AccountId) (p : ProviderId) (v : Balance) (i : StakerInfo) (s : State B)
      → (staked_state env a p v i s).general_staker_info
        ≡ (update_staker_info a p i s).general_staker_info
  unfolding deposit_event insert_provider_era_stake
  staked_state-infos a p v i s =
      let l = ledger_of a s in
      let l' : AccountLedger = record l { locked = l.locked + v } in
      let m = mutate_era_info s.current_era (add_staked v) s in
      infos_cong a p i s (update_ledger env a l' m) (
        (update_ledger_rest env a l' m).4 ∙ (mutate_era_info_rest s.current_era (add_staked v) s).4)

  pub stake-Books :
      (a : AccountId) (p : ProviderId) (value : Balance) (s : State B)
      → Books s
      → (stake env (signed a) p value s).0 ≡ ok tt
      → Books (stake env (signed a) p value s).1
  stake-Books a p value s b h =
      let v = min value (available_staking_balance env a (ledger_of a s) s) in
      let (i, taken, _, fits, _, _, _, after) = stake_outcome env a p value s h in
      let part = latest-add-unbonding-le a p s b in
      let adds =
        stake_adds 0 (staker_info a p s) s.current_era v (b.rising a p) (omega arith)
          (omega (arith, part)) taken in
      rw after (
        written-Books a p (record (ledger_of a s) { locked = (ledger_of a s).locked + v }) i s
          (staked_state env a p v i s) (staked_state-ledgers a p v i s)
          (staked_state-infos a p v i s) (omega (arith, adds.1, latest_staked_value_lem i)) fits
          (b.ordered a) adds.0 b)

  -- Where the minimum stake is not zero, no more is taken off than is staked.
  pub unstaked-le :
      (staked value : Balance)
      → 0 < env.config.minimum_staking_amount
      → unstaked_value env staked value ≤ staked
  unstaked-le staked value m = ground arith

  pub unstaked_state-ledgers :
      (a : AccountId) (p : ProviderId) (value : Balance) (i : StakerInfo) (s : State B)
      (j : AccountId)
      → let l = ledger_of a s in
        let v = unstaked_value env (latest_staked_value (staker_info a p s)) value in
        ledger_of j (unstaked_state env a p value i s)
        ≡ (if nat_beq a j then record l { unbonding_info = unlocking env v l s } else ledger_of j s)
  unfolding deposit_event insert_provider_era_stake update_staker_info
  unstaked_state-ledgers a p value i s j =
      let l = ledger_of a s in
      let v = unstaked_value env (latest_staked_value (staker_info a p s)) value in
      let l' : AccountLedger = record l { unbonding_info = unlocking env v l s } in
      let u = update_ledger env a l' s in
      let m = mutate_era_info s.current_era (sub_staked v) u in
      ground (
        arith,
        ledger_of_cong j m (unstaked_state env a p value i s) refl,
        ledger_of-update_ledger env a j l' s,
        ledger_of_cong j u m (mutate_era_info_rest s.current_era (sub_staked v) u).2,
      )

  pub unstaked_state-infos :
      (a : AccountId) (p : ProviderId) (value : Balance) (i : StakerInfo) (s : State B)
      → (unstaked_state env a p value i s).general_staker_info
        ≡ (update_staker_info a p i s).general_staker_info
  unfolding deposit_event insert_provider_era_stake
  unstaked_state-infos a p value i s =
      let l = ledger_of a s in
      let v = unstaked_value env (latest_staked_value (staker_info a p s)) value in
      let l' : AccountLedger = record l { unbonding_info = unlocking env v l s } in
      let u = update_ledger env a l' s in
      infos_cong a p i s (mutate_era_info s.current_era (sub_staked v) u) (
        (mutate_era_info_rest s.current_era (sub_staked v) u).4 ∙ (update_ledger_rest env a l' s).4)

  pub unstake-Books :
      (a : AccountId) (p : ProviderId) (value : Balance) (s : State B)
      → 0 < env.config.minimum_staking_amount
      → Books s
      → (unstake env (signed a) p value s).0 ≡ ok tt
      → Books (unstake env (signed a) p value s).1
  unstake-Books a p value s m b h =
      let l = ledger_of a s in
      let old = latest_staked_value (staker_info a p s) in
      let v = unstaked_value env old value in
      let (i, taken, _, _, _, after) = unstake_outcome env a p value s h in
      let part = latest-add-unbonding-le a p s b in
      let less = unstaked-le old value m in
      let subs = unstake_subtracts 0 (staker_info a p s) s.current_era v (b.rising a p) taken in
      let room : unbonding_of a s + v < u128_size = omega (arith, part, less, b.bounded a) in
      let chunk : UnlockingChunk = record {
        amount = v;
        unlock_era = add_u32 s.current_era env.config.unbonding_period;
      } in
      let adds = add_inserts 0 l.unbonding_info chunk (b.ordered a) (omega arith) room in
      rw after (
        written-Books a p (record l { unbonding_info = unlocking env v l s }) i s
          (unstaked_state env a p value i s) (unstaked_state-ledgers a p value i s)
          (unstaked_state-infos a p value i s)
          (omega
            (arith, subs.1, latest_staked_value_lem i, less, total-add l.unbonding_info chunk room))
          (b.bounded a) adds.0 subs.0 b)

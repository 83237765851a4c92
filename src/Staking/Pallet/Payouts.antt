-- ===== src/Staking/Pallet/Payouts.antt =====
-- Withdrawals and claims of stakers keep the books.
use massbit_verification.Prelude.{
  ◌-◌, ◌≤◌, ◌≡◌, refl, ◌∙◌, arith, if◌then◌else◌, nat_beq, nat_beq_iff,
}
use massbit_verification.Staking.StakerInfo.Claims.{latest-claim, claim-RisesFrom}
use massbit_verification.Dispatch.{AccountId, Balance, signed, ok}
use massbit_verification.Staking.StakerInfo
use massbit_verification.Staking.StakerInfo.{StakerInfo, latest_staked_value, no_stakes}
use massbit_verification.Staking.Unbonding
use massbit_verification.Staking.Unbonding.{AccountLedger, UnlockingChunk}
use massbit_verification.Staking.Unbonding.Laws.{partition_totals}
use massbit_verification.Staking.State.{
  ProviderId, Env, State, ledger_of, staker_info, update_staker_info, update_ledger, deposit_event,
  mutate_era_info,
}
use massbit_verification.Staking.State.Access.{
  ledger_of-update_ledger, update_ledger_rest, mutate_era_info_rest, ledger_of_cong,
  latest_no_stakes,
}
use massbit_verification.Staking.Calls.{
  sub_locked, sub_both, withdraw_unstaked, withdraw_from_unregistered_staker, claim_staker,
}
use massbit_verification.Staking.Calls.Outcomes.{
  withdrawn_amount, withdrawn_state, withdraw_unstaked_outcome, left_state, withdraw_staker_outcome,
  claimed_state, claim_staker_outcome,
}
use massbit_verification.Staking.Pallet.Books.{
  Books, unbonding_of, written-Books, ledger_written-Books, latest-add-unbonding-le,
}
use massbit_verification.Staking.Pallet.Preservation.{infos_cong}

module _ {B I P : Type 0} (env : Env B I P) where
  pub withdrawn_state-ledgers :
      (a : AccountId) (s : State B) (j : AccountId)
      → let l = ledger_of a s in
        ledger_of j (withdrawn_state env a s) ≡ (
          if nat_beq a j
          then record {
            locked = l.locked - withdrawn_amount env a s;
            unbonding_info = (Unbonding.partition l.unbonding_info s.current_era).1;
          }
          else ledger_of j s)
  unfolding deposit_event
  withdrawn_state-ledgers a s j =
      let l = ledger_of a s in
      let v = withdrawn_amount env a s in
      let l' : AccountLedger = record {
        locked = l.locked - v;
        unbonding_info = (Unbonding.partition l.unbonding_info s.current_era).1;
      } in
      let u = update_ledger env a l' s in
      let m = mutate_era_info s.current_era (sub_locked v) u in
      ground (
        arith,
        ledger_of_cong j m (withdrawn_state env a s) refl,
        ledger_of-update_ledger env a j l' s,
        ledger_of_cong j u m (mutate_era_info_rest s.current_era (sub_locked v) u).2,
      )

  pub withdrawn_state-infos :
      (a : AccountId) (s : State B)
      → (withdrawn_state env a s).general_staker_info ≡ s.general_staker_info
  unfolding deposit_event
  withdrawn_state-infos a s =
      let l = ledger_of a s in
      let v = withdrawn_amount env a s in
      let l' : AccountLedger = record {
        locked = l.locked - v;
        unbonding_info = (Unbonding.partition l.unbonding_info s.current_era).1;
      } in
      let u = update_ledger env a l' s in
      (mutate_era_info_rest s.current_era (sub_locked v) u).4 ∙ (update_ledger_rest env a l' s).4

  pub withdraw_unstaked-Books :
      (a : AccountId) (s : State B)
      → Books s
      → (withdraw_unstaked env (signed a) s).0 ≡ ok tt
      → Books (withdraw_unstaked env (signed a) s).1
  withdraw_unstaked-Books a s b h =
      let l = ledger_of a s in
      let (_, after) = withdraw_unstaked_outcome env a s h in
      let chunks = l.unbonding_info in
      let bound : unbonding_of a s ≤ l.locked = omega (arith, b.balanced a) in
      let split =
        partition_totals 0 chunks s.current_era (b.ordered a) (omega (arith, bound, b.bounded a)) in
      rw after (
        ledger_written-Books a
          (record {
            locked = l.locked - withdrawn_amount env a s;
            unbonding_info = (Unbonding.partition chunks s.current_era).1;
          })
          s (withdrawn_state env a s) (withdrawn_state-ledgers a s) (withdrawn_state-infos a s)
          (omega (arith, split.0, bound)) (omega (arith, b.bounded a)) split.1 b)

  pub left_state-ledgers :
      (a : AccountId) (p : ProviderId) (s : State B) (j : AccountId)
      → let l = ledger_of a s in
        ledger_of j (left_state env a p s) ≡ (
          if nat_beq a j
          then record l { locked = l.locked - latest_staked_value (staker_info a p s) }
          else ledger_of j s)
  unfolding deposit_event update_staker_info
  left_state-ledgers a p s j =
      let l = ledger_of a s in
      let v = latest_staked_value (staker_info a p s) in
      let l' : AccountLedger = record l { locked = l.locked - v } in
      let w = update_staker_info a p no_stakes (update_ledger env a l' s) in
      let m = mutate_era_info s.current_era (sub_both v) w in
      ground (
        arith,
        ledger_of_cong j m (left_state env a p s) refl,
        ledger_of_cong j (update_ledger env a l' s) w refl,
        ledger_of-update_ledger env a j l' s,
        ledger_of_cong j w m (mutate_era_info_rest s.current_era (sub_both v) w).2,
      )

  pub left_state-infos :
      (a : AccountId) (p : ProviderId) (s : State B)
      → (left_state env a p s).general_staker_info
        ≡ (update_staker_info a p no_stakes s).general_staker_info
  unfolding deposit_event
  left_state-infos a p s =
      let l = ledger_of a s in
      let v = latest_staked_value (staker_info a p s) in
      let l' : AccountLedger = record l { locked = l.locked - v } in
      let u = update_ledger env a l' s in
      (mutate_era_info_rest s.current_era (sub_both v) (update_staker_info a p no_stakes u)).4
      ∙ infos_cong a p no_stakes s u (update_ledger_rest env a l' s).4

  pub withdraw_staker-Books :
      (a : AccountId) (p : ProviderId) (s : State B)
      → Books s
      → (withdraw_from_unregistered_staker env (signed a) p s).0 ≡ ok tt
      → Books (withdraw_from_unregistered_staker env (signed a) p s).1
  withdraw_staker-Books a p s b h =
      let l = ledger_of a s in
      let v = latest_staked_value (staker_info a p s) in
      let (_, _, _, _, _, _, after) = withdraw_staker_outcome env a p s h in
      rw after (
        written-Books a p (record l { locked = l.locked - v }) no_stakes s (left_state env a p s)
          (left_state-ledgers a p s) (left_state-infos a p s)
          (omega (arith, latest-add-unbonding-le a p s b, latest_no_stakes))
          (omega (arith, b.bounded a)) (b.ordered a) tt b)

  pub claimed_state-ledgers :
      (a : AccountId) (p : ProviderId) (reward : Balance) (bank : B) (s : State B) (j : AccountId)
      → ledger_of j (claimed_state env a p reward bank s)
        ≡ (if nat_beq a j then ledger_of a s else ledger_of j s)
  unfolding deposit_event update_staker_info
  claimed_state-ledgers a p reward bank s j =
      ground (arith, nat_beq_iff a j, ledger_of_cong j s (claimed_state env a p reward bank s) refl)

  claimed_state-Books :
      (a : AccountId) (p : ProviderId) (reward : Balance) (bank : B) (s : State B)
      → Books s
      → Books (claimed_state env a p reward bank s)
  unfolding deposit_event update_staker_info
  claimed_state-Books a p reward bank s b =
      let info = staker_info a p s in
      written-Books a p (ledger_of a s) (StakerInfo.claim info).1 s
        (claimed_state env a p reward bank s) (claimed_state-ledgers a p reward bank s) refl
        (omega (arith, latest-claim info)) (b.bounded a) (b.ordered a)
        (claim-RisesFrom info.stakes (b.rising a p)) b

  pub claim_staker-Books :
      (a : AccountId) (p : ProviderId) (s : State B)
      → Books s
      → (claim_staker env (signed a) p s).0 ≡ ok tt
      → Books (claim_staker env (signed a) p s).1
  claim_staker-Books a p s b h =
      let (_, _, _, _, _, _, _, _, _, after) = claim_staker_outcome env a p s h in
      rw after (claimed_state-Books a p _ _ s b)

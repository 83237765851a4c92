-- ===== src/Staking/Pallet/Locks/Runs.antt =====
-- The locks go with the ledgers at all times.
use massbit_verification.Prelude.{
  ◌<◌, ◌≤◌, ◌+◌, ◌-◌, ◌≡◌, refl, List, [], ◌∷◌, arith, min, nat_beq, if◌then◌else◌, u128_size,
  add_u32,
}
use massbit_verification.Dispatch.{AccountId, Balance, EraIndex, signed, ok}
use massbit_verification.Currency.{LockLaws, dapistak}
use massbit_verification.Staking.StakerInfo.{StakerInfo, latest_staked_value, no_stakes}
use massbit_verification.Staking.Unbonding.{
  AccountLedger, UnlockingChunk, add, add_chunk, place, search_era, merge_at, insert_chunk, others,
  partition,
}
use massbit_verification.Staking.Unbonding.Laws.{total, partition_totals}
use massbit_verification.Staking.State.{
  ProviderId, Env, State, staker_info, ledger_of, available_staking_balance, update_staker_info,
  update_ledger, mutate_era_info, insert_provider_era_stake, deposit_event,
}
use massbit_verification.Staking.State.Access.{mutate_era_info_rest}
use massbit_verification.Staking.Calls.{
  stake, unstake, withdraw_unstaked, withdraw_from_unregistered_staker, claim_staker,
  pay_from_pallet, add_staked, sub_staked, sub_locked, sub_both,
}
use massbit_verification.Staking.Calls.Outcomes.{
  stake_outcome, staked_state, unstake_outcome, unstaked_state, unstaked_value, unlocking,
  withdraw_unstaked_outcome, withdrawn_state, withdrawn_amount, withdraw_staker_outcome, left_state,
}
use massbit_verification.Staking.Pallet.{Operation, step, run}
use massbit_verification.Staking.Pallet.Books.{Books, unbonding_of, latest-add-unbonding-le}
use massbit_verification.Staking.Pallet.Ledgers as Ledgers
use massbit_verification.Staking.Pallet.Keeping.{Keeping, step-Keeping}
use massbit_verification.Staking.Pallet.Preservation.{
  staked_state-ledgers, unstaked_state-ledgers, unstaked-le,
}
use massbit_verification.Staking.Pallet.Payouts.{withdrawn_state-ledgers, left_state-ledgers}
use massbit_verification.Staking.Pallet.Transfers.{claim_staker-OnlyTransfers}
use massbit_verification.Staking.Pallet.Locks.{
  Positive, IsFull, Positive-IsFull, lock-update_ledger, Locked, written-Locked, same-Locked,
}

claim_staker-ledger :
    {B I P : Type 0} (env : Env B I P) (a : AccountId) (p : ProviderId) (s : State B)
    → (claim_staker env (signed a) p s).1.ledger ≡ s.ledger
unfolding claim_staker pay_from_pallet update_staker_info deposit_event
claim_staker-ledger env a p s = ground arith

add_chunk-Positive :
    (chunk : UnlockingChunk) (cs : List UnlockingChunk)
    → 0 < chunk.amount
    → total cs + chunk.amount < u128_size
    → Positive cs
    → Positive (add_chunk chunk cs)
unfolding total add_chunk place search_era merge_at insert_chunk
add_chunk-Positive chunk [] h f p = (h, tt)
add_chunk-Positive chunk (c ∷ cs) h f p = ground (arith, add_chunk-Positive chunk cs)

others-Positive :
    (era : EraIndex) (cs : List UnlockingChunk) → Positive cs → Positive (others era cs)
unfolding others
others-Positive era [] p = tt
others-Positive era (c ∷ cs) p = ground (arith, others-Positive era cs p.1)

module _ {B I P : Type 0} (env : Env B I P) (laws : LockLaws env.currency) where
  staked_state-lock :
      (a j : AccountId) (p : ProviderId) (v : Balance) (i : StakerInfo) (s : State B)
      → 0 < v
      → laws.lock dapistak j (staked_state env a p v i s).bank
        ≡ (if nat_beq a j then (ledger_of a s).locked + v else laws.lock dapistak j s.bank)
  unfolding deposit_event insert_provider_era_stake update_staker_info
  staked_state-lock a j p v i s h =
      let l' : AccountLedger = record (ledger_of a s) { locked = (ledger_of a s).locked + v } in
      let m = mutate_era_info s.current_era (add_staked v) s in
      rw
        (
          lock-update_ledger env laws a j l' m (λ _. omega arith),
          (mutate_era_info_rest s.current_era (add_staked v) s).5,
        )
        refl

  unstaked_state-lock :
      (a j : AccountId) (p : ProviderId) (value : Balance) (i : StakerInfo) (s : State B)
      → 0 < (ledger_of a s).locked
      → laws.lock dapistak j (unstaked_state env a p value i s).bank
        ≡ (if nat_beq a j then (ledger_of a s).locked else laws.lock dapistak j s.bank)
  unfolding deposit_event insert_provider_era_stake update_staker_info
  unstaked_state-lock a j p value i s h =
      let l = ledger_of a s in
      let v = unstaked_value env (latest_staked_value (staker_info a p s)) value in
      let l' : AccountLedger = record l { unbonding_info = unlocking env v l s } in
      rw
        (
          (mutate_era_info_rest s.current_era (sub_staked v) (update_ledger env a l' s)).5,
          lock-update_ledger env laws a j l' s (λ _. h),
        )
        refl

  withdrawn_state-lock :
      (a j : AccountId) (s : State B)
      → let l = ledger_of a s in
        let l' : AccountLedger = record {
          locked = l.locked - withdrawn_amount env a s;
          unbonding_info = (partition l.unbonding_info s.current_era).1;
        } in
        IsFull l'
        → laws.lock dapistak j (withdrawn_state env a s).bank
          ≡ (if nat_beq a j then l'.locked else laws.lock dapistak j s.bank)
  unfolding deposit_event
  withdrawn_state-lock a j s full =
      let l = ledger_of a s in
      let v = withdrawn_amount env a s in
      let l' : AccountLedger = record {
        locked = l.locked - v;
        unbonding_info = (partition l.unbonding_info s.current_era).1;
      } in
      rw
        (
          (mutate_era_info_rest s.current_era (sub_locked v) (update_ledger env a l' s)).5,
          lock-update_ledger env laws a j l' s full,
        )
        refl

  left_state-lock :
      (a j : AccountId) (p : ProviderId) (s : State B)
      → let l = ledger_of a s in
        let l' : AccountLedger = record l {
          locked = l.locked - latest_staked_value (staker_info a p s);
        } in
        IsFull l'
        → laws.lock dapistak j (left_state env a p s).bank
          ≡ (if nat_beq a j then l'.locked else laws.lock dapistak j s.bank)
  unfolding deposit_event update_staker_info
  left_state-lock a j p s full =
      let l = ledger_of a s in
      let v = latest_staked_value (staker_info a p s) in
      let l' : AccountLedger = record l { locked = l.locked - v } in
      rw
        (
          (mutate_era_info_rest s.current_era (sub_both v)
              (update_staker_info a p no_stakes (update_ledger env a l' s))).5,
          lock-update_ledger env laws a j l' s full,
        )
        refl

  module _ (minimum : 0 < env.config.minimum_staking_amount) where
    stake-Locked :
        (a : AccountId) (p : ProviderId) (value : Balance) (s : State B)
        → Locked env laws s
        → (stake env (signed a) p value s).0 ≡ ok tt
        → Locked env laws (stake env (signed a) p value s).1
    stake-Locked a p value s k h =
        let l = ledger_of a s in
        let v = min value (available_staking_balance env a l s) in
        let (i, _, some, _, _, _, _, after) = stake_outcome env a p value s h in
        rw after (
          written-Locked env laws a (record l { locked = l.locked + v }) s
            (staked_state env a p v i s) (staked_state-ledgers env a p v i s)
            (λ j. staked_state-lock a j p v i s some) (k.positive a) k)

    unstake-Locked :
        (a : AccountId) (p : ProviderId) (value : Balance) (s : State B)
        → Books s
        → Locked env laws s
        → (unstake env (signed a) p value s).0 ≡ ok tt
        → Locked env laws (unstake env (signed a) p value s).1
    unfolding add
    unstake-Locked a p value s b k h =
        let l = ledger_of a s in
        let old = latest_staked_value (staker_info a p s) in
        let v = unstaked_value env old value in
        let (i, _, held, asked, _, after) = unstake_outcome env a p value s h in
        let part = latest-add-unbonding-le a p s b in
        let less = unstaked-le env old value minimum in
        let chunk : UnlockingChunk = record {
          amount = v;
          unlock_era = add_u32 s.current_era env.config.unbonding_period;
        } in
        let more : 0 < v = ground arith in
        let positive =
          add_chunk-Positive chunk l.unbonding_info.unlocking_chunks more
            (omega (arith, part, less, b.bounded a)) (k.positive a) in
        rw after (
          written-Locked env laws a (record l { unbonding_info = unlocking env v l s }) s
            (unstaked_state env a p value i s) (unstaked_state-ledgers env a p value i s)
            (λ j. unstaked_state-lock a j p value i s (omega (arith, part, held))) positive k)

    withdraw_unstaked-Locked :
        (a : AccountId) (s : State B)
        → Books s
        → Locked env laws s
        → (withdraw_unstaked env (signed a) s).0 ≡ ok tt
        → Locked env laws (withdraw_unstaked env (signed a) s).1
    unfolding partition
    withdraw_unstaked-Locked a s b k h =
        let l = ledger_of a s in
        let v = withdrawn_amount env a s in
        let (_, after) = withdraw_unstaked_outcome env a s h in
        let bound : unbonding_of a s ≤ l.locked = omega (arith, b.balanced a) in
        let split =
          partition_totals 0 l.unbonding_info s.current_era (b.ordered a)
            (omega (arith, bound, b.bounded a)) in
        let rest = (partition l.unbonding_info s.current_era).1 in
        let positive =
          others-Positive s.current_era l.unbonding_info.unlocking_chunks (k.positive a) in
        let full =
          Positive-IsFull (l.locked - v) rest.unlocking_chunks positive
            (omega (arith, split.0, bound)) in
        rw after (
          written-Locked env laws a (record { locked = l.locked - v; unbonding_info = rest }) s
            (withdrawn_state env a s) (withdrawn_state-ledgers env a s)
            (λ j. withdrawn_state-lock a j s full) positive k)

    withdraw_staker-Locked :
        (a : AccountId) (p : ProviderId) (s : State B)
        → Books s
        → Locked env laws s
        → (withdraw_from_unregistered_staker env (signed a) p s).0 ≡ ok tt
        → Locked env laws (withdraw_from_unregistered_staker env (signed a) p s).1
    withdraw_staker-Locked a p s b k h =
        let l = ledger_of a s in
        let v = latest_staked_value (staker_info a p s) in
        let (_, _, _, _, _, _, after) = withdraw_staker_outcome env a p s h in
        let part = latest-add-unbonding-le a p s b in
        let full =
          Positive-IsFull (l.locked - v) l.unbonding_info.unlocking_chunks (k.positive a)
            (omega (arith, part)) in
        rw after (
          written-Locked env laws a (record l { locked = l.locked - v }) s (left_state env a p s)
            (left_state-ledgers env a p s) (λ j. left_state-lock a j p s full) (k.positive a) k)

    claim_staker-Locked :
        (a : AccountId) (p : ProviderId) (s : State B)
        → Locked env laws s
        → (claim_staker env (signed a) p s).0 ≡ ok tt
        → Locked env laws (claim_staker env (signed a) p s).1
    claim_staker-Locked a p s k h =
        same-Locked env laws s (claim_staker env (signed a) p s).1 (claim_staker-ledger env a p s)
          (claim_staker-OnlyTransfers env (signed a) p s) k

    abbrev Both : State B → Type 0
    Both s = Books s × Locked env laws s

    keeping : Keeping env Both
    keeping =
        let books = Ledgers.keeping env minimum in
        record {
          stakes = λ a p v s k h. (books.stakes a p v s k.0 h, stake-Locked a p v s k.1 h);
          unstakes =
              λ a p v s k h. (books.unstakes a p v s k.0 h, unstake-Locked a p v s k.0 k.1 h);
          withdraws =
              λ a s k h. (books.withdraws a s k.0 h, withdraw_unstaked-Locked a s k.0 k.1 h);
          leaves = λ a p s k h. (books.leaves a p s k.0 h, withdraw_staker-Locked a p s k.0 k.1 h);
          claims = λ a p s k h. (books.claims a p s k.0 h, claim_staker-Locked a p s k.1 h);
          same = λ s t h m k. (books.same s t h m k.0, same-Locked env laws s t h.0 m k.1);
        }

    runs-Both : (ops : List (Operation I)) (s : State B) → Both s → Both (run env ops s)
    unfolding run
    runs-Both [] s k = k
    runs-Both (op ∷ ops) s k = runs-Both ops (step env op s) (step-Keeping env Both keeping op s k)

    -- After every run of operations of the pallet, failed ones among them, the currency has locked for
    -- each account, under the pallet's lock, exactly what the account's ledger says, and no chunk on
    -- its way out is empty. Conditions: it is so before, the books are kept before, the minimum stake
    -- is not zero, and locks behave as documented: setting a lock to more than zero replaces it,
    -- removing it leaves none, and no movement of funds changes it.
    pub run-Locked :
        (ops : List (Operation I)) (s : State B)
        → Books s
        → Locked env laws s
        → Locked env laws (run env ops s)
    run-Locked ops s b k = (runs-Both ops s (b, k)).1

-- ===== src/Staking/Pallet/Withdrawal.antt =====
-- `withdraw_unstaked` of pallets/dapi-staking/src/pallet/mod.rs: taking out what has unlocked.
use massbit_verification.Prelude.{
  ◌+◌, ◌-◌, ◌≤◌, ◌<◌, ◌≡◌, ◌∙◌, ℕ, arith, leb, false, u128_size, nat_eq, nat_beq, refl, List, [],
  ◌∷◌, if◌then◌else◌,
}
use massbit_verification.Dispatch.{
  AccountId, Balance, EraIndex, signed, ok, err, staking, nothing_to_withdraw,
}
use massbit_verification.Staking.Unbonding
use massbit_verification.Staking.Unbonding.{
  UnlockingChunk, UnbondingInfo, matching, others, AccountLedger,
}
use massbit_verification.Staking.Unbonding.Laws.{total, amount_at, sum-total}
use massbit_verification.Staking.Pallet.Books.{Books}
use massbit_verification.Staking.State.{Env, State, ledger_of, deposit_event, update_ledger}
use massbit_verification.Staking.State.Access.{mutate_era_info_rest, update_ledger_rest}
use massbit_verification.Staking.Calls.{withdraw_unstaked, sub_locked}
use massbit_verification.Staking.Calls.Outcomes.{
  withdraw_unstaked_outcome, withdrawn_state, withdrawn_amount,
}
use massbit_verification.Staking.Pallet.Payouts.{withdrawn_state-ledgers}

matching-others : (era : ℕ) (cs : List UnlockingChunk) → matching era (others era cs) ≡ []
unfolding matching others
matching-others era [] = refl
matching-others era (c ∷ cs) = ground (arith, matching-others era cs)

sum-later :
    (u : UnbondingInfo) (era : ℕ)
    → Unbonding.sum (Unbonding.partition (Unbonding.partition u era).1 era).0 ≡ 0
unfolding Unbonding.partition Unbonding.sum
sum-later u era = rw (matching-others era u.unlocking_chunks) refl

-- What unlocks in the era or before.
pub unlocked_by : EraIndex → List UnlockingChunk → Balance
unlocked_by era [] = 0
unlocked_by era (c ∷ cs) =
    let rest = unlocked_by era cs in if leb c.unlock_era era then c.amount + rest else rest

unlocked-le : (era : EraIndex) (cs : List UnlockingChunk) → unlocked_by era cs ≤ total cs
unfolding unlocked_by total
unlocked-le era [] = omega arith
unlocked-le era (c ∷ cs) = ground (arith, unlocked-le era cs)

total-matching :
    (era : EraIndex) (cs : List UnlockingChunk) → total (matching era cs) ≡ unlocked_by era cs
unfolding unlocked_by total matching
total-matching era [] = refl
total-matching era (c ∷ cs) = ground (arith, total-matching era cs)

sum-now :
    (u : UnbondingInfo) (era : EraIndex)
    → total u.unlocking_chunks < u128_size
    → Unbonding.sum (Unbonding.partition u era).0 ≡ unlocked_by era u.unlocking_chunks
unfolding Unbonding.partition
sum-now u era f =
    let now : UnbondingInfo = record { unlocking_chunks = matching era u.unlocking_chunks } in
    let same = total-matching era u.unlocking_chunks in
    sum-total now (omega (arith, same, unlocked-le era u.unlocking_chunks)) ∙ same

amount_at-others :
    (e era : EraIndex) (cs : List UnlockingChunk)
    → amount_at e (others era cs) ≡ (if leb e era then 0 else amount_at e cs)
unfolding amount_at others
amount_at-others e era [] = ground arith
amount_at-others e era (c ∷ cs) = ground (arith, amount_at-others e era cs)

amount_at-later :
    (e : EraIndex) (u : UnbondingInfo) (era : EraIndex)
    → amount_at e (Unbonding.partition u era).1.unlocking_chunks
      ≡ (if leb e era then 0 else amount_at e u.unlocking_chunks)
unfolding Unbonding.partition
amount_at-later e u era = amount_at-others e era u.unlocking_chunks

module _ {B I P : Type 0} (env : Env B I P) where
  withdrawn_state-era :
      (a : AccountId) (s : State B) → (withdrawn_state env a s).current_era ≡ s.current_era
  unfolding deposit_event
  withdrawn_state-era a s =
      let l = ledger_of a s in
      let v = withdrawn_amount env a s in
      let l' : AccountLedger = record {
        locked = l.locked - v;
        unbonding_info = (Unbonding.partition l.unbonding_info s.current_era).1;
      } in
      (mutate_era_info_rest s.current_era (sub_locked v) (update_ledger env a l' s)).0
      ∙ (update_ledger_rest env a l' s).0

  nothing_left :
      (a : AccountId) (t : State B)
      → Unbonding.sum (Unbonding.partition (ledger_of a t).unbonding_info t.current_era).0 ≡ 0
      → withdraw_unstaked env (signed a) t ≡ (err (staking nothing_to_withdraw), t)
  unfolding withdraw_unstaked
  nothing_left a t h = ground (arith, h)

  -- A withdrawal that succeeds takes the amounts of all chunks that unlock in the current era or before
  -- off what the account has locked, and this is more than nothing. Of these chunks nothing is left,
  -- what unlocks in each later era stays, and so do the ledgers of others. A further withdrawal
  -- right after it is refused and changes nothing. The books are kept before.
  pub withdraw_unstaked_takes_all :
      (a : AccountId) (s : State B)
      → Books s
      → (withdraw_unstaked env (signed a) s).0 ≡ ok tt
      → let v = unlocked_by s.current_era (ledger_of a s).unbonding_info.unlocking_chunks in
        let t = (withdraw_unstaked env (signed a) s).1 in
        (0 < v)
        × ((ledger_of a t).locked + v ≡ (ledger_of a s).locked)
        × ((e : EraIndex)
            → amount_at e (ledger_of a t).unbonding_info.unlocking_chunks ≡ (
                if leb e s.current_era
                then 0
                else amount_at e (ledger_of a s).unbonding_info.unlocking_chunks))
        × ((j : AccountId) → nat_beq a j ≡ false → ledger_of j t ≡ ledger_of j s)
        × (withdraw_unstaked env (signed a) t ≡ (err (staking nothing_to_withdraw), t))
  withdraw_unstaked_takes_all a s b h =
      let t = withdrawn_state env a s in
      let u = (ledger_of a s).unbonding_info in
      let (some, after) = withdraw_unstaked_outcome env a s h in
      let bound : total u.unlocking_chunks ≤ (ledger_of a s).locked = omega (arith, b.balanced a) in
      let due = sum-now u s.current_era (omega (arith, bound, b.bounded a)) in
      rw after (
        omega (arith, due, some),
        ground (
          arith,
          withdrawn_state-ledgers env a s a,
          due,
          bound,
          unlocked-le s.current_era u.unlocking_chunks,
        ),
        (λ e. ground (arith, withdrawn_state-ledgers env a s a, amount_at-later e u s.current_era)),
        (λ j other. ground (arith, withdrawn_state-ledgers env a s j)),
        nothing_left a t (
            ground (
              arith,
              withdrawn_state-era a s,
              withdrawn_state-ledgers env a s a,
              sum-later (ledger_of a s).unbonding_info s.current_era,
            )),
      )

-- ===== src/Staking/Pallet/Keeping.antt =====
-- What the successful calls keep that change stakes and ledgers, and whatever leaves both alone and
-- only moves funds, every operation keeps, failed or not.
use massbit_verification.Prelude.{◌≡◌, refl, inl, inr, ◌-◌}
use massbit_verification.Dispatch.{
  AccountId, Balance, Origin, root, signed, unsigned, ok, Result-cases,
}
use massbit_verification.Staking.State.{ProviderId, Env, State, insert_provider}
use massbit_verification.Staking.Calls
use massbit_verification.Staking.Calls.Atomic.{
  stake-IsAtomic, unstake-IsAtomic, withdraw_unstaked-IsAtomic, withdraw_staker-IsAtomic,
}
use massbit_verification.Staking.Registry.{register}
use massbit_verification.Staking.Registry.Outcomes.{
  register_outcome, reserved_state, enrolled_state,
}
use massbit_verification.Staking.Pallet.{
  withdraw_from_unregistered_staker, withdraw_from_unregistered_operator, stake, unstake,
  withdraw_unstaked, claim_staker, claim_operator, force_new_era, Operation, call, register_by,
  unregister_it, reward_with, begin_block, dispatch, step,
}
use massbit_verification.Staking.Pallet.Transfers.{
  OnlyTransfers, reserves, claim_staker-OnlyTransfers, claim_operator-OnlyTransfers,
  withdraw_operator-OnlyTransfers, force_new_era-OnlyTransfers, unregister-OnlyTransfers,
  rewards-OnlyTransfers, on_initialize-OnlyTransfers,
}
use massbit_verification.Staking.Pallet.Untouched.{
  SameStakes, claim_staker_failed, claim_operator-SameStakes, withdraw_operator-SameStakes,
  force_new_era-SameStakes, unregister-SameStakes, rewards-SameStakes, on_initialize-SameStakes,
}

-- The calls that change stakes and ledgers keep `K` when they succeed, and it is about these and the
-- locks alone.
pub record Keeping {B I P : Type 0} (env : Env B I P) (K : State B → Type 0) : Type 0 where
  pub stakes :
      (a : AccountId) (p : ProviderId) (v : Balance) (s : State B)
      → K s
      → (Calls.stake env (signed a) p v s).0 ≡ ok tt
      → K (Calls.stake env (signed a) p v s).1
  pub unstakes :
      (a : AccountId) (p : ProviderId) (v : Balance) (s : State B)
      → K s
      → (Calls.unstake env (signed a) p v s).0 ≡ ok tt
      → K (Calls.unstake env (signed a) p v s).1
  pub withdraws :
      (a : AccountId) (s : State B)
      → K s
      → (Calls.withdraw_unstaked env (signed a) s).0 ≡ ok tt
      → K (Calls.withdraw_unstaked env (signed a) s).1
  pub leaves :
      (a : AccountId) (p : ProviderId) (s : State B)
      → K s
      → (Calls.withdraw_from_unregistered_staker env (signed a) p s).0 ≡ ok tt
      → K (Calls.withdraw_from_unregistered_staker env (signed a) p s).1
  pub claims :
      (a : AccountId) (p : ProviderId) (s : State B)
      → K s
      → (Calls.claim_staker env (signed a) p s).0 ≡ ok tt
      → K (Calls.claim_staker env (signed a) p s).1
  pub same : (s t : State B) → SameStakes s t → OnlyTransfers env s t → K s → K t

module _ {B I P : Type 0} (env : Env B I P) (K : State B → Type 0) (keeping : Keeping env K) where
  stake_always :
      (o : Origin) (p : ProviderId) (v : Balance) (s : State B)
      → K s
      → K (Calls.stake env o p v s).1
  stake_always (signed a) p v s b = elim (Result-cases (Calls.stake env (signed a) p v s).0) [
    | inl (u, h) ↦ keeping.stakes a p v s b h
    | inr (e, h) ↦ rw (stake-IsAtomic env (signed a) p v s e h) b
  ]
  stake_always root p v s b = unfold Calls.stake in b
  stake_always unsigned p v s b = unfold Calls.stake in b

  unstake_always :
      (o : Origin) (p : ProviderId) (v : Balance) (s : State B)
      → K s
      → K (Calls.unstake env o p v s).1
  unstake_always (signed a) p v s b = elim (Result-cases (Calls.unstake env (signed a) p v s).0) [
    | inl (u, h) ↦ keeping.unstakes a p v s b h
    | inr (e, h) ↦ rw (unstake-IsAtomic env (signed a) p v s e h) b
  ]
  unstake_always root p v s b = unfold Calls.unstake in b
  unstake_always unsigned p v s b = unfold Calls.unstake in b

  withdraw_unstaked_always :
      (o : Origin) (s : State B) → K s → K (Calls.withdraw_unstaked env o s).1
  withdraw_unstaked_always (signed a) s b =
      elim (Result-cases (Calls.withdraw_unstaked env (signed a) s).0) [
        | inl (u, h) ↦ keeping.withdraws a s b h
        | inr (e, h) ↦ rw (withdraw_unstaked-IsAtomic env (signed a) s e h) b
      ]
  withdraw_unstaked_always root s b = unfold Calls.withdraw_unstaked in b
  withdraw_unstaked_always unsigned s b = unfold Calls.withdraw_unstaked in b

  withdraw_staker_always :
      (o : Origin) (p : ProviderId) (s : State B)
      → K s
      → K (Calls.withdraw_from_unregistered_staker env o p s).1
  withdraw_staker_always (signed a) p s b =
      elim (Result-cases (Calls.withdraw_from_unregistered_staker env (signed a) p s).0) [
        | inl (u, h) ↦ keeping.leaves a p s b h
        | inr (e, h) ↦ rw (withdraw_staker-IsAtomic env (signed a) p s e h) b
      ]
  withdraw_staker_always root p s b = unfold Calls.withdraw_from_unregistered_staker in b
  withdraw_staker_always unsigned p s b = unfold Calls.withdraw_from_unregistered_staker in b

  claim_staker_always :
      (o : Origin) (p : ProviderId) (s : State B) → K s → K (Calls.claim_staker env o p s).1
  claim_staker_always (signed a) p s b =
      elim (Result-cases (Calls.claim_staker env (signed a) p s).0) [
        | inl (u, h) ↦ keeping.claims a p s b h
        | inr (e, h) ↦
            keeping.same s (Calls.claim_staker env (signed a) p s).1
              (claim_staker_failed env a p s e h) (claim_staker-OnlyTransfers env (signed a) p s) b
      ]
  claim_staker_always root p s b = unfold Calls.claim_staker in b
  claim_staker_always unsigned p s b = unfold Calls.claim_staker in b

  register_always :
      (a : AccountId) (p : ProviderId) (v : Balance) (s : State B)
      → K s
      → K (register env a p v s).1
  unfolding insert_provider
  register_always a p v s b = elim (register_outcome env a p v s) [
    | inl h ↦ rw h b
    | inr (inl h) ↦ rw h b
    | inr (inr (inl (e, h))) ↦ rw h (
        keeping.same s (reserved_state env a s) (refl, refl)
          (reserves a env.config.register_deposit) b)
    | inr (inr (inr (fresh, h))) ↦ rw h (
        stake_always (signed a) p (v - env.config.register_deposit) (enrolled_state env a p s) (
          keeping.same s (enrolled_state env a p s) (refl, refl)
            (reserves a env.config.register_deposit) b))
  ]

  -- Every operation of the pallet, failed or not, keeps `K`.
  pub step-Keeping : (op : Operation I) (s : State B) → K s → K (step env op s)
  unfolding step dispatch
  step-Keeping (call o (withdraw_from_unregistered_staker p)) s b = withdraw_staker_always o p s b
  step-Keeping (call o (withdraw_from_unregistered_operator p)) s b =
      keeping.same s _ (withdraw_operator-SameStakes env o p s)
        (withdraw_operator-OnlyTransfers env o p s) b
  step-Keeping (call o (stake p v)) s b = stake_always o p v s b
  step-Keeping (call o (unstake p v)) s b = unstake_always o p v s b
  step-Keeping (call o withdraw_unstaked) s b = withdraw_unstaked_always o s b
  step-Keeping (call o (claim_staker p)) s b = claim_staker_always o p s b
  step-Keeping (call o (claim_operator p e)) s b =
      keeping.same s _ (claim_operator-SameStakes env o p e s)
        (claim_operator-OnlyTransfers env o p e s) b
  step-Keeping (call o force_new_era) s b =
      keeping.same s _ (force_new_era-SameStakes env o s) (force_new_era-OnlyTransfers env o s) b
  step-Keeping (register_by a p v) s b = register_always a p v s b
  step-Keeping (unregister_it p) s b =
      keeping.same s _ (unregister-SameStakes env p s) (unregister-OnlyTransfers env p s) b
  step-Keeping (reward_with i) s b =
      keeping.same s _ (rewards-SameStakes env i s) (rewards-OnlyTransfers env i s) b
  step-Keeping (begin_block now) s b =
      keeping.same s _ (on_initialize-SameStakes env now s) (on_initialize-OnlyTransfers env now s)
        b

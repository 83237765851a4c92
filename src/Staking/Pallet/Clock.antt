-- ===== src/Staking/Pallet/Clock.antt =====
-- The current era only moves in the hook of a block, and by one.
use massbit_verification.Prelude.{
  ℕ, suc, ◌≤◌, ◌<◌, ◌≡◌, refl, arith, nat_eq, u32_size, inl, inr, ◌-◌,
}
use massbit_verification.Dispatch.{AccountId, Balance, Origin, root, signed, unsigned}
use massbit_verification.Staking.State.{
  ProviderId, Env, State, insert_provider, update_ledger, mutate_era_info, update_staker_info,
  insert_provider_era_stake, deposit_event,
}
use massbit_verification.Staking.Calls
use massbit_verification.Staking.Calls.{pay_from_pallet}
use massbit_verification.Staking.Eras.{on_initialize, rewards}
use massbit_verification.Staking.Registry.{register, unregister}
use massbit_verification.Staking.Registry.Outcomes.{register_outcome, enrolled_state}
use massbit_verification.Staking.Pallet.{
  withdraw_from_unregistered_staker, withdraw_from_unregistered_operator, stake, unstake,
  withdraw_unstaked, claim_staker, claim_operator, force_new_era, Call, Operation, call,
  register_by, unregister_it, reward_with, begin_block, dispatch, step,
}

module _ {B I P : Type 0} (env : Env B I P) where
  pub dispatch-era :
      (c : Call) (o : Origin) (s : State B) → (dispatch env c o s).1.current_era ≡ s.current_era
  unfolding dispatch Calls.stake Calls.unstake Calls.withdraw_unstaked
      Calls.withdraw_from_unregistered_staker Calls.withdraw_from_unregistered_operator
      Calls.claim_staker Calls.claim_operator Calls.force_new_era pay_from_pallet insert_provider
      mutate_era_info update_ledger update_staker_info insert_provider_era_stake deposit_event
  dispatch-era (withdraw_from_unregistered_staker p) (signed a) s = ground arith
  dispatch-era (withdraw_from_unregistered_operator p) (signed a) s = ground arith
  dispatch-era (stake p v) (signed a) s = ground arith
  dispatch-era (unstake p v) (signed a) s = ground arith
  dispatch-era withdraw_unstaked (signed a) s = ground arith
  dispatch-era (claim_staker p) (signed a) s = ground arith
  dispatch-era (claim_operator p e) (signed a) s = ground arith
  dispatch-era force_new_era (signed a) s = refl
  dispatch-era (withdraw_from_unregistered_staker p) root s = refl
  dispatch-era (withdraw_from_unregistered_operator p) root s = refl
  dispatch-era (stake p v) root s = refl
  dispatch-era (unstake p v) root s = refl
  dispatch-era withdraw_unstaked root s = refl
  dispatch-era (claim_staker p) root s = refl
  dispatch-era (claim_operator p e) root s = refl
  dispatch-era force_new_era root s = refl
  dispatch-era (withdraw_from_unregistered_staker p) unsigned s = refl
  dispatch-era (withdraw_from_unregistered_operator p) unsigned s = refl
  dispatch-era (stake p v) unsigned s = refl
  dispatch-era (unstake p v) unsigned s = refl
  dispatch-era withdraw_unstaked unsigned s = refl
  dispatch-era (claim_staker p) unsigned s = refl
  dispatch-era (claim_operator p e) unsigned s = refl
  dispatch-era force_new_era unsigned s = refl

  pub register-era :
      (a : AccountId) (p : ProviderId) (v : Balance) (s : State B)
      → (register env a p v s).1.current_era ≡ s.current_era
  unfolding insert_provider dispatch
  register-era a p v s = elim (register_outcome env a p v s) [
    | inl h ↦ rw h refl
    | inr (inl h) ↦ rw h refl
    | inr (inr (inl (e, h))) ↦ rw h refl
    | inr (inr (inr (fresh, h))) ↦ rw h (
        dispatch-era (stake p (v - env.config.register_deposit)) (signed a)
          (enrolled_state env a p s))
  ]

  pub unregister-era :
      (p : ProviderId) (s : State B) → (unregister env p s).1.current_era ≡ s.current_era
  unfolding unregister insert_provider
  unregister-era p s = ground arith

  pub on_initialize-era :
      (now : ℕ) (s : State B)
      → suc s.current_era < u32_size
      → (on_initialize env now s).1.current_era ≤ suc s.current_era
  unfolding on_initialize deposit_event
  on_initialize-era now s f = ground arith

  pub step-era :
      (op : Operation I) (s : State B)
      → suc s.current_era < u32_size
      → (step env op s).current_era ≤ suc s.current_era
  unfolding step rewards
  step-era (call o c) s f = omega (arith, dispatch-era c o s)
  step-era (register_by a p v) s f = omega (arith, register-era a p v s)
  step-era (unregister_it p) s f = omega (arith, unregister-era p s)
  step-era (reward_with i) s f = omega arith
  step-era (begin_block now) s f = on_initialize-era now s f

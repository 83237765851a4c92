-- ===== src/Staking/Pallet/Totals/Runs.antt =====
-- The totals of a provider hold at all times: every operation keeps them, so every run does.
use massbit_verification.Staking.Pallet.Ledgers.{step-Books}
use massbit_verification.Staking.Pallet.Clock.{step-era}
use massbit_verification.Prelude.{
  suc, ◌-◌, ◌<◌, refl, inl, inr, u32_size, List, ◌+◌, length, ◌∷◌, arith, [],
}
use massbit_verification.Dispatch.{
  AccountId, Balance, Origin, root, signed, unsigned, Result-cases, kept,
}
use massbit_verification.Staking.State.{ProviderId, Env, State, insert_provider, new_provider}
use massbit_verification.Staking.Calls
use massbit_verification.Staking.Calls.Atomic.{
  stake-IsAtomic, unstake-IsAtomic, withdraw_unstaked-IsAtomic, withdraw_staker-IsAtomic,
}
use massbit_verification.Staking.Registry.{register}
use massbit_verification.Staking.Registry.Outcomes.{
  register_outcome, reserved_state, enrolled_state,
}
use massbit_verification.Staking.Pallet.{
  withdraw_from_unregistered_staker, withdraw_from_unregistered_operator, stake, unstake,
  withdraw_unstaked, claim_staker, claim_operator, force_new_era, Operation, call, register_by,
  unregister_it, reward_with, begin_block, dispatch, step, run,
}
use massbit_verification.Staking.Pallet.Books.{Books, untouched-Books}
use massbit_verification.Staking.Pallet.Totals.{Totals}
use massbit_verification.Staking.Pallet.Totals.Parts.{
  parts-Totals, Retires-Totals, claim_staker_parts, withdraw_operator-Retires, unregister-Retires,
  force_new_era_parts, rewards_parts,
}
use massbit_verification.Staking.Pallet.Totals.Stakes.{stake-Totals, unstake-Totals}
use massbit_verification.Staking.Pallet.Totals.Others.{
  provider-Totals, withdraw_unstaked-Totals, withdraw_staker-Totals, claim_staker-Totals,
}
use massbit_verification.Staking.Pallet.Totals.Eras.{on_initialize-Totals, claim_operator-Totals}

module _ {B I P : Type 0} (env : Env B I P) (minimum : 0 < env.config.minimum_staking_amount)
    (few : env.config.max_number_of_stakers_per_provider < u32_size) where
  stake_always :
      (o : Origin) (p : ProviderId) (v : Balance) (s : State B)
      → Books s
      → Totals s
      → Totals (Calls.stake env o p v s).1
  stake_always (signed a) p v s b c =
      kept Totals (Calls.stake env (signed a) p v) s (stake-IsAtomic env (signed a) p v s)
        (λ _ h. stake-Totals env a p v s few b c h) c
  stake_always root p v s b c = unfold Calls.stake in c
  stake_always unsigned p v s b c = unfold Calls.stake in c

  unstake_always :
      (o : Origin) (p : ProviderId) (v : Balance) (s : State B)
      → Books s
      → Totals s
      → Totals (Calls.unstake env o p v s).1
  unstake_always (signed a) p v s b c =
      kept Totals (Calls.unstake env (signed a) p v) s (unstake-IsAtomic env (signed a) p v s)
        (λ _ h. unstake-Totals env a p v s minimum b c h) c
  unstake_always root p v s b c = unfold Calls.unstake in c
  unstake_always unsigned p v s b c = unfold Calls.unstake in c

  withdraw_unstaked_always :
      (o : Origin) (s : State B) → Totals s → Totals (Calls.withdraw_unstaked env o s).1
  withdraw_unstaked_always (signed a) s c =
      kept Totals (Calls.withdraw_unstaked env (signed a)) s
        (withdraw_unstaked-IsAtomic env (signed a) s) (λ _ h. withdraw_unstaked-Totals env a s c h)
        c
  withdraw_unstaked_always root s c = unfold Calls.withdraw_unstaked in c
  withdraw_unstaked_always unsigned s c = unfold Calls.withdraw_unstaked in c

  withdraw_staker_always :
      (o : Origin) (p : ProviderId) (s : State B)
      → Totals s
      → Totals (Calls.withdraw_from_unregistered_staker env o p s).1
  withdraw_staker_always (signed a) p s c =
      kept Totals (Calls.withdraw_from_unregistered_staker env (signed a) p) s
        (withdraw_staker-IsAtomic env (signed a) p s) (λ _ h. withdraw_staker-Totals env a p s c h)
        c
  withdraw_staker_always root p s c = unfold Calls.withdraw_from_unregistered_staker in c
  withdraw_staker_always unsigned p s c = unfold Calls.withdraw_from_unregistered_staker in c

  claim_staker_always :
      (o : Origin) (p : ProviderId) (s : State B)
      → Totals s
      → Totals (Calls.claim_staker env o p s).1
  claim_staker_always (signed a) p s c =
      elim (Result-cases (Calls.claim_staker env (signed a) p s).0) [
        | inl (u, h) ↦ claim_staker-Totals env a p s c h
        | inr (e, h) ↦ parts-Totals s _ (claim_staker_parts env a p s e h) c
      ]
  claim_staker_always root p s c = unfold Calls.claim_staker in c
  claim_staker_always unsigned p s c = unfold Calls.claim_staker in c

  withdraw_operator_always :
      (o : Origin) (p : ProviderId) (s : State B)
      → Totals s
      → Totals (Calls.withdraw_from_unregistered_operator env o p s).1
  withdraw_operator_always (signed a) p s c =
      Retires-Totals p s _ (withdraw_operator-Retires env a p s) c
  withdraw_operator_always root p s c = unfold Calls.withdraw_from_unregistered_operator in c
  withdraw_operator_always unsigned p s c = unfold Calls.withdraw_from_unregistered_operator in c

  register_always :
      (a : AccountId) (p : ProviderId) (v : Balance) (s : State B)
      → Books s
      → Totals s
      → Totals (register env a p v s).1
  unfolding insert_provider
  register_always a p v s b c =
      let r = reserved_state env a s in
      let c' : Totals r = parts-Totals s r (refl, refl, refl, refl) c in
      elim (register_outcome env a p v s) [
        | inl h ↦ rw h c
        | inr (inl h) ↦ rw h c
        | inr (inr (inl (e, h))) ↦ rw h c'
        | inr (inr (inr (fresh, h))) ↦ rw h (
            stake_always (signed a) p (v - env.config.register_deposit) (enrolled_state env a p s)
              (untouched-Books s (enrolled_state env a p s) refl refl b)
              (provider-Totals p (new_provider a) r (λ _. fresh) c'))
      ]

  -- Every operation of the pallet, failed or not, keeps the totals of the providers.
  pub step-Totals :
      (op : Operation I) (s : State B)
      → suc s.current_era < u32_size
      → Books s
      → Totals s
      → Totals (step env op s)
  unfolding step dispatch
  step-Totals (call o (withdraw_from_unregistered_staker p)) s f b c =
      withdraw_staker_always o p s c
  step-Totals (call o (withdraw_from_unregistered_operator p)) s f b c =
      withdraw_operator_always o p s c
  step-Totals (call o (stake p v)) s f b c = stake_always o p v s b c
  step-Totals (call o (unstake p v)) s f b c = unstake_always o p v s b c
  step-Totals (call o withdraw_unstaked) s f b c = withdraw_unstaked_always o s c
  step-Totals (call o (claim_staker p)) s f b c = claim_staker_always o p s c
  step-Totals (call o (claim_operator p e)) s f b c = claim_operator-Totals env o p e s c
  step-Totals (call o force_new_era) s f b c = parts-Totals s _ (force_new_era_parts env o s) c
  step-Totals (register_by a p v) s f b c = register_always a p v s b c
  step-Totals (unregister_it p) s f b c = Retires-Totals p s _ (unregister-Retires env p s) c
  step-Totals (reward_with i) s f b c = parts-Totals s _ (rewards_parts env i s) c
  step-Totals (begin_block now) s f b c = on_initialize-Totals env now s f c

  -- In every run of operations of the pallet, failed ones among them, the total and the number of
  -- stakers kept in the current era for an active provider are what the entries of its stakers
  -- come to; nothing is kept for later eras, nor for a provider that was never registered. The
  -- minimum stake is not zero, the number of stakers for a provider is limited to less
  -- than 2 ^ 32, the books are kept before, and the eras of the run fit into a `u32`.
  pub run-Totals :
      (ops : List (Operation I)) (s : State B)
      → s.current_era + length ops < u32_size
      → Books s
      → Totals s
      → Totals (run env ops s)
  unfolding run
  run-Totals [] s f b c = c
  run-Totals (op ∷ ops) s f b c =
      run-Totals ops (step env op s) (omega (arith, step-era env op s (omega arith)))
        (step-Books env minimum op s b) (step-Totals op s (omega arith) b c)

-- ===== src/Staking/Pallet/Once.antt =====
-- The reward of an operator is paid once for each era, whatever happens in between.
use massbit_verification.Prelude.{
  suc, ◌+◌, ◌<◌, ◌≡◌, List, [], ◌∷◌, arith, true, nat_eq, pair_eq, inl, inr, u32_size, Option-cases,
  some, ltb, Bool-cases, length,
}
use massbit_verification.StorageMap.{lookup, lookup-insert}
use massbit_verification.Dispatch.{
  AccountId, EraIndex, Origin, root, signed, unsigned, ok, err, DispatchError, staking,
  already_claimed_in_this_era, not_operated_provider,
}
use massbit_verification.Staking.State.{
  ProviderId, Env, State, ProviderInfo, provider_stake_info, deposit_event,
  insert_provider_era_stake, operator_stakers_split, ProviderStakeInfo,
}
use massbit_verification.Staking.Calls
use massbit_verification.Staking.Calls.{before_unregistration}
use massbit_verification.Staking.Calls.Atomic.{WithdrawIsAtomic, pay_from_pallet_outcome}
use massbit_verification.Staking.Pallet.Past.{
  KeepsPast, stake-KeepsPast, unstake-KeepsPast, register-KeepsPast, on_initialize-KeepsPast,
}
use massbit_verification.Staking.Eras.{on_initialize, rewards}
use massbit_verification.Staking.Registry.{register, unregister}
use massbit_verification.Staking.Pallet.{
  withdraw_from_unregistered_staker, withdraw_from_unregistered_operator, stake, unstake,
  withdraw_unstaked, claim_staker, claim_operator, force_new_era, Call, Operation, call,
  register_by, unregister_it, reward_with, begin_block, dispatch, step, run,
}
use massbit_verification.Staking.Pallet.Unstaked.{
  withdraw_staker-stakes, withdraw_operator-stakes, withdraw_unstaked-stakes, claim_staker-stakes,
  force_new_era-stakes, unregister-stakes,
}
use massbit_verification.Staking.Pallet.Clock.{dispatch-era, unregister-era, step-era}
use massbit_verification.Staking.Pallet.Totals.Eras.{claim_operator_writes}

-- The era has passed, and the operator's reward for it has been claimed.
abbrev pub IsClaimed : {B : Type 0} → ProviderId → EraIndex → State B → Type 0
IsClaimed p era s =
    (era < s.current_era) × ((provider_stake_info p era s).provider_reward_claimed ≡ true)

KeepsPast-IsClaimed :
    {B : Type 0} (p : ProviderId) (era : EraIndex) (s t : State B)
    → KeepsPast s t
    → IsClaimed p era s
    → IsClaimed p era t
unfolding provider_stake_info
KeepsPast-IsClaimed p era s t (later, same) (past, marked) =
    (omega arith, ground (arith, same p era past, marked))

same-IsClaimed :
    {B : Type 0} (p : ProviderId) (era : EraIndex) (s t : State B)
    → t.current_era ≡ s.current_era
    → t.provider_era_stake ≡ s.provider_era_stake
    → IsClaimed p era s
    → IsClaimed p era t
unfolding provider_stake_info
same-IsClaimed p era s t now same (past, marked) =
    (omega (arith, now), ground (arith, same, marked))

module _ {B I P : Type 0} (env : Env B I P) where
  -- The claim of the era has been marked, and nothing else speaks against it.
  record Claimed (p : ProviderId) (era : EraIndex) (t : State B) : Type 0 where
    provider : ProviderInfo
    known : lookup p t.registered_providers ≡ some provider
    before : before_unregistration era provider.state ≡ true
    past : ltb era t.current_era ≡ true
    marked : (provider_stake_info p era t).provider_reward_claimed ≡ true

  Claimed-refused :
      (b : AccountId) (p : ProviderId) (era : EraIndex) (t : State B)
      → Claimed p era t
      → Calls.claim_operator env (signed b) p era t ≡ (err (staking already_claimed_in_this_era), t)
  unfolding Calls.claim_operator
  Claimed-refused b p era t c = ground (arith, c.known, c.before, c.past, c.marked)

  claim_operator-Claimed :
      WithdrawIsAtomic env.currency
      → (a : AccountId) (p : ProviderId) (era : EraIndex) (s : State B)
      → (Calls.claim_operator env (signed a) p era s).0 ≡ ok tt
      → Claimed p era (Calls.claim_operator env (signed a) p era s).1
  unfolding Calls.claim_operator provider_stake_info deposit_event insert_provider_era_stake
  claim_operator-Claimed atomic a p era s h =
      elim (Option-cases (lookup p s.registered_providers)) [
        | inl missing ↦ absurd (ground arith)
        | inr (x, known) ↦ elim (Option-cases (lookup era s.general_era_info)) [
          | inl missing ↦ absurd (ground arith)
          | inr (y, held) ↦
              let paid =
                pay_from_pallet_outcome env atomic x.operator
                  (operator_stakers_split env (provider_stake_info p era s) y).0 s in
              let info = provider_stake_info p era s in
              let written =
                lookup-insert (p, era) (p, era) (record info { provider_reward_claimed = true })
                  s.provider_era_stake in
              record {
                provider = x;
                known = ground (arith, paid);
                before = ground (arith, paid);
                past = ground (arith, paid);
                marked = ground (arith, paid, written);
              }
        ]
      ]

  claim_operator-IsClaimed :
      (o : Origin) (q : ProviderId) (e : EraIndex) (p : ProviderId) (era : EraIndex) (s : State B)
      → IsClaimed p era s
      → IsClaimed p era (Calls.claim_operator env o q e s).1
  unfolding provider_stake_info
  claim_operator-IsClaimed (signed a) q e p era s (past, marked) =
      let k : ProviderStakeInfo = record (provider_stake_info q e s) {
        provider_reward_claimed = true;
      } in
      let (same_era, _, _, stakes) = claim_operator_writes env a q e s in
      elim stakes [
        | inl same ↦ (omega (arith, same_era), ground (arith, same, marked))
        | inr (_, written) ↦ (
          omega (arith, same_era),
          ground (arith, written, marked, lookup-insert (q, e) (p, era) k s.provider_era_stake),
        )
      ]
  claim_operator-IsClaimed root q e p era s c = unfold Calls.claim_operator in c
  claim_operator-IsClaimed unsigned q e p era s c = unfold Calls.claim_operator in c

  dispatch-IsClaimed :
      (c : Call) (o : Origin) (p : ProviderId) (era : EraIndex) (s : State B)
      → IsClaimed p era s
      → IsClaimed p era (dispatch env c o s).1
  unfolding dispatch
  dispatch-IsClaimed (stake q v) o p era s m =
      KeepsPast-IsClaimed p era s (Calls.stake env o q v s).1 (stake-KeepsPast env o q v s) m
  dispatch-IsClaimed (unstake q v) o p era s m =
      KeepsPast-IsClaimed p era s (Calls.unstake env o q v s).1 (unstake-KeepsPast env o q v s) m
  dispatch-IsClaimed (claim_operator q e) o p era s m = claim_operator-IsClaimed o q e p era s m
  dispatch-IsClaimed (withdraw_from_unregistered_staker q) o p era s m =
      same-IsClaimed p era s (Calls.withdraw_from_unregistered_staker env o q s).1
        (dispatch-era env (withdraw_from_unregistered_staker q) o s)
        (withdraw_staker-stakes env o q s) m
  dispatch-IsClaimed (withdraw_from_unregistered_operator q) o p era s m =
      same-IsClaimed p era s (Calls.withdraw_from_unregistered_operator env o q s).1
        (dispatch-era env (withdraw_from_unregistered_operator q) o s)
        (withdraw_operator-stakes env o q s) m
  dispatch-IsClaimed withdraw_unstaked o p era s m =
      same-IsClaimed p era s (Calls.withdraw_unstaked env o s).1
        (dispatch-era env withdraw_unstaked o s) (withdraw_unstaked-stakes env o s) m
  dispatch-IsClaimed (claim_staker q) o p era s m =
      same-IsClaimed p era s (Calls.claim_staker env o q s).1
        (dispatch-era env (claim_staker q) o s) (claim_staker-stakes env o q s) m
  dispatch-IsClaimed force_new_era o p era s m =
      same-IsClaimed p era s (Calls.force_new_era env o s).1 (dispatch-era env force_new_era o s)
        (force_new_era-stakes env o s) m

  step-IsClaimed :
      (op : Operation I) (p : ProviderId) (era : EraIndex) (s : State B)
      → suc s.current_era < u32_size
      → IsClaimed p era s
      → IsClaimed p era (step env op s)
  unfolding step rewards provider_stake_info
  step-IsClaimed (call o c) p era s f m = dispatch-IsClaimed c o p era s m
  step-IsClaimed (register_by a q v) p era s f m =
      KeepsPast-IsClaimed p era s (register env a q v s).1 (register-KeepsPast env a q v s) m
  step-IsClaimed (unregister_it q) p era s f m =
      same-IsClaimed p era s (unregister env q s).1 (unregister-era env q s)
        (unregister-stakes env q s) m
  step-IsClaimed (reward_with i) p era s f m = m
  step-IsClaimed (begin_block now) p era s f m =
      KeepsPast-IsClaimed p era s (on_initialize env now s).1 (on_initialize-KeepsPast env now s f)
        m

  run-IsClaimed :
      (ops : List (Operation I)) (p : ProviderId) (era : EraIndex) (s : State B)
      → s.current_era + length ops < u32_size
      → IsClaimed p era s
      → IsClaimed p era (run env ops s)
  unfolding run
  run-IsClaimed [] p era s f m = m
  run-IsClaimed (op ∷ ops) p era s f m =
      let late = step-era env op s (omega arith) in
      run-IsClaimed ops p era (step env op s) (omega (arith, late))
        (step-IsClaimed op p era s (omega arith) m)

  -- Whatever became of the provider, a claim is refused.
  IsClaimed-refused :
      (b : AccountId) (p : ProviderId) (era : EraIndex) (s : State B)
      → IsClaimed p era s
      → (e : DispatchError) × (Calls.claim_operator env (signed b) p era s ≡ (err e, s))
  unfolding Calls.claim_operator
  IsClaimed-refused b p era s (past, marked) =
      elim (Option-cases (lookup p s.registered_providers)) [
        | inl missing ↦ (staking not_operated_provider, ground arith)
        | inr (x, known) ↦ elim (Bool-cases (before_unregistration era x.state)) [
          | inl before ↦ (staking already_claimed_in_this_era, ground (arith, marked))
          | inr late ↦ (staking not_operated_provider, ground arith)
        ]
      ]

  -- An operator's reward for an era is paid once. After a claim that succeeds, a claim right after
  -- for this provider and era is refused as already claimed, whoever signs it, and changes
  -- nothing. After whatever operations of the pallet follow, new eras and the provider's
  -- end included, each further claim for this provider and era is still refused and changes
  -- nothing, as long as the eras fit into a `u32`. A withdrawal of the currency that fails is taken
  -- to change nothing.
  pub claim_operator_once :
      WithdrawIsAtomic env.currency
      → (a b : AccountId) (p : ProviderId) (era : EraIndex) (s : State B)
      → (Calls.claim_operator env (signed a) p era s).0 ≡ ok tt
      → let t = (Calls.claim_operator env (signed a) p era s).1 in
        (Calls.claim_operator env (signed b) p era t
          ≡ (err (staking already_claimed_in_this_era), t))
        × ((ops : List (Operation I))
            → s.current_era + length ops < u32_size
            → (e : DispatchError) × (Calls.claim_operator env (signed b) p era (run env ops t)
                ≡ (err e, run env ops t)))
  claim_operator_once atomic a b p era s h =
      let t = (Calls.claim_operator env (signed a) p era s).1 in
      let now = (claim_operator_writes env a p era s).0 in
      let c = claim_operator-Claimed atomic a p era s h in
      (
        Claimed-refused b p era t c,
        λ ops f.
            IsClaimed-refused b p era (run env ops t)
              (run-IsClaimed ops p era t (omega (arith, now)) (ground (arith, c.past), c.marked)),
      )

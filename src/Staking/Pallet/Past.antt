-- ===== src/Staking/Pallet/Past.antt =====
-- Stakes, registrations and new eras keep the stakes of providers in the eras that have passed.
use massbit_verification.Prelude.{
  ℕ, suc, ◌≤◌, ◌<◌, ◌≡◌, [], ◌∷◌, arith, false, nat_eq, pair_eq, nat_beq, inl, inr, u32_size, min,
  ◌-◌, Option-cases, refl, ◌∙◌, add_u32,
}
use massbit_verification.StorageMap.{lookup, lookup-insert, StorageMap}
use massbit_verification.Dispatch.{
  AccountId, Balance, EraIndex, Origin, root, signed, unsigned, Result-cases,
}
use massbit_verification.Staking.State.{
  ProviderId, Env, State, DbWeight, ProviderInfo, insert_provider, deposit_event, ledger_of,
  available_staking_balance,
}
use massbit_verification.Staking.Calls
use massbit_verification.Staking.Calls.Atomic.{stake-IsAtomic, unstake-IsAtomic}
use massbit_verification.Staking.Calls.Outcomes.{stake_outcome, unstake_outcome}
use massbit_verification.Staking.Eras.{
  EraStakes, rotate_provider, rotate_loop, rotate_staking_info, on_initialize,
}
use massbit_verification.Staking.Registry.{register}
use massbit_verification.Staking.Registry.Outcomes.{register_outcome, enrolled_state}
use massbit_verification.Staking.Pallet.Totals.Stakes.{
  staked_info, unstaked_info, staked_state-rest, unstaked_state-rest,
}

-- The rotation writes the entries of the next era only.
module _ (w : DbWeight) (era next : EraIndex) where
  rotate_provider_elsewhere :
      (p : ProviderId) (x : ProviderInfo) (weight : ℕ) (stakes : EraStakes) (q : ProviderId)
      (e : EraIndex)
      → nat_beq next e ≡ false
      → lookup (q, e) (rotate_provider w era next p x.state (weight, stakes)).1
        ≡ lookup (q, e) stakes
  unfolding rotate_provider
  rotate_provider_elsewhere p x weight stakes q e h = elim (Option-cases (lookup (p, era) stakes)) [
    | inl missing ↦ ground arith
    | inr (info, found) ↦ ground (
      arith,
      lookup-insert (p, next) (q, e) (record info { provider_reward_claimed = false }) stakes,
    )
  ]

  rotate_loop_elsewhere :
      (ps : StorageMap ProviderId ProviderInfo) (weight : ℕ) (stakes : EraStakes) (q : ProviderId)
      (e : EraIndex)
      → nat_beq next e ≡ false
      → lookup (q, e) (rotate_loop w era next ps (weight, stakes)).1 ≡ lookup (q, e) stakes
  unfolding rotate_loop
  rotate_loop_elsewhere [] weight stakes q e h = refl
  rotate_loop_elsewhere ((p, x) ∷ ps) weight stakes q e h =
      let (weight', stakes') = rotate_provider w era next p x.state (weight, stakes) in
      rotate_loop_elsewhere ps weight' stakes' q e h
      ∙ rotate_provider_elsewhere p x weight stakes q e h

-- From `s` to `t` the eras that have passed keep their entries.
abbrev pub KeepsPast : {B : Type 0} → State B → State B → Type 0
KeepsPast s t =
    (s.current_era ≤ t.current_era)
    × ((q : ProviderId) (e : EraIndex)
        → e < s.current_era
        → lookup (q, e) t.provider_era_stake ≡ lookup (q, e) s.provider_era_stake)

module _ {B I P : Type 0} (env : Env B I P) where
  pub stake-KeepsPast :
      (o : Origin) (p : ProviderId) (v : Balance) (s : State B)
      → KeepsPast s (Calls.stake env o p v s).1
  unfolding staked_info
  stake-KeepsPast (signed a) p v s = elim (Result-cases (Calls.stake env (signed a) p v s).0) [
    | inl (u, h) ↦
        let (i, _, _, _, _, _, _, after) = stake_outcome env a p v s h in
        let (_, same_era, at) =
          staked_state-rest env a p (min v (available_staking_balance env a (ledger_of a s) s)) i
            s in
        rw after (omega (arith, same_era), λ q e k. ground (arith, at q e))
    | inr (e, h) ↦ rw (stake-IsAtomic env (signed a) p v s e h) (omega arith, λ q e k. refl)
  ]
  stake-KeepsPast root p v s = unfold Calls.stake in (omega arith, λ q e k. refl)
  stake-KeepsPast unsigned p v s = unfold Calls.stake in (omega arith, λ q e k. refl)

  pub unstake-KeepsPast :
      (o : Origin) (p : ProviderId) (v : Balance) (s : State B)
      → KeepsPast s (Calls.unstake env o p v s).1
  unfolding unstaked_info
  unstake-KeepsPast (signed a) p v s = elim (Result-cases (Calls.unstake env (signed a) p v s).0) [
    | inl (u, h) ↦
        let (i, _, _, _, _, after) = unstake_outcome env a p v s h in
        let (_, same_era, at) = unstaked_state-rest env a p v i s in
        rw after (omega (arith, same_era), λ q e k. ground (arith, at q e))
    | inr (e, h) ↦ rw (unstake-IsAtomic env (signed a) p v s e h) (omega arith, λ q e k. refl)
  ]
  unstake-KeepsPast root p v s = unfold Calls.unstake in (omega arith, λ q e k. refl)
  unstake-KeepsPast unsigned p v s = unfold Calls.unstake in (omega arith, λ q e k. refl)

  pub register-KeepsPast :
      (a : AccountId) (p : ProviderId) (v : Balance) (s : State B)
      → KeepsPast s (register env a p v s).1
  unfolding insert_provider
  register-KeepsPast a p v s = elim (register_outcome env a p v s) [
    | inl h ↦ rw h (omega arith, λ q e k. refl)
    | inr (inl h) ↦ rw h (omega arith, λ q e k. refl)
    | inr (inr (inl (e, h))) ↦ rw h (omega arith, λ q e k. refl)
    | inr (inr (inr (fresh, h))) ↦
        rw h (
          stake-KeepsPast (signed a) p (v - env.config.register_deposit) (enrolled_state env a p s))
  ]

  pub on_initialize-KeepsPast :
      (now : ℕ) (s : State B)
      → suc s.current_era < u32_size
      → KeepsPast s (on_initialize env now s).1
  unfolding on_initialize deposit_event rotate_staking_info
  on_initialize-KeepsPast now s f = (
    ground arith,
    λ q e k.
        let next : add_u32 s.current_era 1 ≡ suc s.current_era = omega arith in
        ground (
          arith,
          next,
          rotate_loop_elsewhere env.db_weight s.current_era (suc s.current_era)
              s.registered_providers 0 s.provider_era_stake q e (ground arith),
        ),
  )

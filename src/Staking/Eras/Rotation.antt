-- ===== src/Staking/Eras/Rotation.antt =====
-- The end of an era: what carries over to the next one, and that the reward pool loses nothing.
use massbit_verification.Currency.{PerbillLaws}
use massbit_verification.Prelude.{
  refl, ℕ, ◌≡◌, Option, none, some, false, ◌&&◌, arith, nat_eq, pair_eq, nat_beq, if◌then◌else◌,
  Option-cases, inl, inr, suc, ◌<◌, ◌∷◌, [], u32_size, true, add_u32, nat_beq_iff, ◌+◌, u128_size,
}
use massbit_verification.StorageMap.{lookup, lookup-insert, IsDistinct, insert}
use massbit_verification.Dispatch.{EraIndex}
use massbit_verification.Staking.State.{
  ProviderId, DbWeight, ProviderState, registered, unregistered, is_registered, ProviderStakeInfo,
  is_active_provider, active_info, deposit_event, unwrap_or, no_era_info, no_rewards, not_forcing,
  EraInfo,
}
use massbit_verification.Staking.Eras.{
  EraStakes, rotate_provider, rotate_loop, Env, rotate_staking_info, on_initialize, StorageMap,
  ProviderInfo, State, rewards, begins_era,
}

-- What a provider starts the next era with: its stake, with the operator's reward not claimed yet,
-- or what was there before.
abbrev pub carried : Option ProviderStakeInfo → Option ProviderStakeInfo → Option ProviderStakeInfo
carried none before = before
carried (some info) before = some (record info { provider_reward_claimed = false })

module _ (w : DbWeight) (era next : EraIndex) (ahead : nat_beq era next ≡ false) where
  rotate_provider-lookup :
      (p : ProviderId) (st : ProviderState) (weight : ℕ) (stakes : EraStakes) (q : ProviderId)
      (e : EraIndex)
      → lookup (q, e) (rotate_provider w era next p st (weight, stakes)).1 ≡ (
          if nat_beq p q && (nat_beq next e && is_registered st)
          then carried (lookup (p, era) stakes) (lookup (q, e) stakes)
          else lookup (q, e) stakes)
  unfolding rotate_provider
  rotate_provider-lookup p (unregistered d) weight stakes q e = ground arith
  rotate_provider-lookup p registered weight stakes q e =
      elim (Option-cases (lookup (p, era) stakes)) [
        | inl missing ↦ ground arith
        | inr (info, found) ↦ ground (
          arith,
          lookup-insert (p, next) (q, e) (record info { provider_reward_claimed = false }) stakes,
        )
      ]

  rotate_loop-lookup :
      (ps : StorageMap ProviderId ProviderInfo) (weight : ℕ) (stakes : EraStakes) (q : ProviderId)
      (e : EraIndex)
      → IsDistinct ps
      → lookup (q, e) (rotate_loop w era next ps (weight, stakes)).1 ≡ (
          if nat_beq next e && active_info (lookup q ps)
          then carried (lookup (q, era) stakes) (lookup (q, e) stakes)
          else lookup (q, e) stakes)
  unfolding rotate_loop lookup
  rotate_loop-lookup [] weight stakes q e d = ground arith
  rotate_loop-lookup ((p, info) ∷ ps) weight stakes q e d =
      let (weight', stakes') = rotate_provider w era next p info.state (weight, stakes) in
      ground (
        arith,
        rotate_loop-lookup ps weight' stakes' q e d.1,
        rotate_provider-lookup p info.state weight stakes q e,
        rotate_provider-lookup p info.state weight stakes q era,
        nat_beq_iff p q,
        nat_beq_iff next e,
        nat_beq_iff next era,
        nat_beq_iff era next,
      )

module _ {B I P : Type 0} (env : Env B I P) where
  pub rotate_staking_info_copies :
      (era : EraIndex) (s : State B) (q : ProviderId) (e : EraIndex)
      → IsDistinct s.registered_providers
      → suc era < u32_size
      → lookup (q, e) (rotate_staking_info env era s).1.provider_era_stake ≡ (
          if nat_beq (suc era) e && is_active_provider q s
          then carried (lookup (q, era) s.provider_era_stake) (lookup (q, e) s.provider_era_stake)
          else lookup (q, e) s.provider_era_stake)
  unfolding rotate_staking_info is_active_provider
  rotate_staking_info_copies era s q e d f =
      let next : add_u32 era 1 ≡ suc era = omega arith in
      rw next (
        rotate_loop-lookup env.db_weight era (suc era) (ground arith) s.registered_providers 0
          s.provider_era_stake q e d)

  -- A new era counts one up, takes over the staked and the locked total of the era before, for
  -- which it books the whole reward pool, and empties the pool; forcing ends. The infos of other
  -- eras stay. This holds while the next era fits into a `u32`.
  pub new_era_takes_over :
      (now : ℕ) (s : State B)
      → begins_era env now s ≡ true
      → suc s.current_era < u32_size
      → let t = (on_initialize env now s).1 in
        let old = unwrap_or no_era_info (lookup s.current_era s.general_era_info) in
        (t.current_era ≡ suc s.current_era)
        × (t.block_reward_accumulator ≡ no_rewards)
        × (t.force_era ≡ not_forcing)
        × (t.ledger ≡ s.ledger)
        × ((e : EraIndex)
            → lookup e t.general_era_info ≡ (
                if nat_beq s.current_era e
                then some (record old { rewards = s.block_reward_accumulator })
                else if nat_beq (suc s.current_era) e
                then some
                    (record { rewards = no_rewards; staked = old.staked; locked = old.locked })
                else lookup e s.general_era_info))
  unfolding on_initialize deposit_event
  new_era_takes_over now s h f =
      let old = unwrap_or no_era_info (lookup s.current_era s.general_era_info) in
      let here : EraInfo = record old { rewards = s.block_reward_accumulator } in
      let next : EraInfo = record {
        rewards = no_rewards;
        staked = old.staked;
        locked = old.locked;
      } in
      let m = insert (suc s.current_era) next s.general_era_info in
      (
        ground arith,
        ground arith,
        ground arith,
        ground arith,
        λ e. ground (
          arith,
          lookup-insert s.current_era e here m,
          lookup-insert (suc s.current_era) e next s.general_era_info,
        ),
      )

  -- Between two eras the hook changes nothing.
  pub on_initialize_idle :
      (now : ℕ) (s : State B) → begins_era env now s ≡ false → (on_initialize env now s).1 ≡ s
  unfolding on_initialize
  on_initialize_idle now s h = ground arith

  -- Whatever amount comes into the reward pool is put aside in full: the parts of the operators and
  -- of the stakers grow by the amount together, and the imbalance goes to the pallet's account.
  -- Fractions are at most one, and the pool fits into a `u128`.
  pub rewards_conserved :
      (laws : PerbillLaws env.perbill) (i : I) (s : State B)
      → s.block_reward_accumulator.operators
          + s.block_reward_accumulator.stakers
          + env.currency.peek i
        < u128_size
      → let t = rewards env i s in
        (t.block_reward_accumulator.operators + t.block_reward_accumulator.stakers
          ≡ s.block_reward_accumulator.operators
            + s.block_reward_accumulator.stakers
            + env.currency.peek i)
        × (t.bank ≡ env.currency.resolve_creating env.config.pallet_account i s.bank)
  unfolding rewards
  rewards_conserved laws i s h = (
    ground (arith, laws.of_amount-le env.config.operator_reward_percentage (env.currency.peek i)),
    refl,
  )

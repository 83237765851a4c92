-- ===== src/Staking/Pallet/Totals/Eras.antt =====
-- A new era keeps the totals of a provider, and so do the claims of operators.
use massbit_verification.Staking.Pallet.Totals.Others.{same-Totals}
use massbit_verification.Staking.Calls.{claim_operator, pay_from_pallet}
use massbit_verification.Staking.Pallet.Totals.{sums_cong, Totals}
use massbit_verification.Prelude.{
  ℕ, suc, ◌<◌, ◌≡◌, true, arith, nat_eq, pair_eq, nat_beq, if◌then◌else◌, ◌&&◌, u32_size, add_u32,
  Bool-cases, inl, inr, ◌⊎◌,
}
use massbit_verification.StorageMap.{lookup, IsDistinct, insert, lookup-insert}
use massbit_verification.Dispatch.{root, unsigned, EraIndex, Origin, signed, AccountId}
use massbit_verification.Staking.State.{
  ProviderId, Env, State, is_active_provider, deposit_event, no_rewards, provider_stake_info,
  insert_provider_era_stake, ProviderStakeInfo,
}
use massbit_verification.Staking.Eras.{on_initialize, begins_era, reward_balance_snapshot}
use massbit_verification.Staking.Eras.Rotation.{
  rotate_staking_info_copies, carried, on_initialize_idle,
}

module _ {B I P : Type 0} (env : Env B I P) where
  -- The stakes at the start of an era.
  begun :
      (now : ℕ) (s : State B)
      → begins_era env now s ≡ true
      → suc s.current_era < u32_size
      → IsDistinct s.registered_providers
      → let t = (on_initialize env now s).1 in
        (t.current_era ≡ suc s.current_era)
        × (t.registered_providers ≡ s.registered_providers)
        × (t.general_staker_info ≡ s.general_staker_info)
        × ((q : ProviderId) (e : EraIndex)
            → lookup (q, e) t.provider_era_stake ≡ (
                if nat_beq (suc s.current_era) e && is_active_provider q s
                then carried
                    (lookup (q, s.current_era) s.provider_era_stake)
                    (lookup (q, e) s.provider_era_stake)
                else lookup (q, e) s.provider_era_stake))
  unfolding on_initialize deposit_event is_active_provider
  begun now s h f d =
      let s₁ : State B = record s {
        current_era = add_u32 s.current_era 1;
        block_reward_accumulator = no_rewards;
      } in
      let s₂ = reward_balance_snapshot env s.current_era s.block_reward_accumulator s₁ in
      (
        ground arith,
        ground arith,
        ground arith,
        λ q e. ground (arith, rotate_staking_info_copies env s.current_era s₂ q e d f),
      )

  begun-Totals :
      (now : ℕ) (s : State B)
      → begins_era env now s ≡ true
      → suc s.current_era < u32_size
      → Totals s
      → Totals (on_initialize env now s).1
  unfolding is_active_provider provider_stake_info
  begun-Totals now s h f b =
      let t = (on_initialize env now s).1 in
      let (era, provs, infos, stakes) = begun now s h f b.providers in
      record {
        entries = rw infos b.entries;
        providers = rw provs b.providers;
        ahead = λ p e k. ground (arith, era, stakes p e, b.ahead p e);
        unknown = λ p k. ground (
          arith,
          era,
          provs,
          stakes p (suc s.current_era),
          b.ahead p (suc s.current_era),
          b.unknown p,
          sums_cong p s t infos,
        );
        covers = λ p k. ground (
          arith,
          era,
          provs,
          stakes p (suc s.current_era),
          b.ahead p (suc s.current_era),
          b.covers p,
          sums_cong p s t infos,
        );
      }

  pub on_initialize-Totals :
      (now : ℕ) (s : State B)
      → suc s.current_era < u32_size
      → Totals s
      → Totals (on_initialize env now s).1
  on_initialize-Totals now s f b = elim (Bool-cases (begins_era env now s)) [
    | inl h ↦ begun-Totals now s h f b
    | inr h ↦ rw (on_initialize_idle env now s h) b
  ]

  -- What a claim of an operator writes: a mark on the stake of an era that has passed.
  pub claim_operator_writes :
      (a : AccountId) (p : ProviderId) (era : EraIndex) (s : State B)
      → let t = (claim_operator env (signed a) p era s).1 in
        let k : ProviderStakeInfo = record (provider_stake_info p era s) {
          provider_reward_claimed = true;
        } in
        (t.current_era ≡ s.current_era)
        × (t.registered_providers ≡ s.registered_providers)
        × (t.general_staker_info ≡ s.general_staker_info)
        × ((t.provider_era_stake ≡ s.provider_era_stake)
            ⊎ ((era < s.current_era)
                × (t.provider_era_stake ≡ insert (p, era) k s.provider_era_stake)))
  unfolding claim_operator pay_from_pallet insert_provider_era_stake deposit_event
  claim_operator_writes a p era s = ground arith

  pub claim_operator-Totals :
      (o : Origin) (p : ProviderId) (era : EraIndex) (s : State B)
      → Totals s
      → Totals (claim_operator env o p era s).1
  unfolding is_active_provider provider_stake_info
  claim_operator-Totals (signed a) p era s b =
      let t = (claim_operator env (signed a) p era s).1 in
      let k : ProviderStakeInfo = record (provider_stake_info p era s) {
        provider_reward_claimed = true;
      } in
      let (now, provs, infos, stakes) = claim_operator_writes a p era s in
      elim stakes [
        | inl same ↦ same-Totals s t now provs same infos b
        | inr (past, marked) ↦
            let at = λ (q : ProviderId) (e : EraIndex).
              lookup-insert (p, era) (q, e) k s.provider_era_stake in
            record {
              entries = rw infos b.entries;
              providers = rw provs b.providers;
              ahead = λ q e h. ground (arith, now, marked, b.ahead q e, at q e);
              unknown = λ q h. ground (
                arith,
                now,
                provs,
                marked,
                b.unknown q,
                at q s.current_era,
                sums_cong q s t infos,
              );
              covers = λ q h. ground (
                arith,
                now,
                provs,
                marked,
                b.covers q,
                at q s.current_era,
                sums_cong q s t infos,
              );
            }
      ]
  claim_operator-Totals root p era s b = unfold claim_operator in b
  claim_operator-Totals unsigned p era s b = unfold claim_operator in b

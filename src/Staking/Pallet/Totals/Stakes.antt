-- ===== src/Staking/Pallet/Totals/Stakes.antt =====
-- Staking and unstaking keep the totals of a provider.
use massbit_verification.Staking.Unbonding.{AccountLedger}
use massbit_verification.Prelude.{
  ◌+◌, ◌-◌, ◌<◌, ◌≡◌, true, some, arith, nat_eq, pair_eq, pair_beq, min, Option-cases, inl, inr,
  if◌then◌else◌, u32_size,
}
use massbit_verification.StorageMap.{lookup, lookup-insert}
use massbit_verification.Dispatch.{AccountId, Balance, EraIndex, signed, ok}
use massbit_verification.Staking.StakerInfo.{StakerInfo, latest_staked_value}
use massbit_verification.Staking.StakerInfo.History.{
  stake_adds, unstake_subtracts, latest_staked_value_lem,
}
use massbit_verification.Staking.State.{
  ProviderId, Env, State, ProviderInfo, ProviderStakeInfo, ledger_of, staker_info,
  provider_stake_info, is_active_provider, deposit_event, insert_provider_era_stake,
  update_staker_info, mutate_era_info, update_ledger, available_staking_balance,
}
use massbit_verification.Staking.State.Access.{
  mutate_era_info_rest, update_ledger_rest, latest_no_stakes,
}
use massbit_verification.Staking.Calls.{stake, unstake, add_staked, sub_staked}
use massbit_verification.Staking.Calls.Outcomes.{
  stake_outcome, staked_state, stakers_after, unstake_outcome, unstaked_state, unstaked_value,
  stakers_left, unlocking,
}
use massbit_verification.Staking.Pallet.Books.{Books, latest-add-unbonding-le}
use massbit_verification.Staking.Pallet.Preservation.{
  staked_state-infos, unstaked_state-infos, unstaked-le,
}
use massbit_verification.Staking.Pallet.Totals.{Totals, written-Totals, is_staker_none}
use massbit_verification.Staking.State.Sums.{is_staker, staker-le-sum_on}

active-known :
    {B : Type 0} (p : ProviderId) (s : State B)
    → is_active_provider p s ≡ true
    → (x : ProviderInfo) × (lookup p s.registered_providers ≡ some x)
unfolding is_active_provider
active-known p s h = elim (Option-cases (lookup p s.registered_providers)) [
  | inl missing ↦ absurd (ground arith)
  | inr found ↦ found
]

module _ {B I P : Type 0} (env : Env B I P) where
  unfoldable pub staked_info : ProviderId → Balance → AccountId → State B → ProviderStakeInfo
  staked_info p v a s =
      let k = provider_stake_info p s.current_era s in
      record k { total = k.total + v; number_of_stakers = stakers_after env (staker_info a p s) k }

  pub staked_state-rest :
      (a : AccountId) (p : ProviderId) (v : Balance) (i : StakerInfo) (s : State B)
      → let t = staked_state env a p v i s in
        (t.registered_providers ≡ s.registered_providers)
        × (t.current_era ≡ s.current_era)
        × ((q : ProviderId) (e : EraIndex)
            → lookup (q, e) t.provider_era_stake ≡ (
                if pair_beq (p, s.current_era) (q, e)
                then some (staked_info p v a s)
                else lookup (q, e) s.provider_era_stake))
  unfolding staked_info deposit_event insert_provider_era_stake update_staker_info
  staked_state-rest a p v i s =
      let m = mutate_era_info s.current_era (add_staked v) s in
      let l : AccountLedger = record (ledger_of a s) { locked = (ledger_of a s).locked + v } in
      let f = mutate_era_info_rest s.current_era (add_staked v) s in
      let g = update_ledger_rest env a l m in
      (
        ground (arith, f, g),
        ground (arith, f, g),
        λ q e. ground (
          arith,
          f,
          g,
          lookup-insert (p, s.current_era) (q, e) (staked_info p v a s) s.provider_era_stake,
        ),
      )

  -- A new staker is taken only if there is room.
  stake_room :
      (a : AccountId) (p : ProviderId) (value : Balance) (s : State B)
      → (stake env (signed a) p value s).0 ≡ ok tt
      → latest_staked_value (staker_info a p s) ≡ 0
      → (provider_stake_info p s.current_era s).number_of_stakers
        < env.config.max_number_of_stakers_per_provider
  unfolding stake
  stake_room a p value s h = ground arith

  pub stake-Totals :
      (a : AccountId) (p : ProviderId) (value : Balance) (s : State B)
      → env.config.max_number_of_stakers_per_provider < u32_size
      → Books s
      → Totals s
      → (stake env (signed a) p value s).0 ≡ ok tt
      → Totals (stake env (signed a) p value s).1
  unfolding staked_info
  stake-Totals a p value s few b c h =
      let v = min value (available_staking_balance env a (ledger_of a s) s) in
      let (i, taken, pos, fits, _, active, least, after) = stake_outcome env a p value s h in
      let (x, known) = active-known p s active in
      let rest = staked_state-rest a p v i s in
      let adds =
        stake_adds 0 (staker_info a p s) s.current_era v (b.rising a p) (omega arith)
          (omega (arith, latest-add-unbonding-le a p s b)) taken in
      rw after (
        written-Totals a p x i (some (staked_info p v a s)) s (staked_state env a p v i s) known
          rest.0 rest.1 (staked_state-infos env a p v i s) rest.2
          (λ _. (
            omega (arith, adds.1, latest_staked_value_lem i),
            ground (arith, adds.1, latest_staked_value_lem i, stake_room a p value s h),
          ))
          c)

  unfoldable pub unstaked_info : ProviderId → Balance → AccountId → State B → ProviderStakeInfo
  unstaked_info p value a s =
      let old = latest_staked_value (staker_info a p s) in
      let k = provider_stake_info p s.current_era s in
      record k {
        total = k.total - unstaked_value env old value;
        number_of_stakers = stakers_left env old value k.number_of_stakers;
      }

  pub unstaked_state-rest :
      (a : AccountId) (p : ProviderId) (value : Balance) (i : StakerInfo) (s : State B)
      → let t = unstaked_state env a p value i s in
        (t.registered_providers ≡ s.registered_providers)
        × (t.current_era ≡ s.current_era)
        × ((q : ProviderId) (e : EraIndex)
            → lookup (q, e) t.provider_era_stake ≡ (
                if pair_beq (p, s.current_era) (q, e)
                then some (unstaked_info p value a s)
                else lookup (q, e) s.provider_era_stake))
  unfolding unstaked_info deposit_event insert_provider_era_stake update_staker_info
  unstaked_state-rest a p value i s =
      let v = unstaked_value env (latest_staked_value (staker_info a p s)) value in
      let l : AccountLedger = record (ledger_of a s) {
        unbonding_info = unlocking env v (ledger_of a s) s;
      } in
      let f = mutate_era_info_rest s.current_era (sub_staked v) (update_ledger env a l s) in
      let g = update_ledger_rest env a l s in
      (
        ground (arith, f, g),
        ground (arith, f, g),
        λ q e. ground (
          arith,
          f,
          g,
          lookup-insert (p, s.current_era) (q, e) (unstaked_info p value a s) s.provider_era_stake,
        ),
      )

  pub unstake-Totals :
      (a : AccountId) (p : ProviderId) (value : Balance) (s : State B)
      → 0 < env.config.minimum_staking_amount
      → Books s
      → Totals s
      → (unstake env (signed a) p value s).0 ≡ ok tt
      → Totals (unstake env (signed a) p value s).1
  unfolding unstaked_info
  unstake-Totals a p value s m b c h =
      let old = latest_staked_value (staker_info a p s) in
      let v = unstaked_value env old value in
      let (i, taken, some_staked, some_asked, active, after) = unstake_outcome env a p value s h in
      let (x, known) = active-known p s active in
      let rest = unstaked_state-rest a p value i s in
      let subs = unstake_subtracts 0 (staker_info a p s) s.current_era v (b.rising a p) taken in
      let whole = staker-le-sum_on latest_staked_value a p s latest_no_stakes in
      let part = staker-le-sum_on is_staker a p s is_staker_none in
      rw after (
        written-Totals a p x i (some (unstaked_info p value a s)) s
          (unstaked_state env a p value i s) known rest.0 rest.1
          (unstaked_state-infos env a p value i s) rest.2
          (λ _. (
            ground (
              arith,
              subs.1,
              latest_staked_value_lem i,
              unstaked-le env old value m,
              whole,
              c.covers p active,
            ),
            ground (arith, subs.1, latest_staked_value_lem i, part, c.covers p active),
          ))
          c)

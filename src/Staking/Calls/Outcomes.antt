-- ===== src/Staking/Calls/Outcomes.antt =====
-- What the calls of the staking pallet have checked and written when they succeed.
use massbit_verification.Staking.Unbonding.{UnbondingInfo}
use massbit_verification.Prelude.{
  ℕ, ◌+◌, ◌≤◌, ◌<◌, ◌≡◌, true, some, arith, nat_eq, min, nat_beq, if◌then◌else◌, saturating_add_u32,
  u128_size, ltb, ◌-◌, add_u32, Option-cases, inl, inr,
}
use massbit_verification.Dispatch.{AccountId, Balance, signed, ok, EraIndex, Result-cases}
use massbit_verification.Staking.StakerInfo
use massbit_verification.Staking.StakerInfo.{StakerInfo, no_stakes, latest_staked_value}
use massbit_verification.Staking.Unbonding
use massbit_verification.Staking.State.{
  ProviderId, Env, State, ProviderStakeInfo, stake_event, ledger_of, staker_info,
  provider_stake_info, deposit_event, is_active_provider, mutate_era_info,
  insert_provider_era_stake, update_staker_info, update_ledger, available_staking_balance,
  ProviderInfo,
}
use massbit_verification.Staking.Calls.{
  add_staked, stake, reward_event, withdraw_unstaked, claim_staker, unstake_event, unstake,
  withdrawn, withdraw_from_unregistered_staker, withdraw_from_unregistered, AccountLedger, sub_both,
  pay_from_pallet, sub_locked, EraInfo, sub_staked, lookup, operator_stakers_split,
  unregistered_era, before_unregistration, allow_death,
}

module _ {B I P : Type 0} (env : Env B I P) where
  open env use {config}

  -- The number of stakers of a provider once someone stakes on it who may have staked before.
  abbrev pub stakers_after : StakerInfo → ProviderStakeInfo → ℕ
  stakers_after info k =
      if nat_beq (latest_staked_value info) 0
      then saturating_add_u32 k.number_of_stakers 1
      else k.number_of_stakers

  -- The writes of `stake`.
  abbrev pub staked_state : AccountId → ProviderId → Balance → StakerInfo → State B → State B
  staked_state a p v i s =
      let l = ledger_of a s in
      let k = provider_stake_info p s.current_era s in
      deposit_event (stake_event a p v) (
        insert_provider_era_stake p s.current_era
          (record k {
            total = k.total + v;
            number_of_stakers = stakers_after (staker_info a p s) k;
          })
          (update_staker_info a p i (
            update_ledger env a (record l { locked = l.locked + v })
              (mutate_era_info s.current_era (add_staked v) s))))

  pub stake_outcome :
      (a : AccountId) (p : ProviderId) (value : Balance) (s : State B)
      → (stake env (signed a) p value s).0 ≡ ok tt
      → let v = min value (available_staking_balance env a (ledger_of a s) s) in
        (i : StakerInfo) × (StakerInfo.stake (staker_info a p s) s.current_era v ≡ some i)
        × (0 < v)
        × ((ledger_of a s).locked + v < u128_size)
        × ((provider_stake_info p s.current_era s).total + v < u128_size)
        × (is_active_provider p s ≡ true)
        × (config.minimum_staking_amount ≤ latest_staked_value i)
        × ((stake env (signed a) p value s).1 ≡ staked_state a p v i s)
  unfolding stake
  stake_outcome a p value s h = ground arith

  -- What `unstake` takes off: all, if less than the minimum would stay.
  abbrev pub unstaked_value : Balance → Balance → Balance
  unstaked_value staked_value value =
      if ltb (staked_value - value) config.minimum_staking_amount then staked_value else value

  abbrev pub stakers_left : Balance → Balance → ℕ → ℕ
  stakers_left staked_value value number =
      if ltb (staked_value - value) config.minimum_staking_amount then number - 1 else number

  abbrev pub unlocking : Balance → AccountLedger → State B → UnbondingInfo
  unlocking v l s =
      Unbonding.add l.unbonding_info
        (record { amount = v; unlock_era = add_u32 s.current_era config.unbonding_period })

  -- The writes of `unstake`.
  abbrev pub unstaked_state : AccountId → ProviderId → Balance → StakerInfo → State B → State B
  unstaked_state a p value i s =
      let old = latest_staked_value (staker_info a p s) in
      let v = unstaked_value old value in
      let l = ledger_of a s in
      let k = provider_stake_info p s.current_era s in
      deposit_event (unstake_event a p v) (
        insert_provider_era_stake p s.current_era
          (record k {
            total = k.total - v;
            number_of_stakers = stakers_left old value k.number_of_stakers;
          })
          (update_staker_info a p i (
            mutate_era_info s.current_era (sub_staked v)
              (update_ledger env a (record l { unbonding_info = unlocking v l s }) s))))

  pub unstake_outcome :
      (a : AccountId) (p : ProviderId) (value : Balance) (s : State B)
      → (unstake env (signed a) p value s).0 ≡ ok tt
      → let staked_value = latest_staked_value (staker_info a p s) in
        let v = unstaked_value staked_value value in
        (i : StakerInfo) × (StakerInfo.unstake (staker_info a p s) s.current_era v ≡ some i)
        × (0 < staked_value)
        × (0 < value)
        × (is_active_provider p s ≡ true)
        × ((unstake env (signed a) p value s).1 ≡ unstaked_state a p value i s)
  unfolding unstake
  unstake_outcome a p value s h = ground arith

  abbrev pub withdrawn_amount : AccountId → State B → Balance
  withdrawn_amount a s =
      Unbonding.sum (Unbonding.partition (ledger_of a s).unbonding_info s.current_era).0

  -- The writes of `withdraw_unstaked`.
  abbrev pub withdrawn_state : AccountId → State B → State B
  withdrawn_state a s =
      let l = ledger_of a s in
      let v = withdrawn_amount a s in
      deposit_event (withdrawn a v) (
        mutate_era_info s.current_era (sub_locked v) (
          update_ledger env a
            (record {
              locked = l.locked - v;
              unbonding_info = (Unbonding.partition l.unbonding_info s.current_era).1;
            })
            s))

  pub withdraw_unstaked_outcome :
      (a : AccountId) (s : State B)
      → (withdraw_unstaked env (signed a) s).0 ≡ ok tt
      → (0 < withdrawn_amount a s) × ((withdraw_unstaked env (signed a) s).1 ≡ withdrawn_state a s)
  unfolding withdraw_unstaked
  withdraw_unstaked_outcome a s h = ground arith

  -- The writes of `withdraw_from_unregistered_staker`.
  abbrev pub left_state : AccountId → ProviderId → State B → State B
  left_state a p s =
      let l = ledger_of a s in
      let v = latest_staked_value (staker_info a p s) in
      deposit_event (withdraw_from_unregistered a p v) (
        mutate_era_info s.current_era (sub_both v) (
          update_staker_info a p no_stakes
            (update_ledger env a (record l { locked = l.locked - v }) s)))

  pub withdraw_staker_outcome :
      (a : AccountId) (p : ProviderId) (s : State B)
      → (withdraw_from_unregistered_staker env (signed a) p s).0 ≡ ok tt
      → (x : ProviderInfo) × (era : EraIndex) × (lookup p s.registered_providers ≡ some x)
        × (unregistered_era x.state ≡ some era)
        × (add_u32 era config.unbonding_period < s.current_era)
        × (0 < latest_staked_value (staker_info a p s))
        × ((withdraw_from_unregistered_staker env (signed a) p s).1 ≡ left_state a p s)
  unfolding withdraw_from_unregistered_staker
  withdraw_staker_outcome a p s h = ground arith

  -- The writes of `claim_staker`, where the currency ends in `b`.
  abbrev pub claimed_state : AccountId → ProviderId → Balance → B → State B → State B
  claimed_state a p reward b s =
      let c = StakerInfo.claim (staker_info a p s) in
      deposit_event (reward_event a p c.0.0 reward)
        (update_staker_info a p c.1 (record s { bank = b }))

  -- What a staker earns on a provider in an era.
  abbrev pub staker_reward : ProviderId → EraIndex → Balance → EraInfo → State B → Balance
  staker_reward p era staked y s =
      let k = provider_stake_info p era s in
      env.perbill.of_amount (env.perbill.from_rational staked k.total)
        (operator_stakers_split env k y).1

  pub claim_staker_outcome :
      (a : AccountId) (p : ProviderId) (s : State B)
      → (claim_staker env (signed a) p s).0 ≡ ok tt
      → let c = StakerInfo.claim (staker_info a p s) in
        let paid = λ (y : EraInfo).
          env.currency.withdraw config.pallet_account
            (staker_reward p c.0.0 c.0.1 y s)
            allow_death
            s.bank in
        (x : ProviderInfo) × (y : EraInfo) × (i : I) × (lookup p s.registered_providers ≡ some x)
        × (before_unregistration c.0.0 x.state ≡ true)
        × (lookup c.0.0 s.general_era_info ≡ some y)
        × (0 < c.0.1)
        × (c.0.0 < s.current_era)
        × ((paid y).0 ≡ ok i)
        × ((claim_staker env (signed a) p s).1
            ≡ claimed_state a p
                (staker_reward p c.0.0 c.0.1 y s)
                (env.currency.resolve_creating a i (paid y).1)
                s)
  unfolding claim_staker pay_from_pallet
  claim_staker_outcome a p s h =
      let c = StakerInfo.claim (staker_info a p s) in
      elim (Option-cases (lookup p s.registered_providers)) [
        | inl missing ↦ absurd (ground arith)
        | inr (x, hx) ↦ elim (Option-cases (lookup c.0.0 s.general_era_info)) [
          | inl missing ↦ absurd (ground arith)
          | inr (y, hy) ↦
              elim (Result-cases
                (env.currency.withdraw config.pallet_account (staker_reward p c.0.0 c.0.1 y s)
                  allow_death s.bank).0) [
                    | inl (i, hi) ↦ (
                      x,
                      y,
                      i,
                      hx,
                      ground arith,
                      hy,
                      ground arith,
                      ground arith,
                      hi,
                      ground arith,
                    )
                    | inr (e, he) ↦ absurd (ground arith)
                  ]
        ]
      ]

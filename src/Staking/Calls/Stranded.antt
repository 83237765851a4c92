-- ===== src/Staking/Calls/Stranded.antt =====
-- What a staker can do about an entry with nothing staked in front of the others.
use massbit_verification.Prelude.{
  ◌≡◌, ◌<◌, arith, ltb, nat_eq, add_u32, some, refl, List, ◌∷◌, Bool-cases, inl, inr, pair_eq,
}
use massbit_verification.StorageMap.{lookup}
use massbit_verification.Dispatch.{
  AccountId, Balance, EraIndex, signed, err, DispatchError, staking, not_staked_provider,
  not_operated_provider, Action, nothing_to_withdraw, unclaimed_rewards_remaining,
  unstaking_with_no_value,
}
use massbit_verification.Staking.StakerInfo.{EraStake, claim, latest_staked_value}
use massbit_verification.Staking.State.{
  ProviderId, Env, State, ProviderInfo, unregistered, staker_info, is_active_provider,
}
use massbit_verification.Staking.Calls.{
  stake, unstake, claim_staker, withdraw_from_unregistered_staker,
}

-- The call fails and changes nothing.
abbrev pub IsRefused : {S A : Type 0} → Action S A → S → Type 0
IsRefused m s = (e : DispatchError) × (m s ≡ (err e, s))

module _ {B I P : Type 0} (env : Env B I P) (a : AccountId) (p : ProviderId) (s : State B)
    (info : ProviderInfo) (u : EraIndex) (h : EraStake) (r : List EraStake)
    (known : lookup p s.registered_providers ≡ some info) (gone : info.state ≡ unregistered u)
    (entries : staker_info a p s ≡ record { stakes = h ∷ r }) (nothing : h.staked ≡ 0)
    (early : h.era < u) (later : 0 < h.era) where
  claimed_first : (claim (staker_info a p s)).0 ≡ (h.era, 0)
  unfolding claim
  claimed_first = rw (entries, nothing) refl

  claim-IsRefused : IsRefused (claim_staker env (signed a) p) s
  unfolding claim_staker
  claim-IsRefused = (staking not_staked_provider, ground (arith, claimed_first))

  stake-IsRefused : (v : Balance) → IsRefused (stake env (signed a) p v) s
  unfolding stake is_active_provider
  stake-IsRefused v = (staking not_operated_provider, ground arith)

  unstake-IsRefused : (v : Balance) → IsRefused (unstake env (signed a) p v) s
  unfolding unstake is_active_provider
  unstake-IsRefused v = elim (Bool-cases (ltb 0 v)) [
    | inl some₁ ↦ (staking not_operated_provider, ground arith)
    | inr none₁ ↦ (staking unstaking_with_no_value, ground arith)
  ]

  withdraw-IsRefused : IsRefused (withdraw_from_unregistered_staker env (signed a) p) s
  unfolding withdraw_from_unregistered_staker
  withdraw-IsRefused =
      elim (Bool-cases (ltb (add_u32 u env.config.unbonding_period) s.current_era)) [
        | inr soon ↦ (staking nothing_to_withdraw, ground arith)
        | inl over ↦ elim (Bool-cases (ltb 0 (latest_staked_value (staker_info a p s)))) [
          | inr zero₁ ↦ (staking not_staked_provider, ground arith)
          | inl staked ↦ (staking unclaimed_rewards_remaining, ground (arith, claimed_first))
        ]
      ]

  -- A staker whose first entry has nothing staked, in an era before the one in which the provider
  -- was unregistered, cannot get at what is staked on the provider: claiming, staking,
  -- unstaking any amount and withdrawing all fail, and change nothing. The era of that entry is
  -- not zero.
  pub zero_entry_strands :
      IsRefused (claim_staker env (signed a) p) s
      × ((v : Balance) → IsRefused (stake env (signed a) p v) s)
      × ((v : Balance) → IsRefused (unstake env (signed a) p v) s)
      × IsRefused (withdraw_from_unregistered_staker env (signed a) p) s
  zero_entry_strands = (claim-IsRefused, stake-IsRefused, unstake-IsRefused, withdraw-IsRefused)

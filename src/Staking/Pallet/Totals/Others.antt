-- ===== src/Staking/Pallet/Totals/Others.antt =====
-- Withdrawals, claims, the registry and the eras keep the totals of a provider.
use massbit_verification.Staking.Unbonding
use massbit_verification.Staking.Unbonding.{AccountLedger}
use massbit_verification.Prelude.{
  ◌-◌, ◌≡◌, refl, true, some, none, arith, nat_eq, pair_eq, nat_beq_iff, pair_beq_iff, ◌∙◌,
}
use massbit_verification.StorageMap.{lookup, lookup-insert, insert-IsDistinct}
use massbit_verification.Dispatch.{AccountId, Balance, signed, ok}
use massbit_verification.Staking.StakerInfo.{StakerInfo, latest_staked_value, no_stakes}
use massbit_verification.Staking.StakerInfo
use massbit_verification.Staking.StakerInfo.Claims.{latest-claim}
use massbit_verification.Staking.State.{
  ProviderId, Env, State, ProviderInfo, ledger_of, staker_info, provider_stake_info,
  is_active_provider, is_registered, deposit_event, insert_provider, update_staker_info,
  update_ledger,
}
use massbit_verification.Staking.State.Access.{mutate_era_info_rest, update_ledger_rest}
use massbit_verification.Staking.Calls.{
  claim_staker, withdraw_from_unregistered_staker, sub_locked, sub_both, withdraw_unstaked,
}
use massbit_verification.Staking.Calls.Outcomes.{
  withdrawn_state, withdrawn_amount, withdraw_unstaked_outcome, left_state, withdraw_staker_outcome,
  claimed_state, claim_staker_outcome,
}
use massbit_verification.Staking.Pallet.Payouts.{left_state-infos}
use massbit_verification.Staking.Pallet.Totals.{sums_cong, Totals, written-Totals}

module _ {B : Type 0} where
  -- The totals depend on four parts of the storage.
  pub same-Totals :
      (s t : State B)
      → t.current_era ≡ s.current_era
      → t.registered_providers ≡ s.registered_providers
      → t.provider_era_stake ≡ s.provider_era_stake
      → t.general_staker_info ≡ s.general_staker_info
      → Totals s
      → Totals t
  unfolding is_active_provider provider_stake_info
  same-Totals s t era provs stakes infos b = record {
    entries = rw infos b.entries;
    providers = rw provs b.providers;
    ahead = λ p e h. ground (arith, era, stakes, b.ahead p e);
    unknown = λ p h. ground (arith, era, provs, stakes, b.unknown p, sums_cong p s t infos);
    covers = λ p h. ground (arith, era, provs, stakes, b.covers p, sums_cong p s t infos);
  }

  -- A provider is written; it is not made active, unless nothing is known of it.
  pub provider-Totals :
      (p : ProviderId) (x : ProviderInfo) (s : State B)
      → (is_registered x.state ≡ true → lookup p s.registered_providers ≡ none)
      → Totals s
      → Totals (insert_provider p x s)
  unfolding insert_provider is_active_provider provider_stake_info
  provider-Totals p x s new b = record {
    entries = b.entries;
    providers = insert-IsDistinct p x s.registered_providers b.providers;
    ahead = b.ahead;
    unknown = λ q h. ground (
      arith,
      lookup-insert p q x s.registered_providers,
      b.unknown q,
      sums_cong q s (insert_provider p x s) refl,
    );
    covers = λ q h. ground (
      arith,
      lookup-insert p q x s.registered_providers,
      nat_beq_iff p q,
      new,
      b.unknown p,
      b.covers q,
      sums_cong q s (insert_provider p x s) refl,
    );
  }

module _ {B I P : Type 0} (env : Env B I P) where
  pub withdraw_unstaked-Totals :
      (a : AccountId) (s : State B)
      → Totals s
      → (withdraw_unstaked env (signed a) s).0 ≡ ok tt
      → Totals (withdraw_unstaked env (signed a) s).1
  unfolding deposit_event
  withdraw_unstaked-Totals a s b h =
      let l = ledger_of a s in
      let v = withdrawn_amount env a s in
      let l' : AccountLedger = record {
        locked = l.locked - v;
        unbonding_info = (Unbonding.partition l.unbonding_info s.current_era).1;
      } in
      let f = mutate_era_info_rest s.current_era (sub_locked v) (update_ledger env a l' s) in
      let g = update_ledger_rest env a l' s in
      rw (withdraw_unstaked_outcome env a s h).1
        (same-Totals s (withdrawn_state env a s) (f.0 ∙ g.0) (f.1 ∙ g.1) (f.3 ∙ g.3) (f.4 ∙ g.4) b)

  left_state-rest :
      (a : AccountId) (p : ProviderId) (s : State B)
      → let t = left_state env a p s in
        (t.registered_providers ≡ s.registered_providers)
        × (t.current_era ≡ s.current_era)
        × (t.provider_era_stake ≡ s.provider_era_stake)
  unfolding deposit_event update_staker_info
  left_state-rest a p s =
      let v = latest_staked_value (staker_info a p s) in
      let l : AccountLedger = record (ledger_of a s) { locked = (ledger_of a s).locked - v } in
      let u = update_staker_info a p no_stakes (update_ledger env a l s) in
      let f = mutate_era_info_rest s.current_era (sub_both v) u in
      let g = update_ledger_rest env a l s in (f.1 ∙ g.1, f.0 ∙ g.0, f.3 ∙ g.3)

  pub withdraw_staker-Totals :
      (a : AccountId) (p : ProviderId) (s : State B)
      → Totals s
      → (withdraw_from_unregistered_staker env (signed a) p s).0 ≡ ok tt
      → Totals (withdraw_from_unregistered_staker env (signed a) p s).1
  unfolding is_active_provider
  withdraw_staker-Totals a p s b h =
      let (x, era, known, gone, _, _, after) = withdraw_staker_outcome env a p s h in
      let rest = left_state-rest a p s in
      rw after (
        written-Totals a p x no_stakes (lookup (p, s.current_era) s.provider_era_stake) s
          (left_state env a p s) known rest.0 rest.1 (left_state-infos env a p s)
          (λ q e. ground (arith, rest.2, pair_beq_iff (p, s.current_era) (q, e)))
          (λ active. absurd (ground arith)) b)

  claimed_state-Totals :
      (a : AccountId) (p : ProviderId) (x : ProviderInfo) (reward : Balance) (bank : B)
      (s : State B)
      → lookup p s.registered_providers ≡ some x
      → Totals s
      → Totals (claimed_state env a p reward bank s)
  unfolding deposit_event update_staker_info provider_stake_info
  claimed_state-Totals a p x reward bank s known b =
      let same = latest-claim (staker_info a p s) in
      written-Totals a p x (StakerInfo.claim (staker_info a p s)).1
        (lookup (p, s.current_era) s.provider_era_stake) s (claimed_state env a p reward bank s)
        known refl refl refl (λ q e. ground (arith, pair_beq_iff (p, s.current_era) (q, e)))
        (λ active. (ground (arith, same), ground (arith, same))) b

  pub claim_staker-Totals :
      (a : AccountId) (p : ProviderId) (s : State B)
      → Totals s
      → (claim_staker env (signed a) p s).0 ≡ ok tt
      → Totals (claim_staker env (signed a) p s).1
  claim_staker-Totals a p s b h =
      let (x, _, _, known, _, _, _, _, _, after) = claim_staker_outcome env a p s h in
      rw after (claimed_state-Totals a p x _ _ s known b)

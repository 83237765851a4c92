-- ===== src/Staking/Pallet/Unstaked.antt =====
-- The operations that write no stakes of providers.
use massbit_verification.Prelude.{◌≡◌, arith, nat_eq, pair_eq, refl}
use massbit_verification.Dispatch.{Origin, root, signed, unsigned}
use massbit_verification.Staking.State.{
  ProviderId, Env, State, insert_provider, deposit_event, update_ledger, mutate_era_info,
  update_staker_info,
}
use massbit_verification.Staking.Calls
use massbit_verification.Staking.Calls.{before_unregistration}
use massbit_verification.Staking.Registry.{unregister}

module _ {B I P : Type 0} (env : Env B I P) where
  pub withdraw_staker-stakes :
      (o : Origin) (q : ProviderId) (s : State B)
      → (Calls.withdraw_from_unregistered_staker env o q s).1.provider_era_stake
        ≡ s.provider_era_stake
  unfolding Calls.withdraw_from_unregistered_staker mutate_era_info update_ledger update_staker_info
      deposit_event
  withdraw_staker-stakes (signed a) q s = ground arith
  withdraw_staker-stakes root q s = refl
  withdraw_staker-stakes unsigned q s = refl

  pub withdraw_operator-stakes :
      (o : Origin) (q : ProviderId) (s : State B)
      → (Calls.withdraw_from_unregistered_operator env o q s).1.provider_era_stake
        ≡ s.provider_era_stake
  unfolding Calls.withdraw_from_unregistered_operator insert_provider deposit_event
  withdraw_operator-stakes (signed a) q s = ground arith
  withdraw_operator-stakes root q s = refl
  withdraw_operator-stakes unsigned q s = refl

  pub withdraw_unstaked-stakes :
      (o : Origin) (s : State B)
      → (Calls.withdraw_unstaked env o s).1.provider_era_stake ≡ s.provider_era_stake
  unfolding Calls.withdraw_unstaked mutate_era_info update_ledger deposit_event
  withdraw_unstaked-stakes (signed a) s = ground arith
  withdraw_unstaked-stakes root s = refl
  withdraw_unstaked-stakes unsigned s = refl

  pub claim_staker-stakes :
      (o : Origin) (q : ProviderId) (s : State B)
      → (Calls.claim_staker env o q s).1.provider_era_stake ≡ s.provider_era_stake
  unfolding Calls.claim_staker Calls.pay_from_pallet update_staker_info deposit_event
  claim_staker-stakes (signed a) q s = ground arith
  claim_staker-stakes root q s = refl
  claim_staker-stakes unsigned q s = refl

  pub force_new_era-stakes :
      (o : Origin) (s : State B)
      → (Calls.force_new_era env o s).1.provider_era_stake ≡ s.provider_era_stake
  unfolding Calls.force_new_era
  force_new_era-stakes (signed a) s = refl
  force_new_era-stakes root s = refl
  force_new_era-stakes unsigned s = refl

  pub unregister-stakes :
      (q : ProviderId) (s : State B)
      → (unregister env q s).1.provider_era_stake ≡ s.provider_era_stake
  unfolding unregister insert_provider
  unregister-stakes q s = ground arith

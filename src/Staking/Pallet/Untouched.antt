-- ===== src/Staking/Pallet/Untouched.antt =====
-- The operations of the staking pallet that write neither ledgers nor stakes, and failed claims.
use massbit_verification.Prelude.{◌≡◌, refl, arith, ℕ}
use massbit_verification.Dispatch.{AccountId, EraIndex, Origin, root, signed, DispatchError, err}
use massbit_verification.Staking.State.{
  ProviderId, Env, State, insert_provider, insert_provider_era_stake, deposit_event,
}
use massbit_verification.Staking.Calls.{
  claim_staker, claim_operator, pay_from_pallet, withdraw_from_unregistered_operator, force_new_era,
}
use massbit_verification.Staking.Eras.{on_initialize, rewards}
use massbit_verification.Staking.Registry.{unregister}

-- Neither the ledgers nor the stakes of `s` differ in `t`.
abbrev pub SameStakes : {B : Type 0} → State B → State B → Type 0
SameStakes s t = (t.ledger ≡ s.ledger) × (t.general_staker_info ≡ s.general_staker_info)

module _ {B I P : Type 0} (env : Env B I P) where
  pub claim_staker_failed :
      (a : AccountId) (p : ProviderId) (s : State B) (e : DispatchError)
      → (claim_staker env (signed a) p s).0 ≡ err e
      → SameStakes s (claim_staker env (signed a) p s).1
  unfolding claim_staker pay_from_pallet
  claim_staker_failed a p s e h = ground arith

  pub claim_operator-SameStakes :
      (o : Origin) (p : ProviderId) (era : EraIndex) (s : State B)
      → SameStakes s (claim_operator env o p era s).1
  unfolding claim_operator pay_from_pallet insert_provider_era_stake deposit_event
  claim_operator-SameStakes (signed a) p era s = ground arith
  claim_operator-SameStakes _ p era s = (refl, refl)

  pub withdraw_operator-SameStakes :
      (o : Origin) (p : ProviderId) (s : State B)
      → SameStakes s (withdraw_from_unregistered_operator env o p s).1
  unfolding withdraw_from_unregistered_operator insert_provider deposit_event
  withdraw_operator-SameStakes (signed a) p s = ground arith
  withdraw_operator-SameStakes _ p s = (refl, refl)

  pub force_new_era-SameStakes : (o : Origin) (s : State B) → SameStakes s (force_new_era env o s).1
  unfolding force_new_era
  force_new_era-SameStakes root s = (refl, refl)
  force_new_era-SameStakes _ s = (refl, refl)

  pub unregister-SameStakes : (p : ProviderId) (s : State B) → SameStakes s (unregister env p s).1
  unfolding unregister insert_provider
  unregister-SameStakes p s = ground arith

  pub rewards-SameStakes : (i : I) (s : State B) → SameStakes s (rewards env i s)
  unfolding rewards
  rewards-SameStakes i s = (refl, refl)

  pub on_initialize-SameStakes : (now : ℕ) (s : State B) → SameStakes s (on_initialize env now s).1
  unfolding on_initialize deposit_event
  on_initialize-SameStakes now s = ground arith

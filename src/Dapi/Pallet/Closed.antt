-- ===== src/Dapi/Pallet/Closed.antt =====
-- What the calls of the dapi pallet do to the pallets beside it goes through withdrawals, payments
-- and the trait `DapiStaking`, so what these keep, every call keeps.
use massbit_verification.Prelude.{◌≡◌, arith, inl, inr, ◌⊎◌}
use massbit_verification.Dispatch.{AccountId, Balance, Origin, root, signed, unsigned, Result-cases}
use massbit_verification.Currency.{ExistenceRequirement, keep_alive}
use massbit_verification.Dapi.State.{
  MassbitId, ChainId, Env, State, ProviderType, ProviderDeactivateReason, deposit_event,
  bounded_chain_id,
}
use massbit_verification.Dapi.Projects
use massbit_verification.Dapi.Projects.{take_payment}
use massbit_verification.Dapi.Providers
use massbit_verification.Dapi.Pallet.{
  Call, register_project, deposit_project, submit_project_usage, register_provider,
  deposit_provider, unregister_provider, report_provider_offence, add_regulator, remove_regulator,
  add_chain_id, remove_chain_id, dispatch,
}
use massbit_verification.Dapi.Pallet.Linked.{
  submit_project_usage-SameSides, add_regulator-SameSides, remove_regulator-SameSides,
  add_chain_id-SameSides, remove_chain_id-SameSides,
}
use massbit_verification.Dapi.Pallet.Frames.{register_project-world, deposit_project-world}

-- The entries to the other pallets keep `K`.
pub record Keeping {W I : Type 0} (env : Env W I) (K : W → Type 0) : Type 0 where
  pub withdraws :
      (a : AccountId) (n : Balance) (r : ExistenceRequirement) (w : W)
      → K w
      → K (env.currency.withdraw a n r w).1
  pub pays : (i : I) (w : W) → K w → K (env.on_project_payment i w)
  pub registers :
      (a : AccountId) (p : MassbitId) (n : Balance) (w : W)
      → K w
      → K (env.dapi_staking.register a p n w).1
  pub unregisters : (p : MassbitId) (w : W) → K w → K (env.dapi_staking.unregister p w).1

module _ {W I : Type 0} (env : Env W I) where
  payment-world :
      (a : AccountId) (n : Balance) (s : State W)
      → let w = (env.currency.withdraw a n keep_alive s.world).1 in
        ((take_payment env a n s).1.world ≡ w)
        ⊎ ((i : I) × ((take_payment env a n s).1.world ≡ env.on_project_payment i w))
  unfolding take_payment
  payment-world a n s = elim (Result-cases (env.currency.withdraw a n keep_alive s.world).0) [
    | inl (i, h) ↦ inr (i, ground (arith, h))
    | inr (e, h) ↦ inl (ground (arith, h))
  ]

  deposit_provider-world :
      (a : AccountId) (p : MassbitId) (d : Balance) (s : State W)
      → let t = (Providers.deposit_provider env (signed a) p d s).1 in
        (t.world ≡ s.world) ⊎ (t.world ≡ (env.dapi_staking.register a p d s.world).1)
  unfolding Providers.deposit_provider Providers.insert_provider deposit_event
  deposit_provider-world a p d s = ground arith

  unregister_provider-world :
      (a : AccountId) (p : MassbitId) (s : State W)
      → let t = (Providers.unregister_provider env (signed a) p s).1 in
        (t.world ≡ s.world) ⊎ (t.world ≡ (env.dapi_staking.unregister p s.world).1)
  unfolding Providers.unregister_provider Providers.insert_provider deposit_event
  unregister_provider-world a p s = ground arith

  report_offence-world :
      (a : AccountId) (p : MassbitId) (r : ProviderDeactivateReason) (s : State W)
      → let t = (Providers.report_provider_offence env (signed a) p r s).1 in
        (t.world ≡ s.world) ⊎ (t.world ≡ (env.dapi_staking.unregister p s.world).1)
  unfolding Providers.report_provider_offence Providers.insert_provider deposit_event
  report_offence-world a p r s = ground arith

  register_provider-world :
      (a : AccountId) (p : MassbitId) (t : ProviderType) (b : AccountId) (c : ChainId) (s : State W)
      → (Providers.register_provider env (signed a) p t b c s).1.world ≡ s.world
  unfolding Providers.register_provider Providers.insert_provider deposit_event bounded_chain_id
  register_provider-world a p t b c s = ground arith

  module _ (K : W → Type 0) (keeping : Keeping env K) where
    moved : {v w : W} → w ≡ v → K v → K w
    moved h k = rw h k

    either : {u v w : W} → (w ≡ u) ⊎ (w ≡ v) → K u → K v → K w
    either (inl h) k l = rw h k
    either (inr h) k l = rw h l

    paid :
        (a : AccountId) (n : Balance) (s : State W) → K s.world → K (take_payment env a n s).1.world
    paid a n s k =
        let k' = keeping.withdraws a n keep_alive s.world k in
        elim (payment-world a n s) [
          | inl h ↦ rw h k'
          | inr (i, h) ↦ rw h (keeping.pays i (env.currency.withdraw a n keep_alive s.world).1 k')
        ]

    pub dispatch-Keeping :
        (c : Call) (o : Origin) (s : State W) → K s.world → K (dispatch env c o s).1.world
    unfolding dispatch
    dispatch-Keeping (register_project p c d) (signed a) s k =
        either (register_project-world env a p c d s) k (paid a d s k)
    dispatch-Keeping (deposit_project p d) (signed a) s k =
        either (deposit_project-world env a p d s) k (paid a d s k)
    dispatch-Keeping (submit_project_usage p u) (signed a) s k =
        moved (submit_project_usage-SameSides env a p u s).0 k
    dispatch-Keeping (register_provider p t a c) (signed b) s k =
        moved (register_provider-world b p t a c s) k
    dispatch-Keeping (deposit_provider p d) (signed a) s k =
        either (deposit_provider-world a p d s) k (keeping.registers a p d s.world k)
    dispatch-Keeping (unregister_provider p) (signed a) s k =
        either (unregister_provider-world a p s) k (keeping.unregisters p s.world k)
    dispatch-Keeping (report_provider_offence p r) (signed a) s k =
        either (report_offence-world a p r s) k (keeping.unregisters p s.world k)
    dispatch-Keeping (add_regulator a) o s k = moved (add_regulator-SameSides env o a s).0 k
    dispatch-Keeping (remove_regulator a) o s k = moved (remove_regulator-SameSides env o a s).0 k
    dispatch-Keeping (add_chain_id c) o s k = moved (add_chain_id-SameSides env o c s).0 k
    dispatch-Keeping (remove_chain_id c) o s k = moved (remove_chain_id-SameSides env o c s).0 k
    dispatch-Keeping (register_project p c d) root s k = unfold Projects.register_project in k
    dispatch-Keeping (register_project p c d) unsigned s k = unfold Projects.register_project in k
    dispatch-Keeping (deposit_project p d) root s k = unfold Projects.deposit_project in k
    dispatch-Keeping (deposit_project p d) unsigned s k = unfold Projects.deposit_project in k
    dispatch-Keeping (submit_project_usage p u) root s k = unfold Projects.submit_project_usage in k
    dispatch-Keeping (submit_project_usage p u) unsigned s k =
        unfold Projects.submit_project_usage in k
    dispatch-Keeping (register_provider p t a c) root s k = unfold Providers.register_provider in k
    dispatch-Keeping (register_provider p t a c) unsigned s k =
        unfold Providers.register_provider in k
    dispatch-Keeping (deposit_provider p d) root s k = unfold Providers.deposit_provider in k
    dispatch-Keeping (deposit_provider p d) unsigned s k = unfold Providers.deposit_provider in k
    dispatch-Keeping (unregister_provider p) root s k = unfold Providers.unregister_provider in k
    dispatch-Keeping (unregister_provider p) unsigned s k =
        unfold Providers.unregister_provider in k
    dispatch-Keeping (report_provider_offence p r) root s k =
        unfold Providers.report_provider_offence in k
    dispatch-Keeping (report_provider_offence p r) unsigned s k =
        unfold Providers.report_provider_offence in k

-- ===== src/Dapi/Pallet/Frames.antt =====
-- What the calls of the dapi pallet leave alone.
use massbit_verification.Prelude.{◌≡◌, refl, arith, ℕ, ◌⊎◌}
use massbit_verification.Dispatch.{AccountId, Balance, Origin, root, signed}
use massbit_verification.Dapi.State.{
  MassbitId, ChainId, ProviderType, ProviderDeactivateReason, Env, State, deposit_event,
  bounded_chain_id,
}
use massbit_verification.Dapi.Projects.{
  register_project, deposit_project, submit_project_usage, take_payment, insert_project,
}
use massbit_verification.Dapi.Providers.{
  insert_provider, register_provider, deposit_provider, unregister_provider,
  report_provider_offence,
}
use massbit_verification.Dapi.Roles.{add_regulator, remove_regulator, add_chain_id, remove_chain_id}

-- Neither the projects nor the providers of `s` differ in `t`.
abbrev pub SameTables : {W : Type 0} → State W → State W → Type 0
SameTables s t = (t.projects ≡ s.projects) × (t.providers ≡ s.providers)

module _ {W I : Type 0} (env : Env W I) where
  pub register_project-providers :
      (o : Origin) (p : MassbitId) (c : ChainId) (d : Balance) (s : State W)
      → (register_project env o p c d s).1.providers ≡ s.providers
  unfolding register_project take_payment insert_project deposit_event
  register_project-providers (signed a) p c d s = ground arith
  register_project-providers _ p c d s = refl

  pub deposit_project-providers :
      (o : Origin) (p : MassbitId) (d : Balance) (s : State W)
      → (deposit_project env o p d s).1.providers ≡ s.providers
  unfolding deposit_project take_payment insert_project deposit_event
  deposit_project-providers (signed a) p d s = ground arith
  deposit_project-providers _ p d s = refl

  pub submit_project_usage-providers :
      (o : Origin) (p : MassbitId) (u : ℕ) (s : State W)
      → (submit_project_usage env o p u s).1.providers ≡ s.providers
  unfolding submit_project_usage insert_project deposit_event
  submit_project_usage-providers (signed a) p u s = ground arith
  submit_project_usage-providers _ p u s = refl

  pub register_provider-projects :
      (o : Origin) (p : MassbitId) (t : ProviderType) (b : AccountId) (c : ChainId) (s : State W)
      → (register_provider env o p t b c s).1.projects ≡ s.projects
  unfolding register_provider insert_provider deposit_event
  register_provider-projects (signed a) p t b c s = ground arith
  register_provider-projects _ p t b c s = refl

  pub deposit_provider-projects :
      (o : Origin) (p : MassbitId) (d : Balance) (s : State W)
      → (deposit_provider env o p d s).1.projects ≡ s.projects
  unfolding deposit_provider insert_provider deposit_event
  deposit_provider-projects (signed a) p d s = ground arith
  deposit_provider-projects _ p d s = refl

  pub unregister_provider-projects :
      (o : Origin) (p : MassbitId) (s : State W)
      → (unregister_provider env o p s).1.projects ≡ s.projects
  unfolding unregister_provider insert_provider deposit_event
  unregister_provider-projects (signed a) p s = ground arith
  unregister_provider-projects _ p s = refl

  pub report_offence-projects :
      (o : Origin) (p : MassbitId) (r : ProviderDeactivateReason) (s : State W)
      → (report_provider_offence env o p r s).1.projects ≡ s.projects
  unfolding report_provider_offence insert_provider deposit_event
  report_offence-projects (signed a) p r s = ground arith
  report_offence-projects _ p r s = refl

  pub add_regulator-SameTables :
      (o : Origin) (a : AccountId) (s : State W) → SameTables s (add_regulator env o a s).1
  unfolding add_regulator deposit_event
  add_regulator-SameTables root a s = ground arith
  add_regulator-SameTables _ a s = ground arith

  pub remove_regulator-SameTables :
      (o : Origin) (a : AccountId) (s : State W) → SameTables s (remove_regulator env o a s).1
  unfolding remove_regulator deposit_event
  remove_regulator-SameTables root a s = ground arith
  remove_regulator-SameTables _ a s = ground arith

  pub add_chain_id-SameTables :
      (o : Origin) (c : ChainId) (s : State W) → SameTables s (add_chain_id env o c s).1
  unfolding add_chain_id deposit_event
  add_chain_id-SameTables root c s = ground arith
  add_chain_id-SameTables _ c s = ground arith

  pub remove_chain_id-SameTables :
      (o : Origin) (c : ChainId) (s : State W) → SameTables s (remove_chain_id env o c s).1
  unfolding remove_chain_id deposit_event
  remove_chain_id-SameTables root c s = ground arith
  remove_chain_id-SameTables _ c s = ground arith

  pub register_project-world :
      (a : AccountId) (p : MassbitId) (c : ChainId) (d : Balance) (s : State W)
      → let t = (register_project env (signed a) p c d s).1 in
        (t.world ≡ s.world) ⊎ (t.world ≡ (take_payment env a d s).1.world)
  unfolding register_project insert_project deposit_event bounded_chain_id
  register_project-world a p c d s = ground arith

  pub deposit_project-world :
      (a : AccountId) (p : MassbitId) (d : Balance) (s : State W)
      → let t = (deposit_project env (signed a) p d s).1 in
        (t.world ≡ s.world) ⊎ (t.world ≡ (take_payment env a d s).1.world)
  unfolding deposit_project insert_project deposit_event
  deposit_project-world a p d s = ground arith

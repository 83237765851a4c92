-- ===== src/Dapi/Pallet/Linked.antt =====
-- The state of a provider goes with its standing in the pallet behind `DapiStaking`, through all
-- calls.
use massbit_verification.Prelude.{◌≡◌, ℕ, arith, bytes_eq, nat_eq}
use massbit_verification.Dispatch.{AccountId, Origin, root, signed, unsigned}
use massbit_verification.Dapi.State.{
  MassbitId, ChainId, Env, State, deposit_event, bounded_chain_id,
}
use massbit_verification.Dapi.Projects
use massbit_verification.Dapi.Providers
use massbit_verification.Dapi.Roles
use massbit_verification.Dapi.Pallet.{
  Call, register_project, deposit_project, submit_project_usage, register_provider,
  deposit_provider, unregister_provider, report_provider_offence, add_regulator, remove_regulator,
  add_chain_id, remove_chain_id, dispatch,
}
use massbit_verification.Dapi.Pallet.Frames.{
  register_project-providers, deposit_project-providers, register_project-world,
  deposit_project-world,
}
use massbit_verification.Dapi.Pallet.Worlds.{
  Standing, Linked, deposit_provider-Linked, unregister_provider-Linked, report_offence-Linked,
  register_provider-Linked, project-Linked,
}

-- Providers and the other pallet are the same in both states.
abbrev SameSides : {W : Type 0} → State W → State W → Type 0
SameSides s t = (t.world ≡ s.world) × (t.providers ≡ s.providers)

module _ {W I : Type 0} (env : Env W I) where
  pub submit_project_usage-SameSides :
      (a : AccountId) (p : MassbitId) (u : ℕ) (s : State W)
      → SameSides s (Projects.submit_project_usage env (signed a) p u s).1
  unfolding Projects.submit_project_usage Projects.insert_project deposit_event
  submit_project_usage-SameSides a p u s = ground arith

  pub add_regulator-SameSides :
      (o : Origin) (a : AccountId) (s : State W) → SameSides s (Roles.add_regulator env o a s).1
  unfolding Roles.add_regulator deposit_event
  add_regulator-SameSides root a s = ground arith
  add_regulator-SameSides _ a s = ground arith

  pub remove_regulator-SameSides :
      (o : Origin) (a : AccountId) (s : State W) → SameSides s (Roles.remove_regulator env o a s).1
  unfolding Roles.remove_regulator deposit_event
  remove_regulator-SameSides root a s = ground arith
  remove_regulator-SameSides _ a s = ground arith

  pub add_chain_id-SameSides :
      (o : Origin) (c : ChainId) (s : State W) → SameSides s (Roles.add_chain_id env o c s).1
  unfolding Roles.add_chain_id deposit_event bounded_chain_id
  add_chain_id-SameSides root c s = ground arith
  add_chain_id-SameSides _ c s = ground arith

  pub remove_chain_id-SameSides :
      (o : Origin) (c : ChainId) (s : State W) → SameSides s (Roles.remove_chain_id env o c s).1
  unfolding Roles.remove_chain_id deposit_event bounded_chain_id
  remove_chain_id-SameSides root c s = ground arith
  remove_chain_id-SameSides _ c s = ground arith

  module _ (standing : Standing env) where
    same-Linked : (s t : State W) → SameSides s t → Linked env standing s → Linked env standing t
    same-Linked s t h k q = rw (h.0, h.1) (k q)

    -- Every call of the pallet, from any origin, failed or not, keeps the state of each provider in
    -- step with its standing in the other pallet.
    pub dispatch-Linked :
        (c : Call) (o : Origin) (s : State W)
        → Linked env standing s
        → Linked env standing (dispatch env c o s).1
    unfolding dispatch
    dispatch-Linked (register_project p c d) (signed a) s k =
        project-Linked env standing a d s (Projects.register_project env (signed a) p c d s).1
          (register_project-providers env (signed a) p c d s) (register_project-world env a p c d s)
          k
    dispatch-Linked (deposit_project p d) (signed a) s k =
        project-Linked env standing a d s (Projects.deposit_project env (signed a) p d s).1
          (deposit_project-providers env (signed a) p d s) (deposit_project-world env a p d s) k
    dispatch-Linked (submit_project_usage p u) (signed a) s k =
        same-Linked s (Projects.submit_project_usage env (signed a) p u s).1
          (submit_project_usage-SameSides a p u s) k
    dispatch-Linked (register_provider p t a c) (signed b) s k =
        register_provider-Linked env standing b p t a c s k
    dispatch-Linked (deposit_provider p d) (signed a) s k =
        deposit_provider-Linked env standing a p d s k
    dispatch-Linked (unregister_provider p) (signed a) s k =
        unregister_provider-Linked env standing a p s k
    dispatch-Linked (report_provider_offence p r) (signed a) s k =
        report_offence-Linked env standing a p r s k
    dispatch-Linked (add_regulator a) o s k =
        same-Linked s (Roles.add_regulator env o a s).1 (add_regulator-SameSides o a s) k
    dispatch-Linked (remove_regulator a) o s k =
        same-Linked s (Roles.remove_regulator env o a s).1 (remove_regulator-SameSides o a s) k
    dispatch-Linked (add_chain_id c) o s k =
        same-Linked s (Roles.add_chain_id env o c s).1 (add_chain_id-SameSides o c s) k
    dispatch-Linked (remove_chain_id c) o s k =
        same-Linked s (Roles.remove_chain_id env o c s).1 (remove_chain_id-SameSides o c s) k
    dispatch-Linked (register_project p c d) root s k = unfold Projects.register_project in k
    dispatch-Linked (register_project p c d) unsigned s k = unfold Projects.register_project in k
    dispatch-Linked (deposit_project p d) root s k = unfold Projects.deposit_project in k
    dispatch-Linked (deposit_project p d) unsigned s k = unfold Projects.deposit_project in k
    dispatch-Linked (submit_project_usage p u) root s k = unfold Projects.submit_project_usage in k
    dispatch-Linked (submit_project_usage p u) unsigned s k =
        unfold Projects.submit_project_usage in k
    dispatch-Linked (register_provider p t a c) root s k = unfold Providers.register_provider in k
    dispatch-Linked (register_provider p t a c) unsigned s k =
        unfold Providers.register_provider in k
    dispatch-Linked (deposit_provider p d) root s k = unfold Providers.deposit_provider in k
    dispatch-Linked (deposit_provider p d) unsigned s k = unfold Providers.deposit_provider in k
    dispatch-Linked (unregister_provider p) root s k = unfold Providers.unregister_provider in k
    dispatch-Linked (unregister_provider p) unsigned s k = unfold Providers.unregister_provider in k
    dispatch-Linked (report_provider_offence p r) root s k =
        unfold Providers.report_provider_offence in k
    dispatch-Linked (report_provider_offence p r) unsigned s k =
        unfold Providers.report_provider_offence in k

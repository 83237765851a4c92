-- ===== src/Dapi/Pallet.antt =====
-- All calls of pallets/dapi/src/lib.rs.
pub mod Frames
pub mod Invariant
pub mod Access
pub mod Worlds
pub mod Linked
pub mod Closed
use massbit_verification.Prelude.{ℕ, List, [], ◌∷◌}
use massbit_verification.Dispatch.{AccountId, Balance, Origin, Action}
use massbit_verification.Dapi.State.{
  MassbitId, ChainId, ProviderType, ProviderDeactivateReason, Env, State,
}
use massbit_verification.Dapi.Projects
use massbit_verification.Dapi.Providers
use massbit_verification.Dapi.Roles

-- The variants of the pallet's `Call`.
pub data Call : Type 0 where
  register_project : MassbitId → ChainId → Balance → Call
  deposit_project : MassbitId → Balance → Call
  submit_project_usage : MassbitId → ℕ → Call
  register_provider : MassbitId → ProviderType → AccountId → ChainId → Call
  deposit_provider : MassbitId → Balance → Call
  unregister_provider : MassbitId → Call
  report_provider_offence : MassbitId → ProviderDeactivateReason → Call
  add_regulator remove_regulator : AccountId → Call
  add_chain_id remove_chain_id : ChainId → Call

module _ {W I : Type 0} (env : Env W I) where
  unfoldable pub dispatch : Call → Origin → Action (State W) (Unit {0})
  dispatch (register_project p c d) o = Projects.register_project env o p c d
  dispatch (deposit_project p d) o = Projects.deposit_project env o p d
  dispatch (submit_project_usage p u) o = Projects.submit_project_usage env o p u
  dispatch (register_provider p t a c) o = Providers.register_provider env o p t a c
  dispatch (deposit_provider p d) o = Providers.deposit_provider env o p d
  dispatch (unregister_provider p) o = Providers.unregister_provider env o p
  dispatch (report_provider_offence p r) o = Providers.report_provider_offence env o p r
  dispatch (add_regulator a) o = Roles.add_regulator env o a
  dispatch (remove_regulator a) o = Roles.remove_regulator env o a
  dispatch (add_chain_id c) o = Roles.add_chain_id env o c
  dispatch (remove_chain_id c) o = Roles.remove_chain_id env o c

  -- The state after a list of calls with their origins.
  unfoldable pub run : List (Origin × Call) → State W → State W
  unfolding dispatch
  run [] s = s
  run ((o, c) ∷ cs) s = run cs (dispatch c o s).1

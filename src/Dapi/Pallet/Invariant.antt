-- ===== src/Dapi/Pallet/Invariant.antt =====
-- What holds of projects and providers through all calls of the dapi pallet.
use massbit_verification.Prelude.{ℕ, ◌≤◌, ◌≡◌, refl, some, none, Option, List, [], ◌∷◌, arith}
use massbit_verification.Dispatch.{Origin}
use massbit_verification.Dapi.State.{
  MassbitId, Env, State, ProviderState, registered, active, in_active,
}
use massbit_verification.Dapi.Projects.Quota.{
  WithinQuota, unchanged-WithinQuota, register_project-WithinQuota, deposit_project-WithinQuota,
  submit_project_usage-WithinQuota,
}
use massbit_verification.Dapi.Providers.Lifecycle.{
  status, Moves, stay, enroll, activate, retire, same-Moves, register_provider-Moves,
  deposit_provider-Moves, unregister_provider-Moves, report_offence-Moves,
}
use massbit_verification.Dapi.Pallet.{
  Call, register_project, deposit_project, submit_project_usage, register_provider,
  deposit_provider, unregister_provider, report_provider_offence, add_regulator, remove_regulator,
  add_chain_id, remove_chain_id, dispatch, run,
}
use massbit_verification.Dapi.Pallet.Frames.{
  register_project-providers, deposit_project-providers, submit_project_usage-providers,
  register_provider-projects, deposit_provider-projects, unregister_provider-projects,
  report_offence-projects, add_regulator-SameTables, remove_regulator-SameTables,
  add_chain_id-SameTables, remove_chain_id-SameTables,
}

module _ {W I : Type 0} (env : Env W I) where
  -- Every call of the pallet, from any origin, failed or not, keeps the usage of each project
  -- within its quota, and its quota below 2 ^ 128.
  pub dispatch-WithinQuota :
      (c : Call) (o : Origin) (s : State W) → WithinQuota s → WithinQuota (dispatch env c o s).1
  unfolding dispatch
  dispatch-WithinQuota (register_project p c d) o s q = register_project-WithinQuota env o p c d s q
  dispatch-WithinQuota (deposit_project p d) o s q = deposit_project-WithinQuota env o p d s q
  dispatch-WithinQuota (submit_project_usage p u) o s q =
      submit_project_usage-WithinQuota env o p u s q
  dispatch-WithinQuota (register_provider p t a c) o s q =
      unchanged-WithinQuota s (dispatch env (register_provider p t a c) o s).1
        (register_provider-projects env o p t a c s) q
  dispatch-WithinQuota (deposit_provider p d) o s q =
      unchanged-WithinQuota s (dispatch env (deposit_provider p d) o s).1
        (deposit_provider-projects env o p d s) q
  dispatch-WithinQuota (unregister_provider p) o s q =
      unchanged-WithinQuota s (dispatch env (unregister_provider p) o s).1
        (unregister_provider-projects env o p s) q
  dispatch-WithinQuota (report_provider_offence p r) o s q =
      unchanged-WithinQuota s (dispatch env (report_provider_offence p r) o s).1
        (report_offence-projects env o p r s) q
  dispatch-WithinQuota (add_regulator a) o s q =
      unchanged-WithinQuota s (dispatch env (add_regulator a) o s).1
        (add_regulator-SameTables env o a s).0 q
  dispatch-WithinQuota (remove_regulator a) o s q =
      unchanged-WithinQuota s (dispatch env (remove_regulator a) o s).1
        (remove_regulator-SameTables env o a s).0 q
  dispatch-WithinQuota (add_chain_id c) o s q =
      unchanged-WithinQuota s (dispatch env (add_chain_id c) o s).1
        (add_chain_id-SameTables env o c s).0 q
  dispatch-WithinQuota (remove_chain_id c) o s q =
      unchanged-WithinQuota s (dispatch env (remove_chain_id c) o s).1
        (remove_chain_id-SameTables env o c s).0 q

  -- Every call of the pallet leaves the state of each provider as it is, or enrolls a new one as
  -- registered, or takes a registered one to active, or an active one to inactive.
  pub dispatch-Moves :
      (c : Call) (o : Origin) (s : State W) (p : MassbitId)
      → Moves (status p s) (status p (dispatch env c o s).1)
  unfolding dispatch
  dispatch-Moves (register_project q c d) o s p =
      same-Moves p s (dispatch env (register_project q c d) o s).1
        (register_project-providers env o q c d s)
  dispatch-Moves (deposit_project q d) o s p =
      same-Moves p s (dispatch env (deposit_project q d) o s).1
        (deposit_project-providers env o q d s)
  dispatch-Moves (submit_project_usage q u) o s p =
      same-Moves p s (dispatch env (submit_project_usage q u) o s).1
        (submit_project_usage-providers env o q u s)
  dispatch-Moves (register_provider q t a c) o s p = register_provider-Moves env o q t a c s p
  dispatch-Moves (deposit_provider q d) o s p = deposit_provider-Moves env o q d s p
  dispatch-Moves (unregister_provider q) o s p = unregister_provider-Moves env o q s p
  dispatch-Moves (report_provider_offence q r) o s p = report_offence-Moves env o q r s p
  dispatch-Moves (add_regulator a) o s p =
      same-Moves p s (dispatch env (add_regulator a) o s).1 (add_regulator-SameTables env o a s).1
  dispatch-Moves (remove_regulator a) o s p =
      same-Moves p s (dispatch env (remove_regulator a) o s).1
        (remove_regulator-SameTables env o a s).1
  dispatch-Moves (add_chain_id c) o s p =
      same-Moves p s (dispatch env (add_chain_id c) o s).1 (add_chain_id-SameTables env o c s).1
  dispatch-Moves (remove_chain_id c) o s p =
      same-Moves p s (dispatch env (remove_chain_id c) o s).1
        (remove_chain_id-SameTables env o c s).1

-- How far a provider has come.
abbrev pub rank : Option ProviderState → ℕ
rank none = 0
rank (some registered) = 1
rank (some active) = 2
rank (some in_active) = 3

Moves-rank : {o o' : Option ProviderState} → Moves o o' → rank o ≤ rank o'
Moves-rank stay = omega arith
Moves-rank enroll = omega arith
Moves-rank activate = omega arith
Moves-rank retire = omega arith

rank_top : (o : Option ProviderState) → 3 ≤ rank o → o ≡ some in_active
rank_top none h = absurd (omega arith)
rank_top (some registered) h = absurd (omega arith)
rank_top (some active) h = absurd (omega arith)
rank_top (some in_active) h = refl

module _ {W I : Type 0} (env : Env W I) where
  run-rank :
      (cs : List (Origin × Call)) (s : State W) (p : MassbitId)
      → rank (status p s) ≤ rank (status p (run env cs s))
  unfolding run
  run-rank [] s p = omega arith
  run-rank ((o, c) ∷ cs) s p =
      omega (arith, Moves-rank (dispatch-Moves env c o s p), run-rank cs (dispatch env c o s).1 p)

  -- A provider that has been deactivated stays inactive through all later calls, whoever makes them.
  pub in_active_forever :
      (cs : List (Origin × Call)) (s : State W) (p : MassbitId)
      → status p s ≡ some in_active
      → status p (run env cs s) ≡ some in_active
  in_active_forever cs s p h = rank_top (status p (run env cs s)) (rw h at (run-rank cs s p))

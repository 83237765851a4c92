-- ===== src/Tests/Projects.antt =====
-- Examples of the dapi pallet.
use massbit_verification.Prelude.{
  ◌≡◌, ◌||◌, refl, some, List, [], ◌∷◌, nat_beq, if◌then◌else◌, arith, bytes_eq, nat_eq,
}
use massbit_verification.StorageMap.{lookup}
use massbit_verification.Members.{contains}
use massbit_verification.Dispatch.{AccountId, Balance, signed, root, ok, Origin}
use massbit_verification.Tests.{Bank, toy_currency}
use massbit_verification.Dapi.State.{
  MassbitId, Env, State, Project, gateway, node, active, in_active, project_reached_quota,
  out_of_sync,
}
use massbit_verification.Dapi.Projects.{submit_project_usage}
use massbit_verification.Dapi.Projects.Quota.{WithinQuota, submit_project_usage_adds}
use massbit_verification.Dapi.Providers.Lifecycle.{status, Moves}
use massbit_verification.Dapi.Roles.{add_regulator, remove_regulator, add_chain_id, remove_chain_id}
use massbit_verification.Dapi.Pallet.{
  Call, dispatch, run, deposit_project, deposit_provider, unregister_provider,
  report_provider_offence,
}
use massbit_verification.Dapi.Pallet.Invariant.{
  dispatch-WithinQuota, dispatch-Moves, in_active_forever,
}
use massbit_verification.Dapi.Pallet.Access.{roles_open_to_all, add-remove_regulator}

abbrev pub dapi_env : Env Bank Balance
dapi_env = record {
  currency = toy_currency;
  dapi_staking = record { register = λ a p d s. (ok tt, s); unregister = λ p s. (ok tt, s) };
  chain_id_max_length = 64;
  on_project_payment = λ i s. s;
}

abbrev pub project : Project
project = record { consumer = 7; chain_id = 101 ∷ []; quota = 100; usage = 90 }

-- Account 5 is a regulator; project 3 has used 90 of 100; provider 4 is active, provider 6 inactive.
abbrev pub dapi_state : State Bank
dapi_state = record {
  world = (7, 3_000_000_000_000_000) ∷ [];
  projects = (3, project) ∷ [];
  providers =
      (4, record { provider_type = gateway; operator = 8; chain_id = 101 ∷ []; state = active })
      ∷ (6, record { provider_type = node; operator = 8; chain_id = 101 ∷ []; state = in_active })
      ∷ [];
  regulators = 5 ∷ [];
  chain_ids = (101 ∷ []) ∷ [];
  events = [];
}

submit_project_usage_adds_example :
    let (r, t) = submit_project_usage dapi_env (signed 5) 3 25 dapi_state in
    (r ≡ ok tt)
    × ((j : MassbitId)
        → lookup j t.projects ≡ (
            if nat_beq 3 j
            then some (record project { usage = 100 })
            else lookup j dapi_state.projects))
    × (t.events ≡ project_reached_quota 3 ∷ [])
unfolding contains lookup
submit_project_usage_adds_example =
    submit_project_usage_adds dapi_env 5 3 25 dapi_state project refl refl (omega arith)

one_project : WithinQuota dapi_state
unfolding lookup
one_project p x h = ground arith

dispatch-WithinQuota_example :
    WithinQuota
      (dispatch dapi_env (deposit_project 3 2_000_000_000_000_000) (signed 7) dapi_state).1
dispatch-WithinQuota_example =
    dispatch-WithinQuota dapi_env (deposit_project 3 2_000_000_000_000_000) (signed 7) dapi_state
      one_project

dispatch-Moves_example :
    Moves
      (status 4 dapi_state)
      (status 4 (dispatch dapi_env (unregister_provider 4) (signed 8) dapi_state).1)
dispatch-Moves_example = dispatch-Moves dapi_env (unregister_provider 4) (signed 8) dapi_state 4

abbrev pub later_calls : List (Origin × Call)
later_calls =
    (signed 8, deposit_provider 6 500)
    ∷ (signed 5, report_provider_offence 6 out_of_sync)
    ∷ (signed 8, unregister_provider 6)
    ∷ []

in_active_forever_example : status 6 (run dapi_env later_calls dapi_state) ≡ some in_active
unfolding lookup
in_active_forever_example = in_active_forever dapi_env later_calls dapi_state 6 refl

roles_open_to_all_example :
    (add_regulator dapi_env (signed 9) 9 dapi_state ≡ add_regulator dapi_env root 9 dapi_state)
    × (remove_regulator dapi_env (signed 9) 9 dapi_state
        ≡ remove_regulator dapi_env root 9 dapi_state)
    × (add_chain_id dapi_env (signed 9) (102 ∷ []) dapi_state
        ≡ add_chain_id dapi_env root (102 ∷ []) dapi_state)
    × (remove_chain_id dapi_env (signed 9) (102 ∷ []) dapi_state
        ≡ remove_chain_id dapi_env root (102 ∷ []) dapi_state)
roles_open_to_all_example = roles_open_to_all dapi_env (signed 9) 9 (102 ∷ []) dapi_state

add-remove_regulator_example :
    let (r, t) = add_regulator dapi_env root 9 dapi_state in
    let (r', u) = remove_regulator dapi_env root 9 t in
    (r ≡ ok tt)
    × ((b : AccountId)
        → contains b t.regulators ≡ (nat_beq 9 b || contains b dapi_state.regulators))
    × (r' ≡ ok tt)
    × ((b : AccountId) → contains b u.regulators ≡ contains b dapi_state.regulators)
unfolding contains
add-remove_regulator_example = add-remove_regulator dapi_env root root 9 dapi_state refl

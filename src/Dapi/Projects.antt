-- ===== src/Dapi/Projects.antt =====
-- The calls on projects of pallets/dapi/src/lib.rs.
pub mod Quota
use massbit_verification.Prelude.{
  ℕ, Bool, not, List, none, some, Option, nat_eq, bytes_eq, ◌==◌, min, if◌then◌else◌,
  saturating_add_u128,
}
use massbit_verification.StorageMap.{lookup, insert, contains_key}
use massbit_verification.Members.{contains}
use massbit_verification.Dispatch.{
  AccountId, Balance, Origin, Action, dapi, already_exist, bad_chain_id, not_exist,
  permission_denied, pure, get_state, modify, ensure, ok_or, ensure_signed, zoom, ◌>>=◌, ◌>>◌,
}
use massbit_verification.Currency.{keep_alive}
use massbit_verification.Dapi.State.{
  MassbitId, ChainId, Project, Env, State, project_registered, project_deposited,
  project_reached_quota, deposit_event, bounded_chain_id, calculate_quota,
}

module _ {W I : Type 0} (env : Env W I) where
  open env use {currency}

  -- Withdraws the payment of a consumer and hands it on.
  unfoldable pub take_payment : AccountId → Balance → Action (State W) (Unit {0})
  take_payment consumer deposit = do
    payment ←
        zoom (λ s. s.world) (λ s w. record s { world = w })
          (currency.withdraw consumer deposit keep_alive)
    modify λ s. record s { world = env.on_project_payment payment s.world }

  unfoldable pub insert_project : MassbitId → Project → State W → State W
  insert_project project_id project s = record s { projects = insert project_id project s.projects }

  unfoldable pub register_project :
      Origin → MassbitId → ChainId → Balance → Action (State W) (Unit {0})
  unfolding take_payment
  register_project origin project_id chain_id deposit = do
    consumer ← ensure_signed origin
    s ← get_state
    ensure (not (contains_key project_id s.projects)) (dapi already_exist)
    bounded ← ok_or (bounded_chain_id env.chain_id_max_length chain_id) (dapi bad_chain_id)
    ensure (contains bounded s.chain_ids) (dapi not_exist)
    take_payment consumer deposit
    let quota = calculate_quota deposit
    modify (
        insert_project project_id
          (record { consumer = consumer; chain_id = bounded; quota = quota; usage = 0 }))
    modify (deposit_event (project_registered project_id consumer chain_id quota))

  unfoldable pub deposit_project : Origin → MassbitId → Balance → Action (State W) (Unit {0})
  unfolding take_payment
  deposit_project origin project_id deposit = do
    consumer ← ensure_signed origin
    s ← get_state
    project ← ok_or (lookup project_id s.projects) (dapi not_exist)
    take_payment consumer deposit
    let quota = saturating_add_u128 project.quota (calculate_quota deposit)
    modify (insert_project project_id (record project { quota = quota }))
    modify (deposit_event (project_deposited project_id quota))

  unfoldable pub submit_project_usage : Origin → MassbitId → ℕ → Action (State W) (Unit {0})
  submit_project_usage origin project_id usage = do
    regulator ← ensure_signed origin
    s ← get_state
    ensure (contains regulator s.regulators) (dapi permission_denied)
    project ← ok_or (lookup project_id s.projects) (dapi not_exist)
    let used = min (saturating_add_u128 project.usage usage) project.quota
    modify
        λ t. if used == project.quota then deposit_event (project_reached_quota project_id) t else t
    modify (insert_project project_id (record project { usage = used }))

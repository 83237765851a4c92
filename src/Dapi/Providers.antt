-- ===== src/Dapi/Providers.antt =====
-- The calls on providers of pallets/dapi/src/lib.rs.
pub mod Lifecycle
use massbit_verification.Prelude.{ℕ, Bool, not, nat_eq, bytes_eq, ◌==◌}
use massbit_verification.StorageMap.{lookup, insert, contains_key}
use massbit_verification.Members.{contains}
use massbit_verification.Dispatch.{
  AccountId, Balance, Origin, Action, dapi, already_exist, inactive_provider, bad_chain_id,
  not_exist, not_owner, permission_denied, invalid_provider_state, pure, get_state, modify, ensure,
  ok_or, ensure_signed, zoom, ◌>>=◌, ◌>>◌,
}
use massbit_verification.Dapi.State.{
  MassbitId, ChainId, ProviderType, registered, active, in_active, Provider,
  ProviderDeactivateReason, un_registered, Env, State, provider_registered, provider_activated,
  provider_deactivated, deposit_event, bounded_chain_id, is_registered, is_active,
}

module _ {W I : Type 0} (env : Env W I) where
  unfoldable pub insert_provider : MassbitId → Provider → State W → State W
  insert_provider provider_id provider s = record s {
    providers = insert provider_id provider s.providers;
  }

  -- A call of another pallet.
  abbrev pub in_world : {A : Type 0} → Action W A → Action (State W) A
  in_world = zoom (λ s. s.world) (λ s w. record s { world = w })

  unfoldable pub register_provider :
      Origin → MassbitId → ProviderType → AccountId → ChainId → Action (State W) (Unit {0})
  register_provider origin provider_id provider_type operator chain_id = do
    regulator ← ensure_signed origin
    s ← get_state
    ensure (contains regulator s.regulators) (dapi permission_denied)
    ensure (not (contains_key provider_id s.providers)) (dapi already_exist)
    bounded ← ok_or (bounded_chain_id env.chain_id_max_length chain_id) (dapi bad_chain_id)
    ensure (contains bounded s.chain_ids) (dapi not_exist)
    modify (
        insert_provider provider_id (record {
          provider_type = provider_type;
          operator = operator;
          chain_id = bounded;
          state = registered;
        }))
    modify (deposit_event (provider_registered provider_id provider_type operator chain_id))

  unfoldable pub deposit_provider : Origin → MassbitId → Balance → Action (State W) (Unit {0})
  deposit_provider origin provider_id deposit = do
    operator ← ensure_signed origin
    s ← get_state
    provider ← ok_or (lookup provider_id s.providers) (dapi not_exist)
    ensure (provider.operator == operator) (dapi not_owner)
    ensure (is_registered provider.state) (dapi invalid_provider_state)
    in_world (env.dapi_staking.register operator provider_id deposit)
    modify (insert_provider provider_id (record provider { state = active }))
    modify (deposit_event (provider_activated provider_id provider.provider_type))

  unfoldable pub unregister_provider : Origin → MassbitId → Action (State W) (Unit {0})
  unregister_provider origin provider_id = do
    account ← ensure_signed origin
    s ← get_state
    provider ← ok_or (lookup provider_id s.providers) (dapi not_exist)
    ensure (provider.operator == account) (dapi not_owner)
    ensure (is_active provider.state) (dapi inactive_provider)
    in_world (env.dapi_staking.unregister provider_id)
    modify (insert_provider provider_id (record provider { state = in_active }))
    modify (deposit_event (provider_deactivated provider_id provider.provider_type un_registered))

  unfoldable pub report_provider_offence :
      Origin → MassbitId → ProviderDeactivateReason → Action (State W) (Unit {0})
  report_provider_offence origin provider_id reason = do
    regulator ← ensure_signed origin
    s ← get_state
    ensure (contains regulator s.regulators) (dapi permission_denied)
    provider ← ok_or (lookup provider_id s.providers) (dapi not_exist)
    ensure (is_active provider.state) (dapi invalid_provider_state)
    in_world (env.dapi_staking.unregister provider_id)
    modify (insert_provider provider_id (record provider { state = in_active }))
    modify (deposit_event (provider_deactivated provider_id provider.provider_type reason))

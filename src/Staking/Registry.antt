-- ===== src/Staking/Registry.antt =====
-- The trait `DapiStaking` as pallets/dapi-staking/src/pallet/mod.rs implements it: providers are
-- registered with a deposit, and unregistered.
pub mod Outcomes
use massbit_verification.Prelude.{◌-◌, not, leb, nat_eq, add_u128}
use massbit_verification.StorageMap.{lookup, contains_key}
use massbit_verification.Dispatch.{
  AccountId, Balance, signed, Action, staking, already_registered_provider, insufficient_value,
  not_operated_provider, get_state, modify, ensure, ok_or, zoom, ◌>>=◌, ◌>>◌,
}
use massbit_verification.Staking.State.{
  ProviderId, Env, State, unregistered, new_provider, insert_provider, is_registered,
}
use massbit_verification.Staking.Calls.{stake}

module _ {B I P : Type 0} (env : Env B I P) where
  open env use {config, currency}

  unfoldable pub register : AccountId → ProviderId → Balance → Action (State B) (Unit {0})
  register operator provider_id deposit = do
    s ← get_state
    ensure (not (contains_key provider_id s.registered_providers))
        (staking already_registered_provider)
    ensure (leb (add_u128 config.register_deposit config.minimum_staking_amount) deposit)
        (staking insufficient_value)
    zoom (λ t. t.bank) (λ t b. record t { bank = b })
        (currency.reserve operator config.register_deposit)
    modify (insert_provider provider_id (new_provider operator))
    stake env (signed operator) provider_id (deposit - config.register_deposit)

  unfoldable pub unregister : ProviderId → Action (State B) (Unit {0})
  unregister provider_id = do
    s ← get_state
    provider_info ←
        ok_or (lookup provider_id s.registered_providers) (staking not_operated_provider)
    ensure (is_registered provider_info.state) (staking not_operated_provider)
    modify
        (insert_provider provider_id (record provider_info { state = unregistered s.current_era }))

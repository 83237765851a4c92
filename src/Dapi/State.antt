-- ===== src/Dapi/State.antt =====
-- The data and the storage of pallets/dapi: src/types.rs, and the configuration, storage and events
-- of src/lib.rs.
use massbit_verification.Prelude.{
  ℕ, ◌/◌, Bool, true, false, Option, none, some, List, [], ◌∷◌, ◌++◌, ltb, leb, length,
  if◌then◌else◌, u128_size,
}
use massbit_verification.StorageMap.{StorageMap}
use massbit_verification.Dispatch.{AccountId, Balance, Action}
use massbit_verification.Currency.{Currency}

abbrev pub MassbitId : Type 0
MassbitId = ℕ

-- A blockchain's name, as bytes.
abbrev pub ChainId : Type 0
ChainId = List ℕ

pub record Project : Type 0 where
  pub consumer : AccountId
  pub chain_id : ChainId
  pub quota : ℕ
  pub usage : ℕ

pub data ProviderType : Type 0 where
  gateway node : ProviderType

pub data ProviderState : Type 0 where
  registered active in_active : ProviderState

pub record Provider : Type 0 where
  pub provider_type : ProviderType
  pub operator : AccountId
  pub chain_id : ChainId
  pub state : ProviderState

pub data ProviderDeactivateReason : Type 0 where
  bad_performance : ℕ → ℕ → ℕ → ProviderDeactivateReason
  out_of_sync un_registered : ProviderDeactivateReason

pub data Event : Type 0 where
  project_registered : MassbitId → AccountId → ChainId → ℕ → Event
  project_deposited : MassbitId → ℕ → Event
  project_reached_quota : MassbitId → Event
  provider_registered : MassbitId → ProviderType → AccountId → ChainId → Event
  provider_activated : MassbitId → ProviderType → Event
  provider_deactivated : MassbitId → ProviderType → ProviderDeactivateReason → Event
  chain_id_added chain_id_removed : ChainId → Event
  regulator_added regulator_removed : AccountId → Event

-- The trait `DapiStaking`, over the state `W` of the pallets beside this one.
pub record DapiStaking (W : Type 0) : Type 0 where
  pub register : AccountId → MassbitId → Balance → Action W (Unit {0})
  pub unregister : MassbitId → Action W (Unit {0})

-- `Config`. `W` holds the currency and the staking pallet; `on_project_payment` is
-- `T::OnProjectPayment::on_unbalanced`.
pub record Env (W I : Type 0) : Type 0 where
  pub currency : Currency W I
  pub dapi_staking : DapiStaking W
  pub chain_id_max_length : ℕ
  pub on_project_payment : I → W → W

pub record State (W : Type 0) : Type 0 where
  pub world : W
  pub projects : StorageMap MassbitId Project
  pub providers : StorageMap MassbitId Provider
  pub regulators : List AccountId
  pub chain_ids : List ChainId
  pub events : List Event

module _ {W : Type 0} where
  unfoldable pub deposit_event : Event → State W → State W
  deposit_event e s = record s { events = s.events ++ e ∷ [] }

-- `chain_id.try_into()`, into a vector of bounded length
unfoldable pub bounded_chain_id : ℕ → ChainId → Option ChainId
bounded_chain_id max chain_id = if leb (length chain_id) max then some chain_id else none

-- One unit of quota costs 10 ^ 15.
unfoldable pub calculate_quota : Balance → ℕ
calculate_quota amount = (if ltb amount u128_size then amount else 0) / 1_000_000_000_000_000

abbrev pub is_registered : ProviderState → Bool
is_registered registered = true
is_registered active = false
is_registered in_active = false

abbrev pub is_active : ProviderState → Bool
is_active registered = false
is_active active = true
is_active in_active = false

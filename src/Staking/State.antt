-- ===== src/Staking/State.antt =====
-- The constants and the storage of pallets/dapi-staking/src/pallet/mod.rs, and the functions that
-- the calls share for reading and writing it.
pub mod Access
pub mod Sums
use massbit_verification.Prelude.{
  ℕ, ◌+◌, ◌-◌, Bool, true, false, Option, none, some, List, [], ◌∷◌, ◌++◌, nat_eq, pair_eq,
  if◌then◌else◌,
}
use massbit_verification.StorageMap.{StorageMap, lookup, insert, remove}
use massbit_verification.Dispatch.{AccountId, Balance, EraIndex}
use massbit_verification.Currency.{Currency, Perbill, dapistak}
use massbit_verification.Staking.StakerInfo
use massbit_verification.Staking.StakerInfo.{StakerInfo, no_stakes}
use massbit_verification.Staking.Unbonding.{AccountLedger, empty_ledger, ledger_is_empty}

abbrev pub ProviderId : Type 0
ProviderId = ℕ

-- `Config`: the constants of the pallet, with the account of its `PalletId`.
pub record Config (P : Type 0) : Type 0 where
  pub block_per_era : ℕ
  pub operator_reward_percentage : P
  pub register_deposit : Balance
  pub max_number_of_stakers_per_provider : ℕ
  pub minimum_staking_amount : Balance
  pub pallet_account : AccountId
  pub minimum_remaining_amount : Balance
  pub max_unlocking_chunks : ℕ
  pub unbonding_period : ℕ
  pub max_era_stake_values : ℕ

-- `T::DbWeight::get()`
pub record DbWeight : Type 0 where
  pub reads : ℕ → ℕ
  pub reads_writes : ℕ → ℕ → ℕ

-- What the runtime gives to the pallet.
pub record Env (B I P : Type 0) : Type 0 where
  pub currency : Currency B I
  pub perbill : Perbill P
  pub config : Config P
  pub db_weight : DbWeight

pub data ProviderState : Type 0 where
  registered : ProviderState
  unregistered : EraIndex → ProviderState

pub record ProviderInfo : Type 0 where
  pub operator : AccountId
  pub state : ProviderState
  pub unreserved : Bool

-- `ProviderInfo::new`
abbrev pub new_provider : AccountId → ProviderInfo
new_provider operator = record { operator = operator; state = registered; unreserved = false }

pub data Forcing : Type 0 where
  not_forcing force_new : Forcing

pub record RewardInfo : Type 0 where
  pub operators : Balance
  pub stakers : Balance

pub record EraInfo : Type 0 where
  pub rewards : RewardInfo
  pub staked : Balance
  pub locked : Balance

pub record ProviderStakeInfo : Type 0 where
  pub total : Balance
  pub number_of_stakers : ℕ
  pub provider_reward_claimed : Bool

abbrev pub no_rewards : RewardInfo
no_rewards = record { operators = 0; stakers = 0 }

-- `EraInfo::default()`
abbrev pub no_era_info : EraInfo
no_era_info = record { rewards = no_rewards; staked = 0; locked = 0 }

-- `ProviderStakeInfo::default()`
abbrev pub no_stake_info : ProviderStakeInfo
no_stake_info = record { total = 0; number_of_stakers = 0; provider_reward_claimed = false }

pub data Event : Type 0 where
  stake_event unstake_event : AccountId → ProviderId → Balance → Event
  withdraw_from_unregistered : AccountId → ProviderId → Balance → Event
  withdrawn : AccountId → Balance → Event
  new_dapi_staking_era : EraIndex → Event
  reward_event : AccountId → ProviderId → EraIndex → Balance → Event
  provider_unregistered : ProviderId → Event

-- The storage items, the state of the currency and the events deposited so far. The key of
-- `provider_era_stake` is a provider with an era, that of `general_staker_info` a staker
-- with a provider.
pub record State (B : Type 0) : Type 0 where
  pub bank : B
  pub ledger : StorageMap AccountId AccountLedger
  pub current_era : EraIndex
  pub block_reward_accumulator : RewardInfo
  pub force_era : Forcing
  pub registered_providers : StorageMap ProviderId ProviderInfo
  pub general_era_info : StorageMap EraIndex EraInfo
  pub provider_era_stake : StorageMap (ProviderId × EraIndex) ProviderStakeInfo
  pub general_staker_info : StorageMap (AccountId × ProviderId) StakerInfo
  pub events : List Event

-- `unwrap_or_default()`
abbrev pub unwrap_or : {A : Type 0} → A → Option A → A
unwrap_or d none = d
unwrap_or d (some a) = a

abbrev pub is_registered : ProviderState → Bool
is_registered registered = true
is_registered (unregistered e) = false

abbrev pub active_info : Option ProviderInfo → Bool
active_info none = false
active_info (some i) = is_registered i.state

module _ {B : Type 0} where
  -- `Self::ledger(&staker)`
  unfoldable pub ledger_of : AccountId → State B → AccountLedger
  ledger_of staker s = unwrap_or empty_ledger (lookup staker s.ledger)

  -- `Self::staker_info(&staker, &provider_id)`
  unfoldable pub staker_info : AccountId → ProviderId → State B → StakerInfo
  staker_info staker provider_id s =
      unwrap_or no_stakes (lookup (staker, provider_id) s.general_staker_info)

  -- `Self::provider_stake_info(&provider_id, era).unwrap_or_default()`
  unfoldable pub provider_stake_info : ProviderId → EraIndex → State B → ProviderStakeInfo
  provider_stake_info provider_id era s =
      unwrap_or no_stake_info (lookup (provider_id, era) s.provider_era_stake)

  unfoldable pub deposit_event : Event → State B → State B
  deposit_event e s = record s { events = s.events ++ e ∷ [] }

  unfoldable pub is_active_provider : ProviderId → State B → Bool
  is_active_provider provider_id s = active_info (lookup provider_id s.registered_providers)

  -- `GeneralEraInfo::mutate(&era, |value| if let Some(x) = value { .. })`
  unfoldable pub mutate_era_info : EraIndex → (EraInfo → EraInfo) → State B → State B
  mutate_era_info era f s = elim (lookup era s.general_era_info) [
    | none ↦ s
    | some x ↦ record s { general_era_info = insert era (f x) s.general_era_info }
  ]

  unfoldable pub insert_provider_era_stake :
      ProviderId → EraIndex → ProviderStakeInfo → State B → State B
  insert_provider_era_stake provider_id era info s = record s {
    provider_era_stake = insert (provider_id, era) info s.provider_era_stake;
  }

  unfoldable pub insert_provider : ProviderId → ProviderInfo → State B → State B
  insert_provider provider_id info s = record s {
    registered_providers = insert provider_id info s.registered_providers;
  }

  unfoldable pub update_staker_info : AccountId → ProviderId → StakerInfo → State B → State B
  update_staker_info staker provider_id info s = record s {
    general_staker_info =
        if StakerInfo.is_empty info
        then remove (staker, provider_id) s.general_staker_info
        else insert (staker, provider_id) info s.general_staker_info;
  }

module _ {B I P : Type 0} (env : Env B I P) where
  unfoldable pub update_ledger : AccountId → AccountLedger → State B → State B
  update_ledger staker l s =
      if ledger_is_empty l
      then record s {
        ledger = remove staker s.ledger;
        bank = env.currency.remove_lock dapistak staker s.bank;
      }
      else record s {
        ledger = insert staker l s.ledger;
        bank = env.currency.set_lock dapistak staker l.locked s.bank;
      }

  unfoldable pub available_staking_balance : AccountId → AccountLedger → State B → Balance
  available_staking_balance staker l s =
      env.currency.free_balance staker s.bank - env.config.minimum_remaining_amount - l.locked

  -- The parts of the rewards of an era for the operator of a provider and for its stakers.
  unfoldable pub operator_stakers_split : ProviderStakeInfo → EraInfo → Balance × Balance
  operator_stakers_split provider_info era_info =
      let portion = env.perbill.from_rational provider_info.total era_info.staked in
      (
        env.perbill.of_amount portion era_info.rewards.operators,
        env.perbill.of_amount portion era_info.rewards.stakers,
      )

-- ===== src/Runtime/Genesis.antt =====
-- node/src/local/chain_spec.rs: the state that the local chain starts in, through the genesis builds
-- of the pallets, and what holds from there on.
pub mod Chain
use massbit_verification.Prelude.{ℕ, Option, none, some, List, [], ◌∷◌, map}
use massbit_verification.Dispatch.{AccountId, Balance}
use massbit_verification.Currency.{Perbill}
use massbit_verification.Staking.State
use massbit_verification.Staking.State.{no_rewards, not_forcing}
use massbit_verification.Dapi.State as Dapi
use massbit_verification.Dapi.Roles as Roles
use massbit_verification.BlockReward as Reward
use massbit_verification.BlockReward.{RewardDistributionConfig}
use massbit_verification.Runtime.{Setup, dapi_env, reward_env}
use massbit_verification.Runtime.System.{System}

-- The runtime's `GenesisConfig`; an authority is a number, `code` are the bytes of the runtime.
pub record GenesisConfig (P : Type 0) : Type 0 where
  pub code : List ℕ
  pub balances : List (AccountId × Balance)
  pub block_reward : RewardDistributionConfig P
  pub aura : List ℕ
  pub grandpa : List (ℕ × ℕ)
  pub sudo : Option AccountId
  pub dapi : List AccountId

unfoldable pub testnet_genesis :
    {P : Type 0}
    → Perbill P
    → List ℕ
    → List (ℕ × ℕ)
    → AccountId
    → List AccountId
    → List AccountId
    → GenesisConfig P
testnet_genesis perbill code initial_authorities root_key endowed_accounts initial_regulators =
    record {
      code = code;
      balances = map (λ k. (k, 100_000_000_000_000_000_000_000)) endowed_accounts;
      block_reward = record {
        providers_percent = perbill.from_percent 100;
        validators_percent = perbill.zero_part;
      };
      aura = map (λ x. x.0) initial_authorities;
      grandpa = map (λ x. (x.1, 1)) initial_authorities;
      sudo = some root_key;
      dapi = initial_regulators;
    }

-- The storage of the staking pallet before anything has been written.
abbrev pub no_staking : {B : Type 0} → B → State.State B
no_staking bank = record {
  bank = bank;
  ledger = [];
  current_era = 0;
  block_reward_accumulator = no_rewards;
  force_era = not_forcing;
  registered_providers = [];
  general_era_info = [];
  provider_era_stake = [];
  general_staker_info = [];
  events = [];
}

module _ {B I P : Type 0} (r : Setup B I P) (endow : List (AccountId × Balance) → B) where
  -- The genesis builds of the pallets of this repository; `none` is a failed assertion. `endow` is
  -- that of the balances pallet.
  unfoldable pub build : GenesisConfig P → Option (System B P)
  unfolding dapi_env reward_env
  build g =
      let staking = no_staking (endow g.balances) in
      let empty : Dapi.State (State.State B) = record {
        world = staking;
        projects = [];
        providers = [];
        regulators = [];
        chain_ids = [];
        events = [];
      } in
      let before : Reward.State (State.State B) P = record {
        world = staking;
        reward_config = Reward.default_config r.perbill;
        events = [];
      } in
      elim (Reward.build (reward_env r) g.block_reward before) [
        | none ↦ none
        | some after ↦ some (record {
          dapi = Roles.build (dapi_env r) g.dapi empty;
          reward_config = after.reward_config;
          reward_events = after.events;
        })
      ]

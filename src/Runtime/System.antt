-- ===== src/Runtime/System.antt =====
-- runtime/local/src/lib.rs: `construct_runtime!`, the pallets of this repository in one state, and
-- what may happen to it: calls, the hooks of a block, and what the framework's own pallets do to the
-- balances.
pub mod Sides
pub mod Linked
pub mod Sound
use massbit_verification.Prelude.{ℕ, List, [], ◌∷◌}
use massbit_verification.Dispatch.{Origin, Action, zoom}
use massbit_verification.Staking.State
use massbit_verification.Staking.Pallet as Staking
use massbit_verification.Staking.Eras.{on_initialize}
use massbit_verification.Dapi.State as Dapi
use massbit_verification.Dapi.Pallet
use massbit_verification.BlockReward as Reward
use massbit_verification.BlockReward.{RewardDistributionConfig, set_configuration, on_timestamp_set}
use massbit_verification.Runtime.{Setup, staking_env, dapi_env, reward_env}

-- The storage of the three pallets. The staking pallet, which holds the currency, is what the dapi
-- pallet has beside it.
pub record System (B P : Type 0) : Type 0 where
  pub dapi : Dapi.State (State.State B)
  pub reward_config : RewardDistributionConfig P
  pub reward_events : List (RewardDistributionConfig P)

-- The variants of the runtime's `Call` for these pallets.
pub data RuntimeCall (P : Type 0) : Type 0 where
  dapi_call : Pallet.Call → RuntimeCall P
  dapi_staking_call : Staking.Call → RuntimeCall P
  block_reward_call : RewardDistributionConfig P → RuntimeCall P

-- What happens in a block: the pallets' hooks, calls, and changes of the balances by the
-- framework's pallets, such as transfers and fees.
pub data Happening (B P : Type 0) : Type 0 where
  initialize : ℕ → Happening B P
  timestamp_set : Happening B P
  call : Origin → RuntimeCall P → Happening B P
  balances : (B → B) → Happening B P

module _ {B P : Type 0} where
  abbrev pub staking_part : System B P → State.State B
  staking_part x = x.dapi.world

  abbrev pub with_staking : System B P → State.State B → System B P
  with_staking x s = record x { dapi = record x.dapi { world = s } }

  abbrev pub reward_part : System B P → Reward.State (State.State B) P
  reward_part x = record {
    world = x.dapi.world;
    reward_config = x.reward_config;
    events = x.reward_events;
  }

  abbrev pub with_reward : System B P → Reward.State (State.State B) P → System B P
  with_reward x s = record {
    dapi = record x.dapi { world = s.world };
    reward_config = s.reward_config;
    reward_events = s.events;
  }

module _ {B I P : Type 0} (r : Setup B I P) where
  unfoldable pub dispatch : RuntimeCall P → Origin → Action (System B P) (Unit {0})
  unfolding staking_env dapi_env reward_env
  dispatch (dapi_call c) o =
      zoom (λ x. x.dapi) (λ x d. record x { dapi = d }) (Pallet.dispatch (dapi_env r) c o)
  dispatch (dapi_staking_call c) o =
      zoom staking_part with_staking (Staking.dispatch (staking_env r) c o)
  dispatch (block_reward_call c) o =
      zoom reward_part with_reward (set_configuration (reward_env r) o c)

  unfoldable pub step : Happening B P → System B P → System B P
  unfolding dispatch staking_env reward_env
  step (initialize now) x = with_staking x (on_initialize (staking_env r) now (staking_part x)).1
  step timestamp_set x = with_reward x (on_timestamp_set (reward_env r) (reward_part x))
  step (call o c) x = (dispatch c o x).1
  step (balances f) x = let s = staking_part x in with_staking x (record s { bank = f s.bank })

  unfoldable pub run : List (Happening B P) → System B P → System B P
  unfolding step
  run [] x = x
  run (h ∷ hs) x = run hs (step h x)

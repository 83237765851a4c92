-- ===== src/Runtime/Genesis/Chain.antt =====
-- What holds of the local chain, from its genesis on.
use massbit_verification.Prelude.{
  ℕ, ◌≤◌, ◌<◌, ◌≡◌, refl, true, some, List, [], ◌∷◌, arith, length, u32_size, nat_eq, nat_beq_iff,
}
use massbit_verification.StorageMap.{lookup, sum_by}
use massbit_verification.Dispatch.{AccountId, Balance, Origin}
use massbit_verification.Currency.{Perbill}
use massbit_verification.Staking.State.{ledger_of, staker_info, is_active_provider}
use massbit_verification.Staking.State.Sums.{sum_on}
use massbit_verification.Staking.State.Access.{staked_by}
use massbit_verification.Staking.Unbonding.Laws.{total}
use massbit_verification.Dapi.Roles
use massbit_verification.BlockReward as Reward
use massbit_verification.BlockReward.{
  RewardDistributionConfig, is_consistent, add_up, set_configuration, on_timestamp_set,
  distribute_rewards, default_config,
}
use massbit_verification.Runtime.{Setup, UnbalancedLaws, reward_env, dapi_env}
use massbit_verification.Runtime.System.{
  System, RuntimeCall, Happening, dapi_call, dapi_staking_call, block_reward_call, initialize,
  timestamp_set, call, balances, dispatch, step, run, reward_part,
}
use massbit_verification.Runtime.System.Linked.{InStep, run-InStep}
use massbit_verification.Runtime.System.Sound.{Sound, run-Sound}
use massbit_verification.Runtime.Genesis.{GenesisConfig, testnet_genesis, no_staking, build}

-- Documented of fractions: a hundred percent is the whole, and zero adds nothing to the whole.
pub record WholeLaws {P : Type 0} (p : Perbill P) : Type 0 where
  pub whole : p.from_percent 100 ≡ p.one_part
  pub zero-add : p.checked_add p.zero_part p.one_part ≡ some p.one_part
  pub add-zero : p.checked_add p.one_part p.zero_part ≡ some p.one_part

pub no_staking-Sound : {B : Type 0} (b : B) → Sound 0 (no_staking b)
unfolding lookup is_active_provider sum_on ledger_of staker_info total staked_by sum_by
no_staking-Sound b = record {
  books = record {
    distinct = tt;
    balanced = λ a. refl;
    bounded = λ a. omega arith;
    ordered = λ a. tt;
    rising = λ a p. tt;
  };
  totals = record {
    entries = tt;
    providers = tt;
    ahead = λ p e h. refl;
    unknown = λ p h. (refl, refl, refl);
    covers = λ p h. ground arith;
  };
  era = refl;
}

module _ {B I P : Type 0} (r : Setup B I P) where
  -- The shares of the rewards add up to the whole.
  abbrev pub Consistent : System B P → Type 0
  Consistent x = is_consistent r.perbill x.reward_config ≡ true

  configured-Consistent :
      (o : Origin) (c : RewardDistributionConfig P) (x : System B P)
      → Consistent x
      → is_consistent r.perbill
          (set_configuration (reward_env r) o c (reward_part x)).1.reward_config
        ≡ true
  unfolding set_configuration reward_env
  configured-Consistent o c x k = ground arith

  dispatch-Consistent :
      (c : RuntimeCall P) (o : Origin) (x : System B P)
      → Consistent x
      → Consistent (dispatch r c o x).1
  unfolding dispatch
  dispatch-Consistent (dapi_call c) o x k = k
  dispatch-Consistent (dapi_staking_call c) o x k = k
  dispatch-Consistent (block_reward_call c) o x k = configured-Consistent o c x k

  step-Consistent : (h : Happening B P) (x : System B P) → Consistent x → Consistent (step r h x)
  unfolding step on_timestamp_set distribute_rewards
  step-Consistent (initialize now) x k = k
  step-Consistent timestamp_set x k = k
  step-Consistent (call o c) x k = dispatch-Consistent c o x k
  step-Consistent (balances f) x k = k

  run-Consistent :
      (hs : List (Happening B P)) (x : System B P) → Consistent x → Consistent (run r hs x)
  unfolding run
  run-Consistent [] x k = k
  run-Consistent (h ∷ hs) x k = run-Consistent hs (step r h x) (step-Consistent h x k)

  module _ (laws : UnbalancedLaws r) (whole : WholeLaws r.perbill)
      (endow : List (AccountId × Balance) → B) where
    genesis-consistent :
        is_consistent r.perbill (record {
          providers_percent = r.perbill.from_percent 100;
          validators_percent = r.perbill.zero_part;
        })
        ≡ true
    unfolding is_consistent add_up
    genesis-consistent =
        let one = r.perbill.one_part in
        ground (
          arith,
          whole.whole,
          whole.zero-add,
          whole.add-zero,
          nat_beq_iff (r.perbill.parts one) (r.perbill.parts one),
        )

    -- The state that the genesis builds.
    abbrev genesis_state : GenesisConfig P → System B P
    genesis_state g = record {
      dapi = Roles.build (dapi_env r) g.dapi (record {
        world = no_staking (endow g.balances);
        projects = [];
        providers = [];
        regulators = [];
        chain_ids = [];
        events = [];
      });
      reward_config = g.block_reward;
      reward_events = [];
    }

    genesis_state-built :
        (g : GenesisConfig P)
        → is_consistent r.perbill g.block_reward ≡ true
        → build r endow g ≡ some (genesis_state g)
    unfolding build Reward.build reward_env
    genesis_state-built g ok = ground (arith, ok)

    genesis_state-InStep : (g : GenesisConfig P) → InStep (genesis_state g)
    unfolding Roles.build lookup
    genesis_state-InStep g q = refl

    -- The genesis of the local chain is accepted by the pallets, for any runtime code, authorities,
    -- root account, endowed accounts and regulators. Whatever happens to the chain from then on
    -- (calls of the pallets from any origin, failed or not, the hooks of blocks, changes of the
    -- balances by other pallets, in any order): each provider of the dapi pallet is in step with the
    -- staking pallet, the shares of block rewards add up to the whole, and the books and the totals
    -- of the staking pallet are kept. Conditions: fewer than 2 ^ 32 things happen, `OnUnbalanced`
    -- drops zero imbalances and hands on all others, a hundred percent is the whole, and
    -- zero adds nothing to the whole.
    pub testnet_genesis_lem :
        (code : List ℕ) (authorities : List (ℕ × ℕ)) (root_key : AccountId)
        (endowed regulators : List AccountId) (hs : List (Happening B P))
        → length hs < u32_size
        → let g = testnet_genesis r.perbill code authorities root_key endowed regulators in
          (x : System B P) × (build r endow g ≡ some x)
          × InStep (run r hs x)
          × Consistent (run r hs x)
          × ((e : ℕ) × (e ≤ length hs) × Sound e (run r hs x).dapi.world)
    unfolding testnet_genesis Roles.build
    testnet_genesis_lem code authorities root_key endowed regulators hs few =
        let g = testnet_genesis r.perbill code authorities root_key endowed regulators in
        let x = genesis_state g in
        let (e, late, sound) =
          run-Sound r laws hs 0 x (omega arith) (no_staking-Sound (endow g.balances)) in
        (
          x,
          genesis_state-built g genesis-consistent,
          run-InStep r laws hs x (genesis_state-InStep g),
          run-Consistent hs x genesis-consistent,
          (e, omega arith, sound),
        )

-- ===== src/Tests/Systems.antt =====
-- Examples of the totals of the staking pallet, and of the runtime's pallets together.
use massbit_verification.Staking.State.Access.{staked_by}
use massbit_verification.Prelude.{
  ◌+◌, ◌*◌, ◌-◌, ◌≤◌, ◌==◌, ◌≡◌, some, nat_eq, if◌then◌else◌, refl, ℕ, List, [], ◌∷◌, arith, length,
}
use massbit_verification.StorageMap.{lookup, sum_by}
use massbit_verification.Dispatch.{Balance, signed, root}
use massbit_verification.Tests.{Bank, toy_currency, toy_perbill}
use massbit_verification.Tests.Stakers.{toy_env, genesis, genesis-Books, stakes_and_withdraws}
use massbit_verification.Staking.Unbonding.Laws.{total}
use massbit_verification.Staking.State.Sums.{sum_on}
use massbit_verification.Staking.State.{is_active_provider, ledger_of, staker_info}
use massbit_verification.Staking.Pallet as Staking
use massbit_verification.Staking.Pallet.Totals.{Totals}
use massbit_verification.Staking.Pallet.Totals.Runs.{run-Totals}
use massbit_verification.Tests.Calls.{staked_state}
use massbit_verification.Staking.Pallet.Exhaust.{RefusedAfter, claims_end}
use massbit_verification.Staking.Pallet.Limits.{Limited, no_stakes-Proper}
use massbit_verification.Staking.Pallet.Limits.Runs.{run-Limited}
use massbit_verification.Dapi.State.{gateway, out_of_sync}
use massbit_verification.Dapi.Pallet.{
  register_project, register_provider, deposit_provider, report_provider_offence, add_chain_id,
  add_regulator,
}
use massbit_verification.Runtime.{Setup, UnbalancedLaws, mbt}
use massbit_verification.Runtime.System.{
  System, Happening, dapi_call, dapi_staking_call, initialize, timestamp_set, call, balances, run,
}
use massbit_verification.Runtime.Genesis.{GenesisConfig, testnet_genesis, build}
use massbit_verification.Runtime.Genesis.Chain.{WholeLaws, Consistent, testnet_genesis_lem}
use massbit_verification.Runtime.System.Linked.{InStep, run-InStep}
use massbit_verification.Runtime.System.Sound.{Sound, run-Sound}

genesis-Totals : Totals genesis
unfolding lookup is_active_provider sum_on sum_by
genesis-Totals = record {
  entries = tt;
  providers = tt;
  ahead = λ p e h. refl;
  unknown = λ p h. (refl, refl, refl);
  covers = λ p h. ground arith;
}

run-Totals_example : Totals (Staking.run toy_env stakes_and_withdraws genesis)
run-Totals_example =
    run-Totals toy_env (omega arith) (omega arith) stakes_and_withdraws genesis (omega arith)
      genesis-Books genesis-Totals

genesis-Limited : Limited toy_env genesis
unfolding lookup ledger_of staker_info
genesis-Limited = record {
  entries = λ a p. no_stakes-Proper toy_env (omega arith);
  chunks = λ a. omega arith;
}

run-Limited_example : Limited toy_env (Staking.run toy_env stakes_and_withdraws genesis)
run-Limited_example =
    run-Limited toy_env (omega arith) (omega arith) (omega arith) stakes_and_withdraws genesis
      genesis-Limited

claims_end_example : (n : ℕ) × (n ≤ 6 - 5) × RefusedAfter toy_env 8 1 n staked_state
unfolding lookup staker_info
claims_end_example = claims_end toy_env 8 1 5 staked_state (omega arith) (omega arith, tt)

abbrev setup : Setup Bank Balance ℕ
setup = record {
  balances = toy_currency;
  perbill = toy_perbill;
  pallet_account = 99;
  db_weight = record { reads = λ n. 25 * n; reads_writes = λ n m. 25 * n + 100 * m };
  on_unbalanced = λ h i s. if i == 0 then s else h i s;
}

setup-laws : UnbalancedLaws setup
setup-laws = record { on_unbalanced-peek = λ h i s. refl }

-- No block yet.
abbrev fresh : System Bank ℕ
fresh = record {
  dapi = record {
    world = record genesis { bank = (7, 500 * mbt) ∷ (8, 300 * mbt) ∷ [] };
    projects = [];
    providers = [];
    regulators = [];
    chain_ids = [];
    events = [];
  };
  reward_config = record { providers_percent = 1_000_000_000; validators_percent = 0 };
  reward_events = [];
}

-- Two blocks: a project and a provider are registered, the provider is staked on and reported.
abbrev two_blocks : List (Happening Bank ℕ)
two_blocks =
    initialize 1
    ∷ timestamp_set
    ∷ call root (dapi_call (add_chain_id (101 ∷ [])))
    ∷ call root (dapi_call (add_regulator 5))
    ∷ call (signed 8) (dapi_call (register_project 3 (101 ∷ []) (20 * mbt)))
    ∷ call root (dapi_call (register_provider 4 gateway 7 (101 ∷ [])))
    ∷ call (signed 7) (dapi_call (deposit_provider 4 (100 * mbt)))
    ∷ call (signed 8) (dapi_staking_call (Staking.stake 4 (50 * mbt)))
    ∷ initialize 2
    ∷ timestamp_set
    ∷ balances (λ b. b)
    ∷ call (signed 5) (dapi_call (report_provider_offence 4 out_of_sync))
    ∷ []

run-InStep_example : InStep (run setup two_blocks fresh)
unfolding lookup
run-InStep_example = run-InStep setup setup-laws two_blocks fresh (λ q. refl)

fresh-Sound : Sound 0 fresh.dapi.world
unfolding lookup is_active_provider sum_on ledger_of staker_info total staked_by sum_by
fresh-Sound = record {
  books = record {
    distinct = tt;
    balanced = λ a. refl;
    bounded = λ a. omega arith;
    ordered = λ a. tt;
    rising = λ a p. tt;
  };
  totals = record {
    entries = tt;
    providers = tt;
    ahead = λ p e h. refl;
    unknown = λ p h. (refl, refl, refl);
    covers = λ p h. ground arith;
  };
  era = refl;
}

run-Sound_example :
    (e : ℕ) × (e ≤ 0 + length two_blocks) × Sound e (run setup two_blocks fresh).dapi.world
run-Sound_example = run-Sound setup setup-laws two_blocks 0 fresh (omega arith) fresh-Sound

toy_whole : WholeLaws toy_perbill
toy_whole = record { whole = refl; zero-add = refl; add-zero = refl }

-- The genesis with account 5 as regulator, where accounts 7 and 8 are endowed.
abbrev local_genesis : GenesisConfig ℕ
local_genesis = testnet_genesis toy_perbill [] ((1, 2) ∷ []) 6 (7 ∷ 8 ∷ []) (5 ∷ [])

testnet_genesis_lem_example :
    (x : System Bank ℕ) × (build setup (λ b. b) local_genesis ≡ some x)
    × InStep (run setup two_blocks x)
    × Consistent setup (run setup two_blocks x)
    × ((e : ℕ) × (e ≤ length two_blocks) × Sound e (run setup two_blocks x).dapi.world)
testnet_genesis_lem_example =
    testnet_genesis_lem setup setup-laws toy_whole (λ b. b) [] ((1, 2) ∷ []) 6 (7 ∷ 8 ∷ []) (5 ∷ [])
      two_blocks (omega arith)

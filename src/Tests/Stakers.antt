-- ===== src/Tests/Stakers.antt =====
-- Examples of the staking pallet: a provider is registered, accounts stake and unstake, and an era
-- ends.
use massbit_verification.Prelude.{
  ℕ, ◌+◌, ◌*◌, ◌≡◌, refl, true, false, some, List, [], ◌∷◌, nat_beq, if◌then◌else◌, arith, nat_eq,
  pair_eq,
}
use massbit_verification.StorageMap.{lookup, sum_by}
use massbit_verification.Dispatch.{Balance, EraIndex, signed, IsAtomicAt}
use massbit_verification.Tests.{Bank, toy_currency, toy_perbill, toy_perbill_laws, toy_withdraw}
use massbit_verification.Staking.Unbonding.Laws as Chunks
use massbit_verification.Staking.State.Access.{staked_by}
use massbit_verification.Staking.State
use massbit_verification.Staking.State.{
  Env, ProviderId, ProviderStakeInfo, registered, unregistered, no_rewards, not_forcing, unwrap_or,
  no_era_info, ledger_of, staker_info, force_new,
}
use massbit_verification.Staking.Eras.{begins_era, on_initialize, rewards}
use massbit_verification.Staking.Eras.Rotation.{new_era_takes_over, rewards_conserved}
use massbit_verification.Staking.Pallet.{
  stake, unstake, withdraw_unstaked, claim_staker, Operation, call, register_by, reward_with,
  begin_block, dispatch, run,
}
use massbit_verification.Staking.Pallet.Atomicity.{dispatch-IsAtomic}
use massbit_verification.Staking.Pallet.Books.{Books}
use massbit_verification.Staking.Pallet.Ledgers.{run-Books}

abbrev pub toy_env : Env Bank Balance ℕ
toy_env = record {
  currency = toy_currency;
  perbill = toy_perbill;
  config = record {
    block_per_era = 200;
    operator_reward_percentage = 800_000_000;
    register_deposit = 90;
    max_number_of_stakers_per_provider = 3;
    minimum_staking_amount = 10;
    pallet_account = 99;
    minimum_remaining_amount = 1;
    max_unlocking_chunks = 2;
    unbonding_period = 2;
    max_era_stake_values = 5;
  };
  db_weight = record { reads = λ r. 25 * r; reads_writes = λ r w. 25 * r + 100 * w };
}

-- Nothing is staked yet; accounts 7 and 8 have funds.
abbrev pub genesis : State.State Bank
genesis = record {
  bank = (7, 500) ∷ (8, 300) ∷ [];
  ledger = [];
  current_era = 0;
  block_reward_accumulator = no_rewards;
  force_era = not_forcing;
  registered_providers = [];
  general_era_info = [];
  provider_era_stake = [];
  general_staker_info = [];
  events = [];
}

-- Provider 1 is active, provider 2 has been unregistered.
abbrev pub ending : State.State Bank
ending = record genesis {
  current_era = 4;
  block_reward_accumulator = record { operators = 80; stakers = 20 };
  registered_providers =
      (1, record { operator = 7; state = registered; unreserved = false })
      ∷ (2, record { operator = 8; state = unregistered 3; unreserved = false })
      ∷ [];
  general_era_info = (4, record { rewards = no_rewards; staked = 60; locked = 75 }) ∷ [];
  provider_era_stake =
      ((1, 4), record { total = 60; number_of_stakers = 2; provider_reward_claimed = true }) ∷ [];
}

new_era_takes_over_example :
    let t = (on_initialize toy_env 201 ending).1 in
    let old = unwrap_or no_era_info (lookup 4 ending.general_era_info) in
    (t.current_era ≡ 5)
    × (t.block_reward_accumulator ≡ no_rewards)
    × (t.force_era ≡ not_forcing)
    × (t.ledger ≡ ending.ledger)
    × ((e : EraIndex)
        → lookup e t.general_era_info ≡ (
            if nat_beq 4 e
            then some (record old { rewards = ending.block_reward_accumulator })
            else if nat_beq 5 e
            then some (record { rewards = no_rewards; staked = old.staked; locked = old.locked })
            else lookup e ending.general_era_info))
unfolding begins_era
new_era_takes_over_example = new_era_takes_over toy_env 201 ending refl (omega arith)

rewards_conserved_example :
    let t = rewards toy_env 50 ending in
    (t.block_reward_accumulator.operators + t.block_reward_accumulator.stakers ≡ 80 + 20 + 50)
    × (t.bank ≡ toy_env.currency.resolve_creating 99 50 ending.bank)
rewards_conserved_example = rewards_conserved toy_env toy_perbill_laws 50 ending (omega arith)

dispatch-IsAtomic_example : IsAtomicAt (dispatch toy_env (claim_staker 1) (signed 8)) ending
dispatch-IsAtomic_example =
    dispatch-IsAtomic toy_env toy_withdraw (claim_staker 1) (signed 8) ending

-- Account 8 stakes twice in two eras, unstakes a part, and takes out what has unlocked.
abbrev pub stakes_and_withdraws : List (Operation Balance)
stakes_and_withdraws =
    begin_block 1
    ∷ register_by 7 1 100
    ∷ call (signed 8) (stake 1 50)
    ∷ begin_block 201
    ∷ call (signed 8) (stake 1 30)
    ∷ reward_with 40
    ∷ call (signed 8) (unstake 1 20)
    ∷ begin_block 401
    ∷ call (signed 8) (claim_staker 1)
    ∷ begin_block 601
    ∷ call (signed 8) withdraw_unstaked
    ∷ []

pub genesis-Books : Books genesis
unfolding ledger_of staker_info lookup Chunks.total staked_by sum_by
genesis-Books = record {
  distinct = tt;
  balanced = λ a. refl;
  bounded = λ a. omega arith;
  ordered = λ a. tt;
  rising = λ a p. tt;
}

run-Books_example : Books (run toy_env stakes_and_withdraws genesis)
run-Books_example = run-Books toy_env (omega arith) stakes_and_withdraws genesis genesis-Books

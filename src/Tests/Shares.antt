-- ===== src/Tests/Shares.antt =====
-- Examples of the payment of block rewards.
use massbit_verification.Prelude.{refl, ℕ, []}
use massbit_verification.Dispatch.{Balance}
use massbit_verification.Tests.{
  Bank, toy_currency, toy_perbill, toy_parts, toy_splits, deposit_into,
}
use massbit_verification.BlockReward.{State, Env, RewardDistributionConfig, is_consistent, add_up}
use massbit_verification.BlockReward.Shares.{Paid, distribute_rewards_pays}

abbrev pub thirds : RewardDistributionConfig ℕ
thirds = record { providers_percent = 666_666_667; validators_percent = 333_333_333 }

abbrev pub reward_env : Env Bank Balance ℕ
reward_env = record {
  currency = toy_currency;
  perbill = toy_perbill;
  beneficiary_payout = record {
    validators = λ i b. deposit_into 1 i b;
    providers = λ i b. deposit_into 2 i b;
  };
  reward_amount = 2664;
}

abbrev pub reward_state : State Bank ℕ
reward_state = record { world = []; reward_config = thirds; events = [] }

distribute_rewards_pays_example : Paid reward_env 2664 reward_state
unfolding is_consistent add_up
distribute_rewards_pays_example =
    distribute_rewards_pays reward_env 2664 reward_state toy_parts toy_splits refl

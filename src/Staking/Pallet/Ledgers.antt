-- ===== src/Staking/Pallet/Ledgers.antt =====
-- The books hold at all times: every operation keeps them, failed or not, so every run does.
use massbit_verification.Prelude.{◌<◌, List, [], ◌∷◌}
use massbit_verification.Staking.State.{Env, State}
use massbit_verification.Staking.Pallet.{Operation, step, run}
use massbit_verification.Staking.Pallet.Books.{Books, untouched-Books}
use massbit_verification.Staking.Pallet.Keeping.{Keeping, step-Keeping}
use massbit_verification.Staking.Pallet.Preservation.{stake-Books, unstake-Books}
use massbit_verification.Staking.Pallet.Payouts.{
  withdraw_unstaked-Books, withdraw_staker-Books, claim_staker-Books,
}

module _ {B I P : Type 0} (env : Env B I P) (minimum : 0 < env.config.minimum_staking_amount) where
  pub keeping : Keeping env Books
  keeping = record {
    stakes = stake-Books env;
    unstakes = λ a p v s b h. unstake-Books env a p v s minimum b h;
    withdraws = withdraw_unstaked-Books env;
    leaves = withdraw_staker-Books env;
    claims = claim_staker-Books env;
    same = λ s t h _ b. untouched-Books s t h.0 h.1 b;
  }

  pub step-Books : (op : Operation I) (s : State B) → Books s → Books (step env op s)
  step-Books op s b = step-Keeping env Books keeping op s b

  -- Every run of operations of the pallet, failed ones among them, keeps the books, if the minimum
  -- stake is not zero: each account has locked exactly what it has staked on all providers and
  -- what is on its way out, less than 2 ^ 128, and its entries and chunks stay in order.
  pub run-Books : (ops : List (Operation I)) (s : State B) → Books s → Books (run env ops s)
  unfolding run
  run-Books [] s b = b
  run-Books (op ∷ ops) s b = run-Books ops (step env op s) (step-Books op s b)

-- ===== src/BlockReward/Shares.antt =====
-- The shares of a block's reward: what a consistent configuration is, and that everybody it names
-- is paid, but for what rounding loses.
use native.Mathlib.Nat.{mul-add, add-mul, lt_of_mul-lt-mul_left}
use massbit_verification.Prelude.{
  ℕ, ◌+◌, ◌*◌, ◌≤◌, ◌<◌, ◌≡◌, refl, ap, true, Option-cases, inl, inr, arith, nat_beq_iff,
}
use massbit_verification.Currency.{PartsLaws, SplitLaws, Perbill}
use massbit_verification.BlockReward.{
  RewardDistributionConfig, State, Env, is_consistent, add_up, distribute_rewards,
}

module _ {P : Type 0} (p : Perbill P) (laws : PartsLaws p) where
  -- A configuration is consistent only when its shares make up one whole exactly.
  pub is_consistent→whole :
      (c : RewardDistributionConfig P)
      → is_consistent p c ≡ true
      → p.parts c.providers_percent + p.parts c.validators_percent ≡ p.parts p.one_part
  unfolding is_consistent add_up
  is_consistent→whole c ok = elim (Option-cases (p.checked_add p.zero_part c.providers_percent)) [
    | inl none₁ ↦ ground arith
    | inr (x, sum₁) ↦ elim (Option-cases (p.checked_add x c.validators_percent)) [
      | inl none₂ ↦ ground arith
      | inr (y, sum₂) ↦ ground (
        arith,
        laws.parts-zero,
        laws.parts-checked_add p.zero_part c.providers_percent x sum₁,
        laws.parts-checked_add x c.validators_percent y sum₂,
        nat_beq_iff (p.parts p.one_part) (p.parts y),
      )
    ]
  ]

  -- Rounding twice does not overdraw the whole.
  shares-le :
      (x y : P) (n : ℕ)
      → p.parts x + p.parts y ≡ p.parts p.one_part
      → p.of_amount x n + p.of_amount y n ≤ n
  shares-le x y n whole =
      let one = p.parts p.one_part in
      let below : one * (p.of_amount x n + p.of_amount y n) < one * (n + 1) = below_lem in
      omega (arith, lt_of_mul-lt-mul_left one below)
    where
      below_lem :
          p.parts p.one_part * (p.of_amount x n + p.of_amount y n) < p.parts p.one_part * (n + 1)
      below_lem = omega (
        arith,
        laws.of_amount-rounds x n,
        laws.of_amount-rounds y n,
        mul-add (p.parts p.one_part) (p.of_amount x n) (p.of_amount y n),
        mul-add (p.parts p.one_part) n 1,
        add-mul (p.parts x) (p.parts y) n,
        ap (λ k. k * n) whole,
      )

  -- Rounding twice loses at most one.
  shares-ge :
      (x y : P) (n : ℕ)
      → p.parts x + p.parts y ≡ p.parts p.one_part
      → n ≤ p.of_amount x n + p.of_amount y n + 1
  shares-ge x y n whole =
      let one = p.parts p.one_part in
      let above : one * n < one * (p.of_amount x n + p.of_amount y n + 2) = above_lem in
      omega (arith, lt_of_mul-lt-mul_left one above)
    where
      above_lem :
          p.parts p.one_part * n < p.parts p.one_part * (p.of_amount x n + p.of_amount y n + 2)
      above_lem = omega (
        arith,
        laws.parts-one,
        laws.of_amount-reaches x n,
        laws.of_amount-reaches y n,
        mul-add (p.parts p.one_part) (p.of_amount x n + p.of_amount y n) 2,
        mul-add (p.parts p.one_part) (p.of_amount x n) (p.of_amount y n),
        add-mul (p.parts x) (p.parts y) n,
        ap (λ k. k * n) whole,
      )

module _ {W I P : Type 0} (env : Env W I P) (block_reward : I) (s : State W P) where
  open env use {currency, perbill, beneficiary_payout}

  -- The payment of a block's reward: three imbalances that make up all of it, the beneficiaries'
  -- of exactly their shares, and a rest of at most one.
  pub record Paid : Type 0 where
    pub to_providers : I
    pub to_validators : I
    pub left_over : I
    pub providers_share :
        currency.peek to_providers
        ≡ perbill.of_amount s.reward_config.providers_percent (currency.peek block_reward)
    pub validators_share :
        currency.peek to_validators
        ≡ perbill.of_amount s.reward_config.validators_percent (currency.peek block_reward)
    pub all_of_it :
        currency.peek to_providers + currency.peek to_validators + currency.peek left_over
        ≡ currency.peek block_reward
    pub little_lost : currency.peek left_over ≤ 1
    pub paid_out : distribute_rewards env block_reward s ≡ record s {
      world =
          beneficiary_payout.providers to_providers
            (beneficiary_payout.validators to_validators (currency.drop left_over s.world));
    }

  -- Under a consistent configuration, the distribution of a block's reward pays providers and
  -- validators exactly their rounded shares, these and the rest that is dropped make up the whole
  -- reward, and the rest is at most one, which is what rounding twice may lose. Fractions and
  -- splits of imbalances behave as documented.
  pub distribute_rewards_pays :
      PartsLaws perbill → SplitLaws currency → is_consistent perbill s.reward_config ≡ true → Paid
  unfolding distribute_rewards
  distribute_rewards_pays parts splits ok =
      let c = s.reward_config in
      let amount = currency.peek block_reward in
      let to_p = perbill.of_amount c.providers_percent amount in
      let to_v = perbill.of_amount c.validators_percent amount in
      let enough =
        shares-le perbill parts c.providers_percent c.validators_percent amount
          (is_consistent→whole perbill parts c ok) in
      let remainder = (currency.split block_reward to_p).1 in
      let first : to_p ≤ amount = omega (arith, enough) in
      let took = splits.split-peek₂ block_reward to_p first in
      let second : to_v ≤ currency.peek remainder = omega (arith, enough, took) in
      record {
        to_providers = (currency.split block_reward to_p).0;
        to_validators = (currency.split remainder to_v).0;
        left_over = (currency.split remainder to_v).1;
        providers_share = splits.split-peek₁ block_reward to_p first;
        validators_share = splits.split-peek₁ remainder to_v second;
        all_of_it = omega (
          arith,
          took,
          splits.split-peek₁ block_reward to_p first,
          splits.split-peek₁ remainder to_v second,
          splits.split-peek₂ remainder to_v second,
        );
        little_lost = omega (
          arith,
          took,
          splits.split-peek₂ remainder to_v second,
          shares-ge perbill parts c.providers_percent c.validators_percent amount
              (is_consistent→whole perbill parts c ok),
        );
        paid_out = refl;
      }

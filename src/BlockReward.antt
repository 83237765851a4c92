-- ===== src/BlockReward.antt =====
-- pallets/block-reward/src/lib.rs: every block issues a reward, and splits it between validators and
-- providers.
pub mod Shares
use massbit_verification.Prelude.{
  Bool, true, false, Option, none, some, List, [], ◌∷◌, ◌++◌, ◌==◌, nat_eq,
}
use massbit_verification.Dispatch.{
  Balance, Origin, Action, reward, invalid_distribution_configuration, pure, modify, ensure,
  ensure_root, ◌>>=◌, ◌>>◌,
}
use massbit_verification.Currency.{Currency, Perbill}

pub record RewardDistributionConfig (P : Type 0) : Type 0 where
  pub providers_percent : P
  pub validators_percent : P

-- The trait `BeneficiaryPayout`, over the state `W` of the pallets beside this one.
pub record BeneficiaryPayout (W I : Type 0) : Type 0 where
  pub validators : I → W → W
  pub providers : I → W → W

-- `Config`. `W` holds the currency and what the payouts write.
pub record Env (W I P : Type 0) : Type 0 where
  pub currency : Currency W I
  pub perbill : Perbill P
  pub beneficiary_payout : BeneficiaryPayout W I
  pub reward_amount : Balance

pub record State (W P : Type 0) : Type 0 where
  pub world : W
  pub reward_config : RewardDistributionConfig P
  -- the configurations that `DistributionConfigurationChanged` has reported
  pub events : List (RewardDistributionConfig P)

module _ {P : Type 0} (perbill : Perbill P) where
  -- `RewardDistributionConfig::default()`
  unfoldable pub default_config : RewardDistributionConfig P
  default_config = record {
    providers_percent = perbill.from_percent 100;
    validators_percent = perbill.zero_part;
  }

  -- The loop of `is_consistent`; `none` is its early return.
  unfoldable pub add_up : P → List P → Option P
  add_up accumulator [] = some accumulator
  add_up accumulator (p ∷ ps) = elim (perbill.checked_add accumulator p) [
    | none ↦ none
    | some sum ↦ add_up sum ps
  ]

  abbrev pub is_one : Option P → Bool
  is_one none = false
  is_one (some accumulator) = perbill.parts perbill.one_part == perbill.parts accumulator

  -- All shares sum up to one whole.
  unfoldable pub is_consistent : RewardDistributionConfig P → Bool
  unfolding add_up
  is_consistent c =
      is_one (add_up perbill.zero_part (c.providers_percent ∷ c.validators_percent ∷ []))

module _ {W I P : Type 0} (env : Env W I P) where
  open env use {currency, perbill, beneficiary_payout}

  -- `GenesisConfig::build`; `none` is the failed assertion.
  unfoldable pub build : RewardDistributionConfig P → State W P → Option (State W P)
  build c s = elim (is_consistent perbill c) [
    | false ↦ none
    | true ↦ some (record s { reward_config = c })
  ]

  unfoldable pub set_configuration :
      Origin → RewardDistributionConfig P → Action (State W P) (Unit {0})
  set_configuration origin params = do
    ensure_root origin
    ensure (is_consistent perbill params) (reward invalid_distribution_configuration)
    modify λ s. record s { reward_config = params }
    modify λ s. record s { events = s.events ++ params ∷ [] }

  -- What no beneficiary gets goes out of scope as soon as it has been split off.
  unfoldable pub distribute_rewards : I → State W P → State W P
  distribute_rewards block_reward s =
      let c = s.reward_config in
      let amount = currency.peek block_reward in
      let provider_balance = perbill.of_amount c.providers_percent amount in
      let validator_balance = perbill.of_amount c.validators_percent amount in
      let (providers_imbalance, remainder) = currency.split block_reward provider_balance in
      let (validators_imbalance, rest) = currency.split remainder validator_balance in
      let w₁ = beneficiary_payout.validators validators_imbalance (currency.drop rest s.world) in
      let w₂ = beneficiary_payout.providers providers_imbalance w₁ in record s { world = w₂ }

  unfoldable pub on_timestamp_set : State W P → State W P
  unfolding distribute_rewards
  on_timestamp_set s =
      let (inflation, w) = currency.issue env.reward_amount s.world in
      distribute_rewards inflation (record s { world = w })

-- ===== src/Runtime.antt =====
-- runtime/local/src/lib.rs: the constants of the pallets, and how the runtime joins them: the dapi
-- pallet registers providers with the staking pallet, and the payments of projects and the rewards
-- of blocks go into the staking pallet's reward pool.
pub mod System
pub mod Genesis
use massbit_verification.Prelude.{◌*◌, ◌≡◌, ◌==◌, nat_eq, if◌then◌else◌}
use massbit_verification.Dispatch.{AccountId, Balance, zoom}
use massbit_verification.Currency.{Currency, Perbill}
use massbit_verification.Staking.State
use massbit_verification.Staking.State.{DbWeight, Config}
use massbit_verification.Staking.Eras.{rewards}
use massbit_verification.Staking.Registry.{register, unregister}
use massbit_verification.Dapi.State as Dapi
use massbit_verification.BlockReward as Reward

abbrev pub millimbt : Balance
millimbt = 1_000_000_000_000_000

abbrev pub mbt : Balance
mbt = 1_000 * millimbt

-- What the runtime takes from the framework, over the currency's state `B`: the balances, the
-- fractions, the account of `DapiStakingPalletId`, the database weights, and
-- `OnUnbalanced::on_unbalanced` for a handler of nonzero imbalances.
pub record Setup (B I P : Type 0) : Type 0 where
  pub balances : Currency B I
  pub perbill : Perbill P
  pub pallet_account : AccountId
  pub db_weight : DbWeight
  pub on_unbalanced : (I → State.State B → State.State B) → I → State.State B → State.State B

-- Documented of `OnUnbalanced::on_unbalanced`: a zero imbalance is dropped, and any other goes to
-- the handler.
pub record UnbalancedLaws {B I P : Type 0} (r : Setup B I P) : Type 0 where
  pub on_unbalanced-peek :
      (h : I → State.State B → State.State B) (i : I) (s : State.State B)
      → r.on_unbalanced h i s
        ≡ (if r.balances.peek i == 0 then record s { bank = r.balances.drop i s.bank } else h i s)

-- The balances as the pallets beside the staking pallet see them.
abbrev pub lift_currency : {B I : Type 0} → Currency B I → Currency (State.State B) I
lift_currency {B} c =
    let on_bank = λ (f : B → B) (s : State.State B). record s { bank = f s.bank } in
    record {
      free_balance = λ a s. c.free_balance a s.bank;
      minimum_balance = c.minimum_balance;
      reserve = λ a n. zoom (λ s. s.bank) (λ s b. record s { bank = b }) (c.reserve a n);
      unreserve = λ a n. on_bank (c.unreserve a n);
      set_lock = λ i a n. on_bank (c.set_lock i a n);
      remove_lock = λ i a. on_bank (c.remove_lock i a);
      withdraw = λ a n r. zoom (λ s. s.bank) (λ s b. record s { bank = b }) (c.withdraw a n r);
      resolve_creating = λ a i. on_bank (c.resolve_creating a i);
      transfer = λ a b n r. zoom (λ s. s.bank) (λ s t. record s { bank = t }) (c.transfer a b n r);
      issue = λ n s. let (i, b) = c.issue n s.bank in (i, record s { bank = b });
      peek = c.peek;
      split = c.split;
      drop = λ i. on_bank (c.drop i);
    }

module _ {B I P : Type 0} (r : Setup B I P) where
  -- `parameter_types!` of the staking pallet
  unfoldable pub staking_config : Config P
  staking_config = record {
    block_per_era = 200;
    operator_reward_percentage = r.perbill.from_percent 80;
    register_deposit = 90 * mbt;
    max_number_of_stakers_per_provider = 512;
    minimum_staking_amount = 10 * mbt;
    pallet_account = r.pallet_account;
    minimum_remaining_amount = 1 * mbt;
    max_unlocking_chunks = 2;
    unbonding_period = 2;
    max_era_stake_values = 5;
  }

  -- `impl pallet_dapi_staking::Config for Runtime`
  unfoldable pub staking_env : State.Env B I P
  unfolding staking_config
  staking_env = record {
    currency = r.balances;
    perbill = r.perbill;
    config = staking_config;
    db_weight = r.db_weight;
  }

  -- The staking pallet behind the trait `DapiStaking`.
  unfoldable pub dapi_staking : Dapi.DapiStaking (State.State B)
  unfolding staking_env
  dapi_staking = record { register = register staking_env; unregister = unregister staking_env }

  -- `impl pallet_dapi::Config for Runtime`
  unfoldable pub dapi_env : Dapi.Env (State.State B) I
  unfolding dapi_staking
  dapi_env = record {
    currency = lift_currency r.balances;
    dapi_staking = dapi_staking;
    chain_id_max_length = 64;
    on_project_payment = r.on_unbalanced (rewards staking_env);
  }

  -- `impl BeneficiaryPayout for BeneficiaryPayout`: there are no validators to pay.
  unfoldable pub beneficiary_payout : Reward.BeneficiaryPayout (State.State B) I
  unfolding staking_env
  beneficiary_payout = record {
    validators = λ i s. record s { bank = r.balances.drop i s.bank };
    providers = rewards staking_env;
  }

  -- `impl pallet_block_reward::Config for Runtime`
  unfoldable pub reward_env : Reward.Env (State.State B) I P
  unfolding beneficiary_payout
  reward_env = record {
    currency = lift_currency r.balances;
    perbill = r.perbill;
    beneficiary_payout = beneficiary_payout;
    reward_amount = 2_664 * millimbt;
  }

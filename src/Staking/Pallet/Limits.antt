-- ===== src/Staking/Pallet/Limits.antt =====
-- The limits of the storage: how many entries and chunks an account has, and how small a stake is.
pub mod Lengths
pub mod Runs
use massbit_verification.Prelude.{
  ℕ, ◌<◌, ◌≤◌, ◌≡◌, ◌⊎◌, inl, inr, arith, length, if◌then◌else◌, if_both, nat_beq, pair_beq,
}
use massbit_verification.Dispatch.{AccountId}
use massbit_verification.Staking.StakerInfo.{StakerInfo, latest_staked_value, no_stakes}
use massbit_verification.Staking.Unbonding.{AccountLedger}
use massbit_verification.Staking.State.{
  ProviderId, Env, State, ledger_of, staker_info, update_staker_info,
}
use massbit_verification.Staking.State.Access.{
  staker_info_cong, ledger_of_cong, staker_info-update_staker_info, latest_no_stakes,
}

module _ {B I P : Type 0} (env : Env B I P) where
  open env use {config}

  -- The entries of a staker on a provider: few, and either nothing lasts or at least the minimum.
  pub record Proper (i : StakerInfo) : Type 0 where
    pub few : length i.stakes < config.max_era_stake_values
    pub enough :
        (latest_staked_value i ≡ 0) ⊎ (config.minimum_staking_amount ≤ latest_staked_value i)

  abbrev pub FewChunks : AccountLedger → Type 0
  FewChunks l = length l.unbonding_info.unlocking_chunks ≤ config.max_unlocking_chunks

  pub record Limited (s : State B) : Type 0 where
    pub entries : (a : AccountId) (p : ProviderId) → Proper (staker_info a p s)
    pub chunks : (a : AccountId) → FewChunks (ledger_of a s)

  pub no_stakes-Proper : 0 < config.max_era_stake_values → Proper no_stakes
  no_stakes-Proper m = record { few = m; enough = inl latest_no_stakes }

  -- A ledger is written, and the stakes of its account on one provider.
  pub written-Limited :
      (a : AccountId) (p : ProviderId) (l : AccountLedger) (i : StakerInfo) (s t : State B)
      → ((j : AccountId) → ledger_of j t ≡ (if nat_beq a j then l else ledger_of j s))
      → t.general_staker_info ≡ (update_staker_info a p i s).general_staker_info
      → Proper i
      → FewChunks l
      → Limited s
      → Limited t
  written-Limited a p l i s t ledgers infos proper few k = record {
    entries = λ j q.
        rw
          (
            staker_info_cong j q (update_staker_info a p i s) t infos,
            staker_info-update_staker_info a j p q i s,
          )
          (if_both Proper (pair_beq (a, p) (j, q)) proper (k.entries j q));
    chunks = λ j. rw (ledgers j) (if_both FewChunks (nat_beq a j) few (k.chunks j));
  }

  pub ledger_written-Limited :
      (a : AccountId) (l : AccountLedger) (s t : State B)
      → ((j : AccountId) → ledger_of j t ≡ (if nat_beq a j then l else ledger_of j s))
      → t.general_staker_info ≡ s.general_staker_info
      → FewChunks l
      → Limited s
      → Limited t
  ledger_written-Limited a l s t ledgers infos few k = record {
    entries = λ j q. rw (staker_info_cong j q s t infos) (k.entries j q);
    chunks = λ j. rw (ledgers j) (if_both FewChunks (nat_beq a j) few (k.chunks j));
  }

  pub untouched-Limited :
      (s t : State B)
      → t.ledger ≡ s.ledger
      → t.general_staker_info ≡ s.general_staker_info
      → Limited s
      → Limited t
  untouched-Limited s t ledgers infos k = record {
    entries = λ j q. rw (staker_info_cong j q s t infos) (k.entries j q);
    chunks = λ j. rw (ledger_of_cong j s t ledgers) (k.chunks j);
  }

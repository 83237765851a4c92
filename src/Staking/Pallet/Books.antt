-- ===== src/Staking/Pallet/Books.antt =====
-- The books of the stakers: an account's ledger has locked exactly what the account has staked on
-- all providers and what is on its way out.
use massbit_verification.Prelude.{
  ◌+◌, ◌≤◌, ◌<◌, ◌≡◌, arith, if◌then◌else◌, nat_beq, pair_eq, u128_size,
}
use massbit_verification.StorageMap.{IsDistinct}
use massbit_verification.Dispatch.{AccountId, Balance}
use massbit_verification.Staking.StakerInfo.{StakerInfo, latest_staked_value}
use massbit_verification.Staking.StakerInfo.History
use massbit_verification.Staking.Unbonding.{AccountLedger}
use massbit_verification.Staking.Unbonding.Laws.{total, RisesFrom}
use massbit_verification.Staking.State.{
  ProviderId, State, ledger_of, staker_info, update_staker_info,
}
use massbit_verification.Staking.State.Access.{
  staked_by, staked_by-update_staker_info, update_staker_info-IsDistinct,
  staker_info-update_staker_info, staked_by_cong, staker_info_cong, ledger_of_cong,
  latest-le-staked_by,
}

-- The chunks of an account on their way out.
abbrev pub unbonding_of : {B : Type 0} → AccountId → State B → Balance
unbonding_of a s = total (ledger_of a s).unbonding_info.unlocking_chunks

pub record Books {B : Type 0} (s : State B) : Type 0 where
  pub distinct : IsDistinct s.general_staker_info
  pub balanced : (a : AccountId) → (ledger_of a s).locked ≡ staked_by a s + unbonding_of a s
  pub bounded : (a : AccountId) → (ledger_of a s).locked < u128_size
  pub ordered : (a : AccountId) → RisesFrom 0 (ledger_of a s).unbonding_info.unlocking_chunks
  pub rising : (a : AccountId) (p : ProviderId) → History.RisesFrom 0 (staker_info a p s).stakes

module _ {B : Type 0} where
  -- A ledger is written, and the stakes of its account on one provider.
  module _ (a : AccountId) (p : ProviderId) (l : AccountLedger) (i : StakerInfo) (s t : State B)
      (ledgers : (j : AccountId) → ledger_of j t ≡ (if nat_beq a j then l else ledger_of j s))
      (infos : t.general_staker_info ≡ (update_staker_info a p i s).general_staker_info)
      (moved : l.locked + latest_staked_value (staker_info a p s) + unbonding_of a s
        ≡ (ledger_of a s).locked + latest_staked_value i + total l.unbonding_info.unlocking_chunks)
      (fits : l.locked < u128_size) (in_order : RisesFrom 0 l.unbonding_info.unlocking_chunks)
      (rises : History.RisesFrom 0 i.stakes) (books : Books s) where
    written_balanced : (j : AccountId) → (ledger_of j t).locked ≡ staked_by j t + unbonding_of j t
    written_balanced j = ground (
      arith,
      ledgers j,
      books.balanced j,
      staked_by_cong j (update_staker_info a p i s) t infos,
      staked_by-update_staker_info a j p i s books.distinct,
    )

    pub written-Books : Books t
    written-Books = record {
      distinct = rw infos (update_staker_info-IsDistinct a p i s books.distinct);
      balanced = written_balanced;
      bounded = λ j. ground (arith, ledgers j, books.bounded j);
      ordered = λ j. ground (arith, ledgers j, books.ordered j);
      rising = λ j q. ground (
        arith,
        staker_info_cong j q (update_staker_info a p i s) t infos,
        staker_info-update_staker_info a j p q i s,
        books.rising j q,
      );
    }

  -- A ledger is written, and nothing else that the books are about.
  pub ledger_written-Books :
      (a : AccountId) (l : AccountLedger) (s t : State B)
      → ((j : AccountId) → ledger_of j t ≡ (if nat_beq a j then l else ledger_of j s))
      → t.general_staker_info ≡ s.general_staker_info
      → l.locked + unbonding_of a s
        ≡ (ledger_of a s).locked + total l.unbonding_info.unlocking_chunks
      → l.locked < u128_size
      → RisesFrom 0 l.unbonding_info.unlocking_chunks
      → Books s
      → Books t
  ledger_written-Books a l s t ledgers infos moved fits in_order books = record {
    distinct = rw infos books.distinct;
    balanced = λ j. ground (arith, ledgers j, books.balanced j, staked_by_cong j s t infos);
    bounded = λ j. ground (arith, ledgers j, books.bounded j);
    ordered = λ j. ground (arith, ledgers j, books.ordered j);
    rising = λ j q. rw (staker_info_cong j q s t infos) (books.rising j q);
  }

  -- Neither is written.
  pub untouched-Books :
      (s t : State B)
      → t.ledger ≡ s.ledger
      → t.general_staker_info ≡ s.general_staker_info
      → Books s
      → Books t
  untouched-Books s t ledgers infos books = record {
    distinct = rw infos books.distinct;
    balanced = λ j.
        ground (arith, ledger_of_cong j s t ledgers, books.balanced j, staked_by_cong j s t infos);
    bounded = λ j. rw (ledger_of_cong j s t ledgers) (books.bounded j);
    ordered = λ j. rw (ledger_of_cong j s t ledgers) (books.ordered j);
    rising = λ j q. rw (staker_info_cong j q s t infos) (books.rising j q);
  }

  -- What is staked on a provider and what is on its way out are together part of the ledger.
  pub latest-add-unbonding-le :
      (a : AccountId) (p : ProviderId) (s : State B)
      → Books s
      → latest_staked_value (staker_info a p s) + unbonding_of a s ≤ (ledger_of a s).locked
  latest-add-unbonding-le a p s b = omega (arith, b.balanced a, latest-le-staked_by a p s)

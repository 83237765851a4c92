-- ===== src/Staking/Unbonding.antt =====
-- `UnlockingChunk`, `UnbondingInfo` and `AccountLedger` of pallets/dapi-staking/src/lib.rs: funds on
-- their way out of staking, as chunks in the order of the eras in which they unlock.
pub mod Laws
use massbit_verification.Prelude.{
  ℕ, zero, suc, ◌+◌, ◌-◌, ◌%◌, Bool, true, false, ◌&&◌, List, [], ◌∷◌, leb, ltb, ◌==◌, nat_eq,
  if◌then◌else◌, length, u32_size, add_u128,
}
use massbit_verification.Dispatch.{Balance, EraIndex}
use massbit_verification.Staking.StakerInfo.{no_chunks}

pub record UnlockingChunk : Type 0 where
  pub amount : Balance
  pub unlock_era : EraIndex

pub record UnbondingInfo : Type 0 where
  pub unlocking_chunks : List UnlockingChunk

pub record AccountLedger : Type 0 where
  pub locked : Balance
  pub unbonding_info : UnbondingInfo

-- `UnlockingChunk::add_amount`
abbrev pub add_amount : UnlockingChunk → Balance → UnlockingChunk
add_amount c amount = record c { amount = add_u128 c.amount amount }

-- `AccountLedger::default()`
abbrev pub empty_ledger : AccountLedger
empty_ledger = record { locked = 0; unbonding_info = record { unlocking_chunks = [] } }

-- `UnbondingInfo::len`
unfoldable pub len : UnbondingInfo → ℕ
len u = length u.unlocking_chunks % u32_size

-- `UnbondingInfo::is_empty`
abbrev pub is_empty : UnbondingInfo → Bool
is_empty u = no_chunks u.unlocking_chunks

-- `iter().map(..).reduce(..)` from the first chunk on
unfoldable pub sum_from : Balance → List UnlockingChunk → Balance
sum_from acc [] = acc
sum_from acc (c ∷ cs) = sum_from (add_u128 acc c.amount) cs

sum_chunks : List UnlockingChunk → Balance
sum_chunks [] = 0
sum_chunks (c ∷ cs) = sum_from c.amount cs

unfoldable pub sum : UnbondingInfo → Balance
unfolding sum_chunks sum_from
sum u = sum_chunks u.unlocking_chunks

-- The answer of `binary_search_by`.
pub data Search : Type 0 where
  found insert_at : ℕ → Search

abbrev pub shift : Search → Search
shift (found n) = found (suc n)
shift (insert_at n) = insert_at (suc n)

-- What `binary_search_by` is documented to answer on chunks in rising order: the place of the
-- chunk with the era, or the place where such a chunk keeps the order.
unfoldable pub search_era : EraIndex → List UnlockingChunk → Search
search_era era [] = insert_at 0
search_era era (c ∷ cs) =
    let later = shift (search_era era cs) in
    if c.unlock_era == era then found 0 else if ltb era c.unlock_era then insert_at 0 else later

unfoldable pub merge_at : ℕ → Balance → List UnlockingChunk → List UnlockingChunk
merge_at n amount [] = []
merge_at zero amount (c ∷ cs) = add_amount c amount ∷ cs
merge_at (suc n) amount (c ∷ cs) = c ∷ merge_at n amount cs

unfoldable pub insert_chunk : ℕ → UnlockingChunk → List UnlockingChunk → List UnlockingChunk
insert_chunk zero chunk cs = chunk ∷ cs
insert_chunk (suc n) chunk [] = chunk ∷ []
insert_chunk (suc n) chunk (c ∷ cs) = c ∷ insert_chunk n chunk cs

unfoldable pub place : Search → UnlockingChunk → List UnlockingChunk → List UnlockingChunk
place (found n) chunk cs = merge_at n chunk.amount cs
place (insert_at n) chunk cs = insert_chunk n chunk cs

unfoldable pub add_chunk : UnlockingChunk → List UnlockingChunk → List UnlockingChunk
unfolding place search_era
add_chunk chunk cs = place (search_era chunk.unlock_era cs) chunk cs

unfoldable pub add : UnbondingInfo → UnlockingChunk → UnbondingInfo
unfolding add_chunk
add u chunk = record { unlocking_chunks = add_chunk chunk u.unlocking_chunks }

unfoldable pub matching : EraIndex → List UnlockingChunk → List UnlockingChunk
matching era [] = []
matching era (c ∷ cs) =
    let rest = matching era cs in if leb c.unlock_era era then c ∷ rest else rest

unfoldable pub others : EraIndex → List UnlockingChunk → List UnlockingChunk
others era [] = []
others era (c ∷ cs) = let rest = others era cs in if leb c.unlock_era era then rest else c ∷ rest

-- The chunks that have unlocked by the era, and the rest.
unfoldable pub partition : UnbondingInfo → EraIndex → UnbondingInfo × UnbondingInfo
unfolding matching others
partition u era = (
  record { unlocking_chunks = matching era u.unlocking_chunks },
  record { unlocking_chunks = others era u.unlocking_chunks },
)

-- `AccountLedger::is_empty`
unfoldable pub ledger_is_empty : AccountLedger → Bool
ledger_is_empty l = l.locked == 0 && is_empty l.unbonding_info

-- ===== src/Staking/Unbonding/Laws.antt =====
-- The chunks keep their order, their amounts add up, and a partition loses nothing.
use massbit_verification.Prelude.{
  ℕ, suc, ◌+◌, ◌≤◌, ◌<◌, ◌≡◌, refl, List, [], ◌∷◌, ◌++◌, arith, if◌then◌else◌, u128_size, nat_beq,
  add_u128,
}
use massbit_verification.Dispatch.{Balance, EraIndex}
use massbit_verification.Staking.Unbonding.{
  UnlockingChunk, UnbondingInfo, sum_from, sum_chunks, sum, search_era, merge_at, insert_chunk,
  place, add_chunk, add, matching, others, partition,
}

-- The chunks unlock in rising eras, from `low` on.
abbrev pub RisesFrom : EraIndex → List UnlockingChunk → Type 0
RisesFrom low [] = Unit {0}
RisesFrom low (c ∷ cs) = (low ≤ c.unlock_era) × RisesFrom (suc c.unlock_era) cs

-- The amounts, added without a bound.
unfoldable pub total : List UnlockingChunk → Balance
total [] = 0
total (c ∷ cs) = c.amount + total cs

-- The amount that unlocks in an era.
unfoldable pub amount_at : EraIndex → List UnlockingChunk → Balance
amount_at e [] = 0
amount_at e (c ∷ cs) =
    let rest = amount_at e cs in if nat_beq c.unlock_era e then c.amount + rest else rest

pub add_chunk-RisesFrom :
    (low : ℕ) (chunk : UnlockingChunk) (cs : List UnlockingChunk)
    → RisesFrom low cs
    → low ≤ chunk.unlock_era
    → RisesFrom low (add_chunk chunk cs)
unfolding add_chunk place search_era merge_at insert_chunk
add_chunk-RisesFrom low chunk [] r h = (h, tt)
add_chunk-RisesFrom low chunk (c ∷ cs) r h =
    ground (arith, add_chunk-RisesFrom (suc c.unlock_era) chunk cs r.1)

pub total-add_chunk :
    (chunk : UnlockingChunk) (cs : List UnlockingChunk)
    → total cs + chunk.amount < u128_size
    → total (add_chunk chunk cs) ≡ total cs + chunk.amount
unfolding total add_chunk place search_era merge_at insert_chunk
total-add_chunk chunk [] h = omega arith
total-add_chunk chunk (c ∷ cs) h = ground (arith, total-add_chunk chunk cs)

pub amount_at-add_chunk :
    (e : ℕ) (chunk : UnlockingChunk) (cs : List UnlockingChunk)
    → total cs + chunk.amount < u128_size
    → amount_at e (add_chunk chunk cs)
      ≡ (if nat_beq chunk.unlock_era e then amount_at e cs + chunk.amount else amount_at e cs)
unfolding total amount_at add_chunk place search_era merge_at insert_chunk
amount_at-add_chunk e chunk [] h = ground arith
amount_at-add_chunk e chunk (c ∷ cs) h = ground (arith, amount_at-add_chunk e chunk cs)

sum_from-total :
    (acc : ℕ) (cs : List UnlockingChunk)
    → acc + total cs < u128_size
    → sum_from acc cs ≡ acc + total cs
unfolding total sum_from
sum_from-total acc [] h = omega arith
sum_from-total acc (c ∷ cs) h = ground (arith, sum_from-total (add_u128 acc c.amount) cs)

sum_chunks-total : (cs : List UnlockingChunk) → total cs < u128_size → sum_chunks cs ≡ total cs
unfolding sum_chunks total
sum_chunks-total [] h = refl
sum_chunks-total (c ∷ cs) h = sum_from-total c.amount cs h

pub sum-total :
    (u : UnbondingInfo) → total u.unlocking_chunks < u128_size → sum u ≡ total u.unlocking_chunks
unfolding sum
sum-total u h = sum_chunks-total u.unlocking_chunks h

-- Adding a chunk keeps the chunks in the order of their eras, with one chunk for an era at most;
-- the sum grows by its amount; and what unlocks in its era grows by its amount, while every
-- other era keeps what it had. This holds if the chunk unlocks in an era from `low` on
-- and all amounts together fit into a `u128`.
pub add_inserts :
    (low : ℕ) (u : UnbondingInfo) (chunk : UnlockingChunk)
    → RisesFrom low u.unlocking_chunks
    → low ≤ chunk.unlock_era
    → total u.unlocking_chunks + chunk.amount < u128_size
    → let u' = add u chunk in
      RisesFrom low u'.unlocking_chunks
      × (sum u' ≡ sum u + chunk.amount)
      × ((e : EraIndex)
          → amount_at e u'.unlocking_chunks ≡ (
              if nat_beq chunk.unlock_era e
              then amount_at e u.unlocking_chunks + chunk.amount
              else amount_at e u.unlocking_chunks))
unfolding add
add_inserts low u chunk r h b = (
  add_chunk-RisesFrom low chunk u.unlocking_chunks r h,
  omega (
    arith,
    total-add_chunk chunk u.unlocking_chunks b,
    sum-total u (omega arith),
    sum-total (add u chunk) (rw (total-add_chunk chunk u.unlocking_chunks b) b),
  ),
  λ e. amount_at-add_chunk e chunk u.unlocking_chunks b,
)

-- All chunks unlock by the era.
abbrev pub UnlockBy : EraIndex → List UnlockingChunk → Type 0
UnlockBy era [] = Unit {0}
UnlockBy era (c ∷ cs) = (c.unlock_era ≤ era) × UnlockBy era cs

matching_late :
    (low era : ℕ) (cs : List UnlockingChunk) → RisesFrom low cs → era < low → matching era cs ≡ []
unfolding matching
matching_late low era [] r h = refl
matching_late low era (c ∷ cs) r h = ground (arith, matching_late (suc c.unlock_era) era cs r.1)

others_late :
    (low era : ℕ) (cs : List UnlockingChunk) → RisesFrom low cs → era < low → others era cs ≡ cs
unfolding others
others_late low era [] r h = refl
others_late low era (c ∷ cs) r h = ground (arith, others_late (suc c.unlock_era) era cs r.1)

matching-append-others :
    (low era : ℕ) (cs : List UnlockingChunk)
    → RisesFrom low cs
    → matching era cs ++ others era cs ≡ cs
unfolding matching others
matching-append-others low era [] r = refl
matching-append-others low era (c ∷ cs) r = ground (
  arith,
  matching-append-others (suc c.unlock_era) era cs r.1,
  matching_late (suc c.unlock_era) era cs r.1,
  others_late (suc c.unlock_era) era cs r.1,
)

matching-UnlockBy : (era : ℕ) (cs : List UnlockingChunk) → UnlockBy era (matching era cs)
unfolding matching
matching-UnlockBy era [] = tt
matching-UnlockBy era (c ∷ cs) = ground (arith, matching-UnlockBy era cs)

RisesFrom-mono : {m n : ℕ} (cs : List UnlockingChunk) → m ≤ n → RisesFrom n cs → RisesFrom m cs
RisesFrom-mono [] h r = tt
RisesFrom-mono (c ∷ cs) h r = (omega arith, r.1)

matching-RisesFrom :
    (low era : ℕ) (cs : List UnlockingChunk) → RisesFrom low cs → RisesFrom low (matching era cs)
unfolding matching
matching-RisesFrom low era [] r = tt
matching-RisesFrom low era (c ∷ cs) r = ground (
  arith,
  matching-RisesFrom (suc c.unlock_era) era cs r.1,
  RisesFrom-mono {m = low} {n = suc c.unlock_era} (matching era cs),
)

others-RisesFrom :
    (low era : ℕ) (cs : List UnlockingChunk)
    → RisesFrom low cs
    → RisesFrom (suc era) (others era cs) × RisesFrom low (others era cs)
unfolding others
others-RisesFrom low era [] r = (tt, tt)
others-RisesFrom low era (c ∷ cs) r = ground (
  arith,
  others-RisesFrom (suc c.unlock_era) era cs r.1,
  RisesFrom-mono {m = low} {n = suc c.unlock_era} (others era cs),
)

pub total-partition :
    (era : ℕ) (cs : List UnlockingChunk)
    → total (matching era cs) + total (others era cs) ≡ total cs
unfolding total matching others
total-partition era [] = omega arith
total-partition era (c ∷ cs) = ground (arith, total-partition era cs)

-- A partition at an era splits chunks in order into those that unlock by the era and those that
-- unlock later: in this order they make up the whole again, both parts stay in order,
-- and the sums add up if all amounts together fit into a `u128`.
pub partition_splits :
    (low : ℕ) (u : UnbondingInfo) (era : EraIndex)
    → RisesFrom low u.unlocking_chunks
    → total u.unlocking_chunks < u128_size
    → let (now, later) = partition u era in
      (now.unlocking_chunks ++ later.unlocking_chunks ≡ u.unlocking_chunks)
      × UnlockBy era now.unlocking_chunks
      × RisesFrom low now.unlocking_chunks
      × RisesFrom (suc era) later.unlocking_chunks
      × (sum now + sum later ≡ sum u)
unfolding partition
partition_splits low u era r b = (
  matching-append-others low era u.unlocking_chunks r,
  matching-UnlockBy era u.unlocking_chunks,
  matching-RisesFrom low era u.unlocking_chunks r,
  (others-RisesFrom low era u.unlocking_chunks r).0,
  omega (
    arith,
    total-partition era u.unlocking_chunks,
    sum-total u b,
    sum-total (record { unlocking_chunks = matching era u.unlocking_chunks })
        (omega (arith, total-partition era u.unlocking_chunks)),
    sum-total (record { unlocking_chunks = others era u.unlocking_chunks })
        (omega (arith, total-partition era u.unlocking_chunks)),
  ),
)

pub total-add :
    (u : UnbondingInfo) (chunk : UnlockingChunk)
    → total u.unlocking_chunks + chunk.amount < u128_size
    → total (add u chunk).unlocking_chunks ≡ total u.unlocking_chunks + chunk.amount
unfolding add
total-add u chunk h = total-add_chunk chunk u.unlocking_chunks h

-- The sum of what has unlocked and the total of the rest make up the total.
pub partition_totals :
    (low : ℕ) (u : UnbondingInfo) (era : EraIndex)
    → RisesFrom low u.unlocking_chunks
    → total u.unlocking_chunks < u128_size
    → let (now, later) = partition u era in
      (sum now + total later.unlocking_chunks ≡ total u.unlocking_chunks)
      × RisesFrom low later.unlocking_chunks
unfolding partition
partition_totals low u era r b = (
  omega (
    arith,
    total-partition era u.unlocking_chunks,
    sum-total (record { unlocking_chunks = matching era u.unlocking_chunks })
        (omega (arith, total-partition era u.unlocking_chunks)),
  ),
  (others-RisesFrom low era u.unlocking_chunks r).1,
)

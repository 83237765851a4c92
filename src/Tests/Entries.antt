-- ===== src/Tests/Entries.antt =====
-- Examples of the entries of a staker and of the unlocking chunks.
use massbit_verification.Prelude.{
  get_last?, set_last, ℕ, ◌+◌, ◌≡◌, refl, List, [], ◌∷◌, ◌++◌, leb, nat_beq, if◌then◌else◌, arith,
}
use massbit_verification.Dispatch.{EraIndex}
use massbit_verification.Staking.StakerInfo.{
  EraStake, StakerInfo, stake, unstake, claim, latest_staked_value, record_value, drop_zero_head,
}
use massbit_verification.Staking.StakerInfo.History.{
  SetsFrom, staked_in, RisesFrom, stake_adds, unstake_subtracts,
}
use massbit_verification.Staking.StakerInfo.Claims.{claim_takes_first, claims_reach, claims, Holds}
use massbit_verification.Staking.StakerInfo.Schedule.{
  Label, staked, unstaked, claimed, Follows, Accepted, Trace, done, next, stakes, unstakes,
  claims as claims_one, accepted-Follows,
}
use massbit_verification.Staking.Unbonding.{UnlockingChunk, UnbondingInfo, add, sum, partition}
use massbit_verification.Staking.Unbonding.Laws as Chunks

abbrev pub entry : EraIndex → ℕ → EraStake
entry e v = record { era = e; staked = v }

-- The example of the source's comment on the entries.
abbrev pub two_entries : StakerInfo
two_entries = record { stakes = entry 5 1000 ∷ entry 10 1300 ∷ [] }

stake_adds_example :
    SetsFrom 5 two_entries.stakes 12 1700 (entry 5 1000 ∷ entry 10 1300 ∷ entry 12 1700 ∷ [])
unfolding stake latest_staked_value record_value get_last? set_last
stake_adds_example =
    stake_adds 5 two_entries 12 400
      {i' = record { stakes = entry 5 1000 ∷ entry 10 1300 ∷ entry 12 1700 ∷ [] }}
      (omega arith, (omega arith, tt)) (omega arith) (omega arith) refl

unstake_subtracts_example : SetsFrom 5 two_entries.stakes 10 900 (entry 5 1000 ∷ entry 10 900 ∷ [])
unfolding unstake latest_staked_value record_value get_last? drop_zero_head set_last
unstake_subtracts_example =
    unstake_subtracts 5 two_entries 10 400
      {i' = record { stakes = entry 5 1000 ∷ entry 10 900 ∷ [] }} (omega arith, (omega arith, tt))
      refl

claim_takes_first_example :
    ((claim two_entries).0 ≡ (5, staked_in two_entries 5))
    × RisesFrom 6 (claim two_entries).1.stakes
    × ((e : EraIndex)
        → staked_in (claim two_entries).1 e ≡ (if leb e 5 then 0 else staked_in two_entries e))
claim_takes_first_example =
    claim_takes_first 5 (entry 5 1000) (entry 10 1300 ∷ []) (omega arith, (omega arith, tt))
      (omega arith)

claims_reach_example : Holds 12 1300 (claims 8 two_entries)
claims_reach_example =
    claims_reach 8 5 two_entries 12 (omega arith, (omega arith, tt))
      (omega arith, (omega arith, tt)) (omega arith) (omega arith) (omega arith)

-- A stake, a claim and an unstake.
abbrev three_calls : List Label
three_calls = staked 12 400 ∷ claimed 5 1000 ∷ unstaked 12 700 ∷ []

abbrev after_calls : StakerInfo
after_calls = record { stakes = entry 6 1000 ∷ entry 10 1300 ∷ entry 12 1000 ∷ [] }

calls-accepted : Trace Accepted three_calls two_entries after_calls
unfolding stake unstake claim record_value get_last? drop_zero_head set_last
calls-accepted =
    next {b = record { stakes = entry 5 1000 ∷ entry 10 1300 ∷ entry 12 1700 ∷ [] }} (stakes refl) (
      next {b = record { stakes = entry 6 1000 ∷ entry 10 1300 ∷ entry 12 1700 ∷ [] }}
        (claims_one (omega arith) refl) (next {b = after_calls} (unstakes refl) done))

accepted-Follows_example : Trace Follows three_calls (staked_in two_entries) (staked_in after_calls)
unfolding latest_staked_value get_last?
accepted-Follows_example =
    accepted-Follows three_calls (omega arith, (omega arith, tt)) (omega arith) (omega arith, tt)
      calls-accepted

abbrev pub chunk : EraIndex → ℕ → UnlockingChunk
chunk e n = record { amount = n; unlock_era = e }

abbrev pub two_chunks : UnbondingInfo
two_chunks = record { unlocking_chunks = chunk 3 20 ∷ chunk 7 30 ∷ [] }

add_inserts_example :
    let u' = add two_chunks (chunk 5 10) in
    Chunks.RisesFrom 3 u'.unlocking_chunks
    × (sum u' ≡ sum two_chunks + 10)
    × ((e : EraIndex)
        → Chunks.amount_at e u'.unlocking_chunks ≡ (
            if nat_beq 5 e
            then Chunks.amount_at e two_chunks.unlocking_chunks + 10
            else Chunks.amount_at e two_chunks.unlocking_chunks))
unfolding Chunks.total
add_inserts_example =
    Chunks.add_inserts 3 two_chunks (chunk 5 10) (omega arith, (omega arith, tt)) (omega arith)
      (omega arith)

partition_splits_example :
    let (now, later) = partition two_chunks 5 in
    (now.unlocking_chunks ++ later.unlocking_chunks ≡ two_chunks.unlocking_chunks)
    × Chunks.UnlockBy 5 now.unlocking_chunks
    × Chunks.RisesFrom 3 now.unlocking_chunks
    × Chunks.RisesFrom 6 later.unlocking_chunks
    × (sum now + sum later ≡ sum two_chunks)
unfolding Chunks.total
partition_splits_example =
    Chunks.partition_splits 3 two_chunks 5 (omega arith, (omega arith, tt)) (omega arith)

-- ===== src/Staking/Pallet/Limits/Lengths.antt =====
-- How the calls change the number of entries and of chunks, and the value that lasts.
use massbit_verification.Prelude.{
  ℕ, suc, zero, ◌-◌, ◌≤◌, ◌≡◌, some, List, [], ◌∷◌, arith, length, length-append, length-set_last,
  Option-cases, inl, inr, get_last?, refl, saturating_add_u128, ap,
}
use massbit_verification.Staking.StakerInfo.{
  EraStake, StakerInfo, stake, unstake, claim, claim_rest, record_value, drop_zero_head, stake_last,
  unstake_last, latest_staked_value,
}
use massbit_verification.Staking.StakerInfo.History.{
  last_value-drop_zero_head, get_last?-record_value,
}
use massbit_verification.Staking.Unbonding.{
  UnlockingChunk, UnbondingInfo, add, add_chunk, place, search_era, merge_at, insert_chunk, others,
  partition, Search, found, insert_at,
}

length-record_value :
    (l : List EraStake) (last : EraStake) (era v : ℕ)
    → length (record_value l last era v) ≤ suc (length l)
unfolding record_value
length-record_value l last era v = ground (
  arith,
  length-set_last (record { staked = v; era = era }) l,
  length-append l (record { staked = v; era = era } ∷ []),
)

length-drop_zero_head : (l : List EraStake) → length (drop_zero_head l) ≤ length l
unfolding drop_zero_head
length-drop_zero_head [] = omega arith
length-drop_zero_head (s ∷ r) = ground arith

pub length-stake :
    (i j : StakerInfo) (era v : ℕ)
    → stake i era v ≡ some j
    → length j.stakes ≤ suc (length i.stakes)
unfolding stake stake_last
length-stake i j era v h = elim (Option-cases (get_last? i.stakes)) [
  | inl empty ↦ ground (arith, length-append i.stakes (record { staked = v; era = era } ∷ []))
  | inr (last, k) ↦
      ground (arith, length-record_value i.stakes last era (saturating_add_u128 last.staked v))
]

pub length-unstake :
    (i j : StakerInfo) (era v : ℕ)
    → unstake i era v ≡ some j
    → length j.stakes ≤ suc (length i.stakes)
unfolding unstake unstake_last
length-unstake i j era v h = elim (Option-cases (get_last? i.stakes)) [
  | inl empty ↦ ground arith
  | inr (last, k) ↦ ground (
    arith,
    length-record_value i.stakes last era (last.staked - v),
    length-drop_zero_head (record_value i.stakes last era (last.staked - v)),
  )
]

pub latest-unstake :
    (i j : StakerInfo) (era v : ℕ)
    → unstake i era v ≡ some j
    → latest_staked_value j ≡ latest_staked_value i - v
unfolding unstake unstake_last latest_staked_value
latest-unstake i j era v h = elim (Option-cases (get_last? i.stakes)) [
  | inl empty ↦ ground arith
  | inr (last, k) ↦ ground (
    arith,
    get_last?-record_value i.stakes last era (last.staked - v) k,
    last_value-drop_zero_head (record_value i.stakes last era (last.staked - v)),
  )
]

length-claim_list : (l : List EraStake) → length (claim (record { stakes = l })).1.stakes ≤ length l
unfolding claim claim_rest
length-claim_list [] = omega arith
length-claim_list (s ∷ []) = omega (arith, length-drop_zero_head (claim_rest s []))
length-claim_list (s ∷ t ∷ r) = ground (arith, length-drop_zero_head (claim_rest s (t ∷ r)))

pub length-claim : (i : StakerInfo) → length (claim i).1.stakes ≤ length i.stakes
length-claim i = length-claim_list i.stakes

length-merge_at : (n v : ℕ) (cs : List UnlockingChunk) → length (merge_at n v cs) ≡ length cs
unfolding merge_at
length-merge_at n v [] = refl
length-merge_at zero v (c ∷ cs) = refl
length-merge_at (suc n) v (c ∷ cs) = ap suc (length-merge_at n v cs)

length-insert_chunk :
    (n : ℕ) (c : UnlockingChunk) (cs : List UnlockingChunk)
    → length (insert_chunk n c cs) ≡ suc (length cs)
unfolding insert_chunk
length-insert_chunk zero c cs = refl
length-insert_chunk (suc n) c [] = refl
length-insert_chunk (suc n) c (d ∷ cs) = ap suc (length-insert_chunk n c cs)

length-place :
    (f : Search) (c : UnlockingChunk) (cs : List UnlockingChunk)
    → length (place f c cs) ≤ suc (length cs)
unfolding place
length-place (found n) c cs = omega (arith, length-merge_at n c.amount cs)
length-place (insert_at n) c cs = omega (arith, length-insert_chunk n c cs)

pub length-add :
    (u : UnbondingInfo) (c : UnlockingChunk)
    → length (add u c).unlocking_chunks ≤ suc (length u.unlocking_chunks)
unfolding add add_chunk
length-add u c = length-place (search_era c.unlock_era u.unlocking_chunks) c u.unlocking_chunks

length-others : (era : ℕ) (cs : List UnlockingChunk) → length (others era cs) ≤ length cs
unfolding others
length-others era [] = omega arith
length-others era (c ∷ cs) = ground (arith, length-others era cs)

pub length-partition :
    (u : UnbondingInfo) (era : ℕ)
    → length (partition u era).1.unlocking_chunks ≤ length u.unlocking_chunks
unfolding partition
length-partition u era = length-others era u.unlocking_chunks

-- ===== src/Staking/StakerInfo/Claims.antt =====
-- How claims go through the eras: each claims the first entry's era for the value staked in it,
-- and the eras after it keep their values.
use massbit_verification.Prelude.{
  ℕ, suc, ◌+◌, ◌<◌, ◌≡◌, List, [], ◌∷◌, arith, leb, if◌then◌else◌, u32_size, ◌⊎◌, zero, ◌∙◌,
  get_last?, refl, nat_beq,
}
use massbit_verification.Dispatch.{Balance, EraIndex}
use massbit_verification.Staking.StakerInfo.{
  EraStake, StakerInfo, drop_zero_head, claim_rest, claim, latest_staked_value, last_value,
}
use massbit_verification.Staking.StakerInfo.History.{
  value_from, staked_in, RisesFrom, value_from_before, value_from-drop_zero_head,
  drop_zero_head-RisesFrom, last_value-drop_zero_head,
}

claim_rest-RisesFrom :
    (low : ℕ) (s : EraStake) (r : List EraStake)
    → RisesFrom low (s ∷ r)
    → suc s.era < u32_size
    → RisesFrom (suc s.era) (claim_rest s r)
unfolding claim_rest
claim_rest-RisesFrom low s [] h b = ground arith
claim_rest-RisesFrom low s (t ∷ r) h b = ground arith

claim_rest-value_from :
    (low : ℕ) (s : EraStake) (r : List EraStake) (e : ℕ)
    → RisesFrom low (s ∷ r)
    → suc s.era < u32_size
    → value_from 0 (claim_rest s r) e ≡ (if leb e s.era then 0 else value_from 0 (s ∷ r) e)
unfolding claim_rest
claim_rest-value_from low s [] e h b = ground arith
claim_rest-value_from low s (t ∷ r) e h b = ground arith

-- A claim returns the first era with the value staked in it, and clears it: in the eras up to it
-- nothing is left to claim, all later eras keep their values, and the entries that are left rise
-- from the era after it. This holds while that era fits into a `u32`.
pub claim_takes_first :
    (low : ℕ) (s : EraStake) (r : List EraStake)
    → RisesFrom low (s ∷ r)
    → suc s.era < u32_size
    → let i : StakerInfo = record { stakes = s ∷ r } in
      ((claim i).0 ≡ (s.era, staked_in i s.era))
      × RisesFrom (suc s.era) (claim i).1.stakes
      × ((e : EraIndex) → staked_in (claim i).1 e ≡ (if leb e s.era then 0 else staked_in i e))
unfolding claim
claim_takes_first low s r h b = (
  ground (arith, value_from_before s.staked (suc s.era) r s.era h.1),
  drop_zero_head-RisesFrom (suc s.era) (claim_rest s r) (claim_rest-RisesFrom low s r h b),
  λ e.
      value_from-drop_zero_head (suc s.era) (claim_rest s r) e (claim_rest-RisesFrom low s r h b)
      ∙ claim_rest-value_from low s r e h b,
)

-- The eras and the values of the claims that succeed, of at most `n` in a row. As in `claim_staker`,
-- a claim of the value zero is refused and keeps the entries, so each later one is refused too.
pub claims : ℕ → StakerInfo → List (EraIndex × Balance)
claims zero i = []
claims (suc n) i =
    let (c, i') = claim i in let rest = claims n i' in if nat_beq c.1 0 then [] else c ∷ rest

-- No entry of value zero comes first or follows another: each era without a stake is one
-- that `unstake` has ended the stakes before with.
abbrev pub IsUnbroken : Balance → List EraStake → Type 0
IsUnbroken last [] = Unit {0}
IsUnbroken last (s ∷ r) = (0 < last + s.staked) × IsUnbroken s.staked r

claim-IsUnbroken :
    (s : EraStake) (r : List EraStake)
    → IsUnbroken 0 (s ∷ r)
    → IsUnbroken 0 (drop_zero_head (claim_rest s r))
unfolding claim_rest drop_zero_head
claim-IsUnbroken s [] h = ground arith
claim-IsUnbroken s (t ∷ r) h = ground arith

-- The list holds the pair of an era and a value.
abbrev pub Holds : EraIndex → Balance → List (EraIndex × Balance) → Type 0
Holds e v [] = ⊥
Holds e v ((e', v') ∷ cs) = ((e ≡ e') × (v ≡ v')) ⊎ Holds e v cs

claims_reach_list :
    (n low : ℕ) (l : List EraStake) (e : EraIndex)
    → RisesFrom low l
    → IsUnbroken 0 l
    → suc e < u32_size
    → 0 < value_from 0 l e
    → e < low + n
    → Holds e (value_from 0 l e) (claims n (record { stakes = l }))
unfolding claims claim
claims_reach_list zero low [] e r k b p h = absurd (omega arith)
claims_reach_list zero low (s ∷ l) e r k b p h = absurd (ground arith)
claims_reach_list (suc n) low [] e r k b p h = absurd (omega arith)
claims_reach_list (suc n) low (s ∷ l) e r k b p h =
    let f = claim_takes_first low s l r (ground arith) in
    ground (
      arith,
      f,
      f.2 e,
      claims_reach_list n (suc s.era) (drop_zero_head (claim_rest s l)) e f.1
          (claim-IsUnbroken s l k),
    )

-- On the entries, every era with a stake is claimed, for the value staked in it, by claims in a row
-- that end at the first claim of the value zero, which `claim_staker` refuses. This is if the
-- entries rise from `low` and fit into a `u32` up to the era, and no entry of value zero comes
-- first or follows another: then as many claims as there are eras from `low` to it are enough.
pub claims_reach :
    (n low : ℕ) (i : StakerInfo) (e : EraIndex)
    → RisesFrom low i.stakes
    → IsUnbroken 0 i.stakes
    → suc e < u32_size
    → 0 < staked_in i e
    → e < low + n
    → Holds e (staked_in i e) (claims n i)
unfolding claims
claims_reach n low i e r k b p h = claims_reach_list n low i.stakes e r k b p h

last_value-claim_rest :
    (s : EraStake) (r : List EraStake)
    → last_value (get_last? (claim_rest s r)) ≡ last_value (get_last? (s ∷ r))
unfolding claim_rest get_last?
last_value-claim_rest s [] = refl
last_value-claim_rest s (t ∷ r) = ground arith

latest-claim_list :
    (l : List EraStake)
    → latest_staked_value (claim (record { stakes = l })).1
      ≡ latest_staked_value (record { stakes = l })
unfolding latest_staked_value claim
latest-claim_list [] = refl
latest-claim_list (s ∷ r) = last_value-drop_zero_head (claim_rest s r) ∙ last_value-claim_rest s r

-- A claim leaves the value that lasts as it was.
pub latest-claim : (i : StakerInfo) → latest_staked_value (claim i).1 ≡ latest_staked_value i
latest-claim i = latest-claim_list i.stakes

pub claim-RisesFrom :
    (l : List EraStake) → RisesFrom 0 l → RisesFrom 0 (claim (record { stakes = l })).1.stakes
unfolding claim claim_rest
claim-RisesFrom [] r = tt
claim-RisesFrom (s ∷ []) r = drop_zero_head-RisesFrom 0 (claim_rest s []) (omega arith, tt)
claim-RisesFrom (s ∷ t ∷ l) r = drop_zero_head-RisesFrom 0 (claim_rest s (t ∷ l)) (ground arith)

-- ===== src/Staking/StakerInfo/Schedule.antt =====
-- What a staker may rely on, without the entries: a schedule that has a value for every era. Staking
-- and unstaking change it from an era on, a claim takes the first value. The entries of `StakerInfo`
-- implement it.
use massbit_verification.Prelude.{
  ℕ, suc, ◌+◌, ◌-◌, ◌≤◌, ◌<◌, ◌≡◌, sym, ap, subst, ◌∙◌, some, List, [], ◌∷◌, arith, leb,
  if◌then◌else◌, get_last?, length, u32_size, u128_size, Option-cases, inl, inr,
}
use massbit_verification.Dispatch.{EraIndex, Balance}
use massbit_verification.Staking.StakerInfo.{
  EraStake, StakerInfo, stake, unstake, claim, stake_last, unstake_last, latest_staked_value,
}
use massbit_verification.Staking.StakerInfo.History.{
  RisesFrom, value_from, staked_in, last-ge, get_last?-none, stake_adds, unstake_subtracts,
  latest_staked_value_lem,
}
use massbit_verification.Staking.StakerInfo.Claims.{
  claim_takes_first, claim-RisesFrom, latest-claim,
}

pub data Label : Type 0 where
  staked unstaked claimed : EraIndex → Balance → Label

abbrev pub Schedule : Type 0
Schedule = EraIndex → Balance

-- What may become of a schedule.
pub data Follows : Label → Schedule → Schedule → Type 0 where
  adds :
      {f g : Schedule} {era v : ℕ}
      → ((e : EraIndex) → g e ≡ (if leb era e then f e + v else f e))
      → Follows (staked era v) f g
  subtracts :
      {f g : Schedule} {era v : ℕ}
      → ((e : EraIndex) → g e ≡ (if leb era e then f e - v else f e))
      → Follows (unstaked era v) f g
  takes_first :
      {f g : Schedule} {era v : ℕ}
      → f era ≡ v
      → ((e : EraIndex) → e < era → f e ≡ 0)
      → ((e : EraIndex) → g e ≡ (if leb e era then 0 else f e))
      → Follows (claimed era v) f g

-- The calls of `StakerInfo` that are accepted, with what a claim returns.
pub data Accepted : Label → StakerInfo → StakerInfo → Type 0 where
  stakes : {i j : StakerInfo} {era v : ℕ} → stake i era v ≡ some j → Accepted (staked era v) i j
  unstakes :
      {i j : StakerInfo} {era v : ℕ} → unstake i era v ≡ some j → Accepted (unstaked era v) i j
  claims :
      {i j : StakerInfo} {era v : ℕ}
      → 0 < length i.stakes
      → claim i ≡ ((era, v), j)
      → Accepted (claimed era v) i j

-- A run of steps.
pub data Trace {A : Type 0} (R : Label → A → A → Type 0) : List Label → A → A → Type 0 where
  done : {a : A} → Trace R [] a a
  next : {a b c : A} {l : Label} {ls : List Label} → R l a b → Trace R ls b c → Trace R (l ∷ ls) a c

-- What the labels stake in all.
abbrev pub staked_total : List Label → Balance
staked_total [] = 0
staked_total (staked e v ∷ ls) = v + staked_total ls
staked_total (unstaked e v ∷ ls) = staked_total ls
staked_total (claimed e v ∷ ls) = staked_total ls

-- The eras that are claimed fit into a `u32`, with the era after them.
abbrev pub ClaimsFit : List Label → Type 0
ClaimsFit [] = Unit {0}
ClaimsFit (staked e v ∷ ls) = ClaimsFit ls
ClaimsFit (unstaked e v ∷ ls) = ClaimsFit ls
ClaimsFit (claimed e v ∷ ls) = (suc e < u32_size) × ClaimsFit ls

-- From the last entry on, the value is the last one.
value_from_last :
    (base low : ℕ) (l : List EraStake) (last : EraStake) (e : ℕ)
    → RisesFrom low l
    → get_last? l ≡ some last
    → last.era ≤ e
    → value_from base l e ≡ last.staked
unfolding get_last?
value_from_last base low [] last e r h k = ground arith
value_from_last base low (s ∷ []) last e r h k = ground arith
value_from_last base low (s ∷ t ∷ l) last e r h k = ground (
  arith,
  last-ge low s last (t ∷ l) r h,
  value_from_last s.staked (suc s.era) (t ∷ l) last e r.1 h k,
)

late_stake :
    (i j : StakerInfo) (era v e : ℕ)
    → RisesFrom 0 i.stakes
    → stake i era v ≡ some j
    → era ≤ e
    → staked_in i e ≡ latest_staked_value i
unfolding stake stake_last latest_staked_value
late_stake i j era v e r h k = elim (Option-cases (get_last? i.stakes)) [
  | inl empty ↦ ground (arith, get_last?-none i.stakes empty)
  | inr (last, found) ↦ ground (arith, value_from_last 0 0 i.stakes last e r found)
]

late_unstake :
    (i j : StakerInfo) (era v e : ℕ)
    → RisesFrom 0 i.stakes
    → unstake i era v ≡ some j
    → era ≤ e
    → staked_in i e ≡ latest_staked_value i
unfolding unstake unstake_last latest_staked_value
late_unstake i j era v e r h k = elim (Option-cases (get_last? i.stakes)) [
  | inl empty ↦ ground (arith, get_last?-none i.stakes empty)
  | inr (last, found) ↦ ground (arith, value_from_last 0 0 i.stakes last e r found)
]

-- What a step keeps: the entries rise, and the last value is bounded.
staked_step :
    (i j : StakerInfo) (era v : ℕ)
    → RisesFrom 0 i.stakes
    → latest_staked_value i + v < u128_size
    → stake i era v ≡ some j
    → RisesFrom 0 j.stakes
      × (latest_staked_value j ≡ latest_staked_value i + v)
      × Follows (staked era v) (staked_in i) (staked_in j)
staked_step i j era v r f h =
    let s = stake_adds 0 i era v r (omega arith) f h in
    (
      s.0,
      latest_staked_value_lem j ∙ s.1,
      adds λ e. ground (arith, s.2 e, late_stake i j era v e r h),
    )

unstaked_step :
    (i j : StakerInfo) (era v : ℕ)
    → RisesFrom 0 i.stakes
    → unstake i era v ≡ some j
    → RisesFrom 0 j.stakes
      × (latest_staked_value j ≤ latest_staked_value i)
      × Follows (unstaked era v) (staked_in i) (staked_in j)
unstaked_step i j era v r h =
    let s = unstake_subtracts 0 i era v r h in
    (
      s.0,
      omega (arith, latest_staked_value_lem j, s.1),
      subtracts λ e. ground (arith, s.2 e, late_unstake i j era v e r h),
    )

claimed_step :
    (l : List EraStake) (j : StakerInfo) (era v : ℕ)
    → RisesFrom 0 l
    → suc era < u32_size
    → 0 < length l
    → claim (record { stakes = l }) ≡ ((era, v), j)
    → Follows (claimed era v) (value_from 0 l) (staked_in j)
unfolding claim
claimed_step [] j era v r f p h = absurd (omega arith)
claimed_step (s ∷ l) j era v r f p h =
    let here : s.era ≡ era = ap (λ x. x.0.0) h in
    let t = claim_takes_first 0 s l r (rw here f) in
    subst (λ x. Follows (claimed x.0.0 x.0.1) (value_from 0 (s ∷ l)) (staked_in x.1)) h
      (takes_first (sym (ap (λ x. x.1) t.0)) (λ e k. ground arith) t.2)

-- The entries implement the schedule: in every run of accepted stakes, unstakes and claims, each step
-- does to the value staked in each era what the schedule allows. A stake or an unstake adds to
-- or takes from the values from its era on, and a claim returns the first era with a value left
-- to claim, or an era before it, with its value, and clears the values up to it. Conditions: the
-- entries rise at the start, what is staked in all fits into a `u128` with the value that lasts
-- at the start, and the claimed eras, with the one after, fit into a `u32`.
pub accepted-Follows :
    (ls : List Label) {i j : StakerInfo}
    → RisesFrom 0 i.stakes
    → latest_staked_value i + staked_total ls < u128_size
    → ClaimsFit ls
    → Trace Accepted ls i j
    → Trace Follows ls (staked_in i) (staked_in j)
accepted-Follows [] r f c done = done
accepted-Follows (staked era v ∷ ls) {i} {j} r f c (next {b} (stakes h) t) =
    let s = staked_step i b era v r (omega arith) h in
    next s.2 (accepted-Follows ls s.0 (omega (arith, s.1)) c t)
accepted-Follows (unstaked era v ∷ ls) {i} {j} r f c (next {b} (unstakes h) t) =
    let s = unstaked_step i b era v r h in
    next s.2 (accepted-Follows ls s.0 (omega (arith, s.1)) c t)
accepted-Follows (claimed era v ∷ ls) {i} {j} r f c (next {b} (claims p h) t) =
    next (claimed_step i.stakes b era v r c.0 p h) (
      accepted-Follows ls
        (subst (λ x. RisesFrom 0 x.stakes) (ap (λ x. x.1) h) (claim-RisesFrom i.stakes r))
        (omega (arith, latest-claim i, ap (λ x. latest_staked_value x.1) h)) c.1 t)

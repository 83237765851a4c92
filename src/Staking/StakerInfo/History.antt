-- ===== src/Staking/StakerInfo/History.antt =====
-- What the entries mean: the value staked in every era, as the comment on `StakerInfo` reads them,
-- and how `stake` and `unstake` change it.
use massbit_verification.Prelude.{
  ℕ, suc, ◌≤◌, ◌≡◌, some, List, [], ◌∷◌, arith, leb, if◌then◌else◌, get_last?, set_last, ◌<◌,
  get_last?-set_last, none, get_last?-push, ◌+◌, refl, u128_size, inl, inr, ◌∙◌, Option, subst, ◌-◌,
  Bool-cases, ltb, sym, ◌++◌,
}
use massbit_verification.Dispatch.{Balance, EraIndex}
use massbit_verification.Staking.StakerInfo.{
  EraStake, StakerInfo, record_value, stake, drop_zero_head, latest_staked_value, last_value,
  stake_last, unstake, unstake_last,
}

-- The value in an era: that of the latest entry up to it, `base` before the first entry.
abbrev pub value_from : Balance → List EraStake → EraIndex → Balance
value_from base [] e = base
value_from base (s ∷ r) e = if leb s.era e then value_from s.staked r e else base

abbrev pub staked_in : StakerInfo → EraIndex → Balance
staked_in i = value_from 0 i.stakes

-- The eras rise along the entries, from `low` on.
abbrev pub RisesFrom : EraIndex → List EraStake → Type 0
RisesFrom low [] = Unit {0}
RisesFrom low (s ∷ r) = (low ≤ s.era) × RisesFrom (suc s.era) r

pub RisesFrom-mono : {m n : ℕ} (l : List EraStake) → m ≤ n → RisesFrom n l → RisesFrom m l
RisesFrom-mono [] h r = tt
RisesFrom-mono (s ∷ l) h r = (omega arith, r.1)

pub last-ge :
    (low : ℕ) (s last : EraStake) (l : List EraStake)
    → RisesFrom low (s ∷ l)
    → get_last? (s ∷ l) ≡ some last
    → s.era ≤ last.era
unfolding get_last?
last-ge low s last [] r e = ground arith
last-ge low s last (t ∷ l) r e = ground (arith, last-ge (suc s.era) t last l r.1 e)

pub value_from-record_value :
    (base low : ℕ) (l : List EraStake) (last : EraStake) (era v e : ℕ)
    → RisesFrom low l
    → get_last? l ≡ some last
    → last.era ≤ era
    → value_from base (record_value l last era v) e ≡ (if leb era e then v else value_from base l e)
unfolding record_value get_last? set_last
value_from-record_value base low [] last era v e r h k = ground arith
value_from-record_value base low (s ∷ []) last era v e r h k = ground arith
value_from-record_value base low (s ∷ t ∷ l) last era v e r h k = ground (
  arith,
  last-ge low s last (t ∷ l) r h,
  value_from-record_value s.staked (suc s.era) (t ∷ l) last era v e r.1 h k,
)

pub record_value-RisesFrom :
    (low : ℕ) (l : List EraStake) (last : EraStake) (era v : ℕ)
    → RisesFrom low l
    → get_last? l ≡ some last
    → last.era ≤ era
    → RisesFrom low (record_value l last era v)
unfolding record_value get_last? set_last
record_value-RisesFrom low [] last era v r h k = ground arith
record_value-RisesFrom low (s ∷ []) last era v r h k = ground arith
record_value-RisesFrom low (s ∷ t ∷ l) last era v r h k =
    ground (arith, record_value-RisesFrom (suc s.era) (t ∷ l) last era v r.1 h k)

-- Before the first entry the value is the base.
pub value_from_before :
    (base low : ℕ) (l : List EraStake) (e : ℕ)
    → RisesFrom low l
    → e < low
    → value_from base l e ≡ base
value_from_before base low [] e r h = refl
value_from_before base low (s ∷ l) e r h = ground arith

pub value_from-drop_zero_head :
    (low : ℕ) (l : List EraStake) (e : ℕ)
    → RisesFrom low l
    → value_from 0 (drop_zero_head l) e ≡ value_from 0 l e
unfolding drop_zero_head
value_from-drop_zero_head low [] e r = refl
value_from-drop_zero_head low (s ∷ l) e r = ground (arith, value_from_before 0 (suc s.era) l e r.1)

pub drop_zero_head-RisesFrom :
    (low : ℕ) (l : List EraStake) → RisesFrom low l → RisesFrom low (drop_zero_head l)
unfolding drop_zero_head
drop_zero_head-RisesFrom low [] r = tt
drop_zero_head-RisesFrom low (s ∷ l) r = ground (arith, RisesFrom-mono {m = low} {n = suc s.era} l)

pub get_last?-none : (l : List EraStake) → get_last? l ≡ none → l ≡ []
unfolding get_last?
get_last?-none [] h = refl
get_last?-none (s ∷ []) h = cc
get_last?-none (s ∷ t ∷ l) h = absurd (cons_ne (get_last?-none (t ∷ l) h))
  where
    cons_ne : t ∷ l ≡ [] → ⊥
    cons_ne e = cc

-- The value that lasts is that of every era from the last entry on.
pub get_last?-record_value :
    (l : List EraStake) (last : EraStake) (era v : ℕ)
    → get_last? l ≡ some last
    → get_last? (record_value l last era v) ≡ some (record { staked = v; era = era })
unfolding record_value
get_last?-record_value [] last era v h = unfold get_last? in cc
get_last?-record_value (s ∷ l) last era v h = ground (
  arith,
  get_last?-set_last s l (record { staked = v; era = era }),
  get_last?-push (s ∷ l) (record { staked = v; era = era }),
)

-- From `era` on the value is `v`, before it is what it was, and the entries rise.
abbrev pub SetsFrom : ℕ → List EraStake → EraIndex → Balance → List EraStake → Type 0
SetsFrom low l era v l' =
    RisesFrom low l'
    × (last_value (get_last? l') ≡ v)
    × ((e : EraIndex) → value_from 0 l' e ≡ (if leb era e then v else value_from 0 l e))

record_value-SetsFrom :
    (low : ℕ) (l : List EraStake) (last : EraStake) (era v : ℕ)
    → RisesFrom low l
    → get_last? l ≡ some last
    → last.era ≤ era
    → SetsFrom low l era v (record_value l last era v)
record_value-SetsFrom low l last era v r h k = (
  record_value-RisesFrom low l last era v r h k,
  rw (get_last?-record_value l last era v h),
  λ e. value_from-record_value 0 low l last era v e r h k,
)

pub last_value-drop_zero_head :
    (l : List EraStake) → last_value (get_last? (drop_zero_head l)) ≡ last_value (get_last? l)
unfolding drop_zero_head get_last?
last_value-drop_zero_head [] = refl
last_value-drop_zero_head (s ∷ []) = ground arith
last_value-drop_zero_head (s ∷ t ∷ r) = ground arith

-- The entry that is dropped counts for nothing, be it the only one.
drop_zero_head-SetsFrom :
    (low : ℕ) (l l' : List EraStake) (era v : ℕ)
    → SetsFrom low l era v l'
    → SetsFrom low l era v (drop_zero_head l')
drop_zero_head-SetsFrom low l l' era v h = (
  drop_zero_head-RisesFrom low l' h.0,
  last_value-drop_zero_head l' ∙ h.1,
  λ e. value_from-drop_zero_head low l' e h.0 ∙ h.2 e,
)

stake_last-SetsFrom :
    (low : ℕ) (l : List EraStake) (o : Option EraStake) (era v : ℕ) {l' : List EraStake}
    → RisesFrom low l
    → low ≤ era
    → get_last? l ≡ o
    → last_value o + v < u128_size
    → stake_last o l era v ≡ some l'
    → SetsFrom low l era (last_value o + v) l'
unfolding stake_last
stake_last-SetsFrom low l none era v {l'} r k g f h =
    let e : l ++ record { staked = v; era = era } ∷ [] ≡ l' = cc in
    let z : 0 + v ≡ v = omega arith in
    rw z (
      subst (SetsFrom low l era v) e
        (rw (get_last?-none l g) (unfold get_last? in ((k, tt), refl, λ e. ground arith))))
stake_last-SetsFrom low l (some last) era v {l'} r k g f h = elim (Bool-cases (ltb era last.era)) [
  | inl early ↦ absurd (ground arith)
  | inr late ↦
      let e : l' ≡ record_value l last era (last.staked + v) = ground arith in
      subst (SetsFrom low l era (last.staked + v)) (sym e)
        (record_value-SetsFrom low l last era (last.staked + v) r g (ground arith))
]

unstake_last-SetsFrom :
    (low : ℕ) (l : List EraStake) (o : Option EraStake) (era v : ℕ) {l' : List EraStake}
    → RisesFrom low l
    → get_last? l ≡ o
    → unstake_last o l era v ≡ some l'
    → SetsFrom low l era (last_value o - v) l'
unfolding unstake_last
unstake_last-SetsFrom low l none era v {l'} r g h =
    let e : l ≡ l' = cc in
    subst (SetsFrom low l era (0 - v)) e
      (rw (get_last?-none l g) (unfold get_last? in (tt, omega arith, λ e. ground arith)))
unstake_last-SetsFrom low l (some last) era v {l'} r g h = elim (Bool-cases (ltb era last.era)) [
  | inl early ↦ absurd (ground arith)
  | inr late ↦
      let l₁ = record_value l last era (last.staked - v) in
      let e : l' ≡ drop_zero_head l₁ = ground arith in
      subst (SetsFrom low l era (last.staked - v)) (sym e) (
        drop_zero_head-SetsFrom low l l₁ era (last.staked - v)
          (record_value-SetsFrom low l last era (last.staked - v) r g (ground arith)))
]

-- Staking in an era from `low` on adds the value in that era and in all later ones, and leaves the
-- eras before as they were; the entries still rise from `low`. This holds if the call is
-- accepted, the entries rise from `low` and the new value fits into a `u128`.
pub stake_adds :
    (low : ℕ) (i : StakerInfo) (era v : ℕ) {i' : StakerInfo}
    → RisesFrom low i.stakes
    → low ≤ era
    → latest_staked_value i + v < u128_size
    → stake i era v ≡ some i'
    → SetsFrom low i.stakes era (latest_staked_value i + v) i'.stakes
unfolding stake latest_staked_value
stake_adds low i era v {i'} r k f h =
    stake_last-SetsFrom low i.stakes (get_last? i.stakes) era v r k refl f (ground arith)

-- Unstaking takes the value away in the given era and in all later ones, down to zero, and leaves
-- the eras before as they were; the entries still rise from `low`. This holds if the call is
-- accepted and the entries rise from `low`.
pub unstake_subtracts :
    (low : ℕ) (i : StakerInfo) (era v : ℕ) {i' : StakerInfo}
    → RisesFrom low i.stakes
    → unstake i era v ≡ some i'
    → SetsFrom low i.stakes era (latest_staked_value i - v) i'.stakes
unfolding unstake latest_staked_value
unstake_subtracts low i era v {i'} r h =
    unstake_last-SetsFrom low i.stakes (get_last? i.stakes) era v r refl (ground arith)

pub latest_staked_value_lem :
    (i : StakerInfo) → latest_staked_value i ≡ last_value (get_last? i.stakes)
unfolding latest_staked_value
latest_staked_value_lem i = refl

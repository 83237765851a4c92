-- ===== src/Staking/Pallet/Exhaust.antt =====
-- Claims come to an end: a staker who claims again and again is refused in the end.
use massbit_verification.Prelude.{
  ℕ, suc, zero, ◌+◌, ◌-◌, ◌≤◌, ◌<◌, ◌≡◌, List, [], ◌∷◌, arith, pair_eq, nat_eq, u32_size, inl, inr,
}
use massbit_verification.Dispatch.{
  AccountId, Balance, EraIndex, signed, ok, err, DispatchError, Result-cases,
}
use massbit_verification.Staking.StakerInfo
use massbit_verification.Staking.StakerInfo.{EraStake}
use massbit_verification.Staking.StakerInfo.History.{RisesFrom}
use massbit_verification.Staking.StakerInfo.Claims.{claim_takes_first}
use massbit_verification.Staking.State.{
  ProviderId, Env, State, staker_info, update_staker_info, deposit_event,
}
use massbit_verification.Staking.State.Access.{staker_info-update_staker_info, staker_info_cong}
use massbit_verification.Staking.Calls.{claim_staker}
use massbit_verification.Staking.Calls.Outcomes.{claimed_state, claim_staker_outcome}
use massbit_verification.Staking.Pallet.{dispatch}
use massbit_verification.Staking.Pallet as Staking
use massbit_verification.Staking.Pallet.Clock.{dispatch-era}

-- A claim of entries in order returns an era from `low` on, and leaves entries from the next era on.
claim_rises :
    (low : ℕ) (l : List EraStake)
    → RisesFrom low l
    → 0 < (StakerInfo.claim (record { stakes = l })).0.1
    → suc (StakerInfo.claim (record { stakes = l })).0.0 < u32_size
    → (low ≤ (StakerInfo.claim (record { stakes = l })).0.0)
      × RisesFrom
          (suc (StakerInfo.claim (record { stakes = l })).0.0)
          (StakerInfo.claim (record { stakes = l })).1.stakes
unfolding StakerInfo.claim
claim_rises low [] r v f = absurd (omega arith)
claim_rises low (s ∷ l) r v f = (r.0, (claim_takes_first low s l r f).1)

module _ {B I P : Type 0} (env : Env B I P) (a : AccountId) (p : ProviderId) where
  -- The first `n` claims in a row succeed, and the next one is refused.
  abbrev pub RefusedAfter : ℕ → State B → Type 0
  RefusedAfter zero s = (e : DispatchError) × ((claim_staker env (signed a) p s).0 ≡ err e)
  RefusedAfter (suc n) s =
      ((claim_staker env (signed a) p s).0 ≡ ok tt)
      × RefusedAfter n (claim_staker env (signed a) p s).1

  claimed_state-info :
      (reward : Balance) (b : B) (s : State B)
      → staker_info a p (claimed_state env a p reward b s)
        ≡ (StakerInfo.claim (staker_info a p s)).1
  unfolding deposit_event
  claimed_state-info reward b s =
      let i = (StakerInfo.claim (staker_info a p s)).1 in
      ground (
        arith,
        staker_info_cong a p (update_staker_info a p i (record s { bank = b }))
            (claimed_state env a p reward b s),
        staker_info-update_staker_info a a p p i (record s { bank = b }),
      )

  -- What a claim that succeeds leaves.
  one_claim :
      (low : ℕ) (s : State B)
      → s.current_era < u32_size
      → RisesFrom low (staker_info a p s).stakes
      → (claim_staker env (signed a) p s).0 ≡ ok tt
      → let t = (claim_staker env (signed a) p s).1 in
        (c : EraIndex) × (low ≤ c)
        × (c < s.current_era)
        × (t.current_era ≡ s.current_era)
        × RisesFrom (suc c) (staker_info a p t).stakes
  unfolding dispatch
  one_claim low s f r h =
      let (x, y, i, _, _, _, some, early, _, after) = claim_staker_outcome env a p s h in
      let c = StakerInfo.claim (staker_info a p s) in
      let rises = claim_rises low (staker_info a p s).stakes r some (omega arith) in
      (
        c.0.0,
        rises.0,
        early,
        dispatch-era env (Staking.claim_staker p) (signed a) s,
        rw (after, claimed_state-info _ _ s) rises.1,
      )

  claims_end_from :
      (k low : ℕ) (s : State B)
      → s.current_era ≤ low + k
      → s.current_era < u32_size
      → RisesFrom low (staker_info a p s).stakes
      → (n : ℕ) × (n ≤ k) × RefusedAfter n s
  claims_end_from zero low s e f r = elim (Result-cases (claim_staker env (signed a) p s).0) [
    | inr (x, refused) ↦ (0, omega arith, (x, refused))
    | inl (u, success) ↦
        let (c, above, below, _, _) = one_claim low s f r success in absurd (omega arith)
  ]
  claims_end_from (suc k) low s e f r = elim (Result-cases (claim_staker env (signed a) p s).0) [
    | inr (x, refused) ↦ (0, omega arith, (x, refused))
    | inl (u, success) ↦
        let t = (claim_staker env (signed a) p s).1 in
        let (c, above, below, era, rises) = one_claim low s f r success in
        let (n, few, rest) =
          claims_end_from k (suc c) t (omega (arith, era)) (omega (arith, era)) rises in
        (suc n, omega arith, (success, rest))
  ]

  -- A staker who claims on a provider again and again is refused in the end: after as many successful
  -- claims as there are eras from `low` to the current one, or fewer, the next claim
  -- fails. This holds if the staker's entries rise from `low`, and the current era fits into a `u32`.
  pub claims_end :
      (low : ℕ) (s : State B)
      → s.current_era < u32_size
      → RisesFrom low (staker_info a p s).stakes
      → (n : ℕ) × (n ≤ s.current_era - low) × RefusedAfter n s
  claims_end low s f r = claims_end_from (s.current_era - low) low s (omega arith) f r

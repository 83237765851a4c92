-- ===== src/Staking/Calls/Atomic.antt =====
-- A call of the staking pallet that fails leaves the storage and the currency as they were. The
-- framework does not roll back, so this rests on the order of the checks and the writes.
use massbit_verification.StorageMap.{lookup}
use massbit_verification.Staking.StakerInfo
use massbit_verification.Staking.State.{staker_info, provider_stake_info, operator_stakers_split}
use massbit_verification.Prelude.{Option-cases, nat_eq, ◌≡◌, arith, refl, ◌⊎◌, inr, inl}
use massbit_verification.Dispatch.{
  Origin, root, signed, Balance, EraIndex, IsAtomicAt, DispatchError, err, AccountId, ok, Result,
}
use massbit_verification.Currency.{Currency, ExistenceRequirement, allow_death}
use massbit_verification.Staking.State.{ProviderId, Env, State}
use massbit_verification.Staking.Calls.{
  stake, unstake, withdraw_unstaked, withdraw_from_unregistered_staker,
  withdraw_from_unregistered_operator, force_new_era, claim_staker, claim_operator, pay_from_pallet,
}

-- A withdrawal of the currency that fails leaves the books as they were.
abbrev pub WithdrawIsAtomic : {B I : Type 0} → Currency B I → Type 0
WithdrawIsAtomic {B} c =
    (a : AccountId) (n : Balance) (r : ExistenceRequirement) (b : B)
    → IsAtomicAt (c.withdraw a n r) b

module _ {B I P : Type 0} (env : Env B I P) where
  pub stake-IsAtomic :
      (o : Origin) (p : ProviderId) (v : Balance) (s : State B) → IsAtomicAt (stake env o p v) s
  unfolding stake
  stake-IsAtomic (signed a) p v s e h = ground arith
  stake-IsAtomic _ p v s e h = refl

  pub unstake-IsAtomic :
      (o : Origin) (p : ProviderId) (v : Balance) (s : State B) → IsAtomicAt (unstake env o p v) s
  unfolding unstake
  unstake-IsAtomic (signed a) p v s e h = ground arith
  unstake-IsAtomic _ p v s e h = refl

  pub withdraw_unstaked-IsAtomic :
      (o : Origin) (s : State B) → IsAtomicAt (withdraw_unstaked env o) s
  unfolding withdraw_unstaked
  withdraw_unstaked-IsAtomic (signed a) s e h = ground arith
  withdraw_unstaked-IsAtomic _ s e h = refl

  pub withdraw_staker-IsAtomic :
      (o : Origin) (p : ProviderId) (s : State B)
      → IsAtomicAt (withdraw_from_unregistered_staker env o p) s
  unfolding withdraw_from_unregistered_staker
  withdraw_staker-IsAtomic (signed a) p s e h = ground arith
  withdraw_staker-IsAtomic _ p s e h = refl

  pub withdraw_operator-IsAtomic :
      (o : Origin) (p : ProviderId) (s : State B)
      → IsAtomicAt (withdraw_from_unregistered_operator env o p) s
  unfolding withdraw_from_unregistered_operator
  withdraw_operator-IsAtomic (signed a) p s e h = ground arith
  withdraw_operator-IsAtomic _ p s e h = refl

  pub force_new_era-IsAtomic : (o : Origin) (s : State B) → IsAtomicAt (force_new_era env o) s
  unfolding force_new_era
  force_new_era-IsAtomic root s e h = cc
  force_new_era-IsAtomic _ s e h = refl

  module _ (atomic : WithdrawIsAtomic env.currency) where
    -- A payment fails and changes nothing, or changes the books of the currency only.
    pub pay_from_pallet_outcome :
        (a : AccountId) (n : Balance) (s : State B)
        → ((e : DispatchError) × (pay_from_pallet env a n s ≡ (err e, s)))
          ⊎ ((b : B) × (pay_from_pallet env a n s ≡ (ok tt, record s { bank = b })))
    unfolding pay_from_pallet
    pay_from_pallet_outcome a n s =
        paid (env.currency.withdraw env.config.pallet_account n allow_death s.bank) refl
      where
        paid :
            (r : Result I × B)
            → env.currency.withdraw env.config.pallet_account n allow_death s.bank ≡ r
            → ((e : DispatchError) × (pay_from_pallet env a n s ≡ (err e, s)))
              ⊎ ((b : B) × (pay_from_pallet env a n s ≡ (ok tt, record s { bank = b })))
        paid (ok i, b) h = inr (env.currency.resolve_creating a i b, ground arith)
        paid (err e, b) h =
            let same : b ≡ s.bank =
              cc (h, atomic env.config.pallet_account n allow_death s.bank e (rw h)) in
            inl (e, ground arith)

    pub claim_staker-IsAtomic :
        (o : Origin) (p : ProviderId) (s : State B) → IsAtomicAt (claim_staker env o p) s
    unfolding claim_staker
    claim_staker-IsAtomic (signed a) p s e h =
        let c = StakerInfo.claim (staker_info a p s) in
        let info = provider_stake_info p c.0.0 s in
        elim (Option-cases (lookup c.0.0 s.general_era_info)) [
          | inl missing ↦ ground arith
          | inr (y, found) ↦ ground (
            arith,
            pay_from_pallet_outcome a
                (env.perbill.of_amount (env.perbill.from_rational c.0.1 info.total)
                  (operator_stakers_split env info y).1)
                s,
          )
        ]
    claim_staker-IsAtomic _ p s e h = refl

    pub claim_operator-IsAtomic :
        (o : Origin) (p : ProviderId) (era : EraIndex) (s : State B)
        → IsAtomicAt (claim_operator env o p era) s
    unfolding claim_operator
    claim_operator-IsAtomic (signed a) p era s e h =
        elim (Option-cases (lookup p s.registered_providers)) [
          | inl missing ↦ ground arith
          | inr (x, found) ↦ elim (Option-cases (lookup era s.general_era_info)) [
            | inl missing ↦ ground arith
            | inr (y, held) ↦ ground (
              arith,
              pay_from_pallet_outcome x.operator
                  (operator_stakers_split env (provider_stake_info p era s) y).0 s,
            )
          ]
        ]
    claim_operator-IsAtomic _ p era s e h = refl

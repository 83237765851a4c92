-- ===== src/Runtime/System/Sides.antt =====
-- The staking pallet behind the trait `DapiStaking`, as the dapi pallet's theorems take it: which
-- providers are registered there.
use massbit_verification.Staking.Eras.{rewards}
use massbit_verification.Prelude.{
  ◌≡◌, refl, nat_beq, Bool-cases, false, inl, some, ◌⊎◌, ◌==◌, none, inr, true, arith, nat_eq,
}
use massbit_verification.Dispatch.{AccountId, DispatchError, Balance, ok, err}
use massbit_verification.Staking.Pallet.Standings.{
  standing_of, register-standing, unregister-standing, rewards-standing,
}
use massbit_verification.Runtime.{Setup, UnbalancedLaws, staking_env, dapi_env, dapi_staking}
use massbit_verification.Dapi.Pallet.Worlds.{Standing}
use massbit_verification.Dapi.State.{MassbitId}
use massbit_verification.Staking.Registry.{register, unregister}
use massbit_verification.Staking.State.{State}

module _ {B I P : Type 0} (r : Setup B I P) (laws : UnbalancedLaws r) where
  pub payment-standing :
      (i : I) (w : State B) (q : MassbitId)
      → standing_of q ((dapi_env r).on_project_payment i w) ≡ standing_of q w
  unfolding dapi_env staking_env
  payment-standing i w q = elim (Bool-cases (r.balances.peek i == 0)) [
    | inl zero ↦ ground (arith, laws.on_unbalanced-peek (rewards (staking_env r)) i w)
    | inr paid ↦ ground (
      arith,
      laws.on_unbalanced-peek (rewards (staking_env r)) i w,
      rewards-standing (staking_env r) i w q,
    )
  ]

  pub register_ok-standing :
      (a : AccountId) (p : MassbitId) (n : Balance) (w : State B)
      → (register (staking_env r) a p n w).0 ≡ ok tt
      → standing_of p (register (staking_env r) a p n w).1 ≡ some true
  register_ok-standing a p n w h = elim (register-standing (staking_env r) a p n w) [
    | inl ((e, failed), same) ↦ ground (arith, failed)
    | inr (fresh, now) ↦ ground (arith, now p)
  ]

  pub register_err-standing :
      (a : AccountId) (p : MassbitId) (n : Balance) (w : State B)
      → (standing_of p (register (staking_env r) a p n w).1 ≡ standing_of p w)
        ⊎ ((standing_of p w ≡ none)
            × (standing_of p (register (staking_env r) a p n w).1 ≡ some true))
  register_err-standing a p n w = elim (register-standing (staking_env r) a p n w) [
    | inl ((e, failed), same) ↦ inl (same p)
    | inr (fresh, now) ↦ inr (fresh, ground (arith, now p))
  ]

  pub register_other-standing :
      (a : AccountId) (p : MassbitId) (n : Balance) (w : State B) (q : MassbitId)
      → nat_beq p q ≡ false
      → standing_of q (register (staking_env r) a p n w).1 ≡ standing_of q w
  register_other-standing a p n w q h = elim (register-standing (staking_env r) a p n w) [
    | inl ((e, failed), same) ↦ same q
    | inr (fresh, now) ↦ ground (arith, now q)
  ]

  pub unregister_ok-standing :
      (p : MassbitId) (w : State B)
      → (unregister (staking_env r) p w).0 ≡ ok tt
      → standing_of p (unregister (staking_env r) p w).1 ≡ some false
  unregister_ok-standing p w h = elim (unregister-standing (staking_env r) p w) [
    | inl ((e, failed), same) ↦ ground (arith, failed)
    | inr (done, now) ↦ ground (arith, now p)
  ]

  pub unregister_err-standing :
      (p : MassbitId) (w : State B) (e : DispatchError)
      → (unregister (staking_env r) p w).0 ≡ err e
      → standing_of p (unregister (staking_env r) p w).1 ≡ standing_of p w
  unregister_err-standing p w e h = elim (unregister-standing (staking_env r) p w) [
    | inl (failed, same) ↦ rw same refl
    | inr (done, now) ↦ ground (arith, done)
  ]

  pub unregister_other-standing :
      (p : MassbitId) (w : State B) (q : MassbitId)
      → nat_beq p q ≡ false
      → standing_of q (unregister (staking_env r) p w).1 ≡ standing_of q w
  unregister_other-standing p w q h = elim (unregister-standing (staking_env r) p w) [
    | inl (failed, same) ↦ rw same refl
    | inr (done, now) ↦ ground (arith, now q)
  ]

  unfoldable pub staking_standing : Standing (dapi_env r)
  unfolding dapi_env dapi_staking
  staking_standing = record {
    of = standing_of;
    withdraw-of = λ a n k w q. refl;
    payment-of = payment-standing;
    register_ok = register_ok-standing;
    register_err = λ a p n w e h. register_err-standing a p n w;
    register_other = register_other-standing;
    unregister_ok = unregister_ok-standing;
    unregister_err = unregister_err-standing;
    unregister_other = unregister_other-standing;
  }

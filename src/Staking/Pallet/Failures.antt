-- ===== src/Staking/Pallet/Failures.antt =====
-- What a registration leaves behind when its stake fails, and what becomes of it.
use massbit_verification.Prelude.{
  ◌-◌, ◌≡◌, arith, leb, nat_eq, nat_beq, none, some, Bool, true, false, ap, ◌∙◌, sym, List, [], ◌∷◌,
  Option-cases, Bool-cases, inl, inr,
}
use massbit_verification.StorageMap.{lookup}
use massbit_verification.Dispatch.{
  AccountId, Balance, signed, ok, err, DispatchError, staking, already_registered_provider,
}
use massbit_verification.Staking.State.{ProviderId, Env, State}
use massbit_verification.Staking.Calls.Atomic.{stake-IsAtomic}
use massbit_verification.Staking.Calls as Calls
use massbit_verification.Staking.Registry.{register}
use massbit_verification.Staking.Registry.Outcomes.{enrolled_state, register_minimum}
use massbit_verification.Staking.Pallet.{
  Operation, call, register_by, unregister_it, reward_with, begin_block, step, run,
}
use massbit_verification.Staking.Pallet.Standings.{
  standing_of, dispatch-standing, register-standing, unregister-standing, on_initialize-standing,
  rewards-standing, enrolled-standing,
}

-- The provider has an entry, be it registered or not.
abbrev pub IsKnown : {B : Type 0} → ProviderId → State B → Type 0
IsKnown p s = (b : Bool) × (standing_of p s ≡ some b)

module _ {B I P : Type 0} (env : Env B I P) where
  register_runs :
      (a : AccountId) (p : ProviderId) (v : Balance) (s : State B)
      → lookup p s.registered_providers ≡ none
      → leb (register_minimum env) v ≡ true
      → (env.currency.reserve a env.config.register_deposit s.bank).0 ≡ ok tt
      → register env a p v s
        ≡ Calls.stake env (signed a) p (v - env.config.register_deposit) (enrolled_state env a p s)
  unfolding register
  register_runs a p v s fresh enough reserved = ground arith

  known-refused :
      (a : AccountId) (p : ProviderId) (v : Balance) (s : State B)
      → IsKnown p s
      → register env a p v s ≡ (err (staking already_registered_provider), s)
  unfolding register
  known-refused a p v s (b, k) = elim (Option-cases (lookup p s.registered_providers)) [
    | inl missing ↦ absurd (ground arith)
    | inr (x, found) ↦ ground (arith, found)
  ]

  -- No operation removes a provider.
  step-IsKnown :
      (p : ProviderId) (op : Operation I) (s : State B) → IsKnown p s → IsKnown p (step env op s)
  unfolding step
  step-IsKnown p (call o c) s (b, k) = (b, dispatch-standing env c o s p ∙ k)
  step-IsKnown p (register_by a q v) s (b, k) = elim (register-standing env a q v s) [
    | inl (failed, same) ↦ (b, same p ∙ k)
    | inr (fresh, now) ↦ elim (Bool-cases (nat_beq q p)) [
      | inl here ↦ (true, ground (arith, now p, here))
      | inr other ↦ (b, ground (arith, now p, other, k))
    ]
  ]
  step-IsKnown p (unregister_it q) s (b, k) = elim (unregister-standing env q s) [
    | inl (failed, same) ↦ (b, rw same k)
    | inr (done, now) ↦ elim (Bool-cases (nat_beq q p)) [
      | inl here ↦ (false, ground (arith, now p, here))
      | inr other ↦ (b, ground (arith, now p, other, k))
    ]
  ]
  step-IsKnown p (reward_with i) s (b, k) = (b, rewards-standing env i s p ∙ k)
  step-IsKnown p (begin_block now) s (b, k) = (b, on_initialize-standing env now s p ∙ k)

  run-IsKnown :
      (p : ProviderId) (ops : List (Operation I)) (s : State B)
      → IsKnown p s
      → IsKnown p (run env ops s)
  unfolding run
  run-IsKnown p [] s k = k
  run-IsKnown p (op ∷ ops) s k = run-IsKnown p ops (step env op s) (step-IsKnown p op s k)

  -- A registration of a new provider whose stake fails is not undone: if the deposit is enough and
  -- has been reserved, and the call fails, then what it leaves is the state with the deposit
  -- reserved and the provider registered. After whatever operations of the pallet follow, each
  -- registration of the provider, by any account and with any deposit, is refused as one of
  -- a provider that is already registered, and changes nothing.
  pub register_failure_stays :
      (a : AccountId) (p : ProviderId) (v : Balance) (s : State B) (e : DispatchError)
      → lookup p s.registered_providers ≡ none
      → leb (register_minimum env) v ≡ true
      → (env.currency.reserve a env.config.register_deposit s.bank).0 ≡ ok tt
      → (register env a p v s).0 ≡ err e
      → let t = (register env a p v s).1 in
        (t ≡ enrolled_state env a p s)
        × ((ops : List (Operation I)) (b : AccountId) (w : Balance)
            → register env b p w (run env ops t)
              ≡ (err (staking already_registered_provider), run env ops t))
  register_failure_stays a p v s e fresh enough reserved failed =
      let t = (register env a p v s).1 in
      let runs = register_runs a p v s fresh enough reserved in
      let same : t ≡ enrolled_state env a p s =
        ap (λ r. r.1) runs
        ∙ stake-IsAtomic env (signed a) p (v - env.config.register_deposit)
            (enrolled_state env a p s) e (sym (ap (λ r. r.0) runs) ∙ failed) in
      let known : IsKnown p t = (true, rw same (ground (arith, enrolled-standing env a p s p))) in
      (same, λ ops b w. known-refused b p w (run env ops t) (run-IsKnown p ops t known))

-- ===== src/Staking/Registry/Outcomes.antt =====
-- What `register` and `unregister` leave behind on each branch.
use massbit_verification.Prelude.{
  ◌-◌, ◌≡◌, arith, leb, nat_eq, add_u128, Bool-cases, inl, inr, ◌⊎◌, none,
}
use massbit_verification.StorageMap.{contains_key, lookup}
use massbit_verification.Dispatch.{
  AccountId, Balance, signed, err, Result-cases, DispatchError, staking,
  already_registered_provider, insufficient_value,
}
use massbit_verification.Staking.State.{ProviderId, Env, State, insert_provider, new_provider}
use massbit_verification.Staking.Calls.{stake}
use massbit_verification.Staking.Registry.{register}

module _ {B I P : Type 0} (env : Env B I P) where
  -- The state after the deposit has been reserved.
  abbrev pub reserved_state : AccountId → State B → State B
  reserved_state a s = record s {
    bank = (env.currency.reserve a env.config.register_deposit s.bank).1;
  }

  -- The state in which `register` goes on to stake.
  abbrev pub enrolled_state : AccountId → ProviderId → State B → State B
  enrolled_state a p s = insert_provider p (new_provider a) (reserved_state a s)

  abbrev pub register_minimum : Balance
  register_minimum = add_u128 env.config.register_deposit env.config.minimum_staking_amount

  -- `register` refuses and writes nothing; or the reserve fails; or the provider is written, and
  -- the call ends as the stake does.
  pub register_outcome :
      (a : AccountId) (p : ProviderId) (v : Balance) (s : State B)
      → (register env a p v s ≡ (err (staking already_registered_provider), s))
        ⊎ ((register env a p v s ≡ (err (staking insufficient_value), s))
            ⊎ (((e : DispatchError) × (register env a p v s ≡ (err e, reserved_state a s)))
                ⊎ ((lookup p s.registered_providers ≡ none)
                    × (register env a p v s
                        ≡ stake env
                            (signed a)
                            p
                            (v - env.config.register_deposit)
                            (enrolled_state a p s)))))
  unfolding register
  register_outcome a p v s = elim (Bool-cases (contains_key p s.registered_providers)) [
    | inl known ↦ inl (ground arith)
    | inr fresh ↦ elim (Bool-cases (leb register_minimum v)) [
      | inr low ↦ inr (inl (ground arith))
      | inl enough ↦
          elim (Result-cases (env.currency.reserve a env.config.register_deposit s.bank).0) [
            | inr (e, h) ↦ inr (inr (inl (e, ground arith)))
            | inl (u, h) ↦ inr (inr (inr (ground arith, ground arith)))
          ]
    ]
  ]

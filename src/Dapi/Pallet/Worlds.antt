-- ===== src/Dapi/Pallet/Worlds.antt =====
-- What the calls of the dapi pallet do to the pallet behind the trait `DapiStaking`, and how the
-- state of a provider here goes with its standing there.
use massbit_verification.Members.{contains}
use massbit_verification.Prelude.{
  ◌≡◌, Bool, true, false, none, some, Option, arith, nat_eq, nat_beq, nat_beq_iff, Bool-cases,
  Option-cases, inl, inr, ◌⊎◌, ◌==◌, not,
}
use massbit_verification.StorageMap.{lookup, lookup-insert, insert}
use massbit_verification.Dispatch.{AccountId, Balance, signed, ok, err, DispatchError, Result-cases}
use massbit_verification.Currency.{ExistenceRequirement, keep_alive}
use massbit_verification.Dapi.State.{
  MassbitId, Env, State, ProviderState, registered, active, in_active, is_registered, deposit_event,
  Provider, ProviderDeactivateReason, is_active, bounded_chain_id, ChainId, ProviderType,
}
use massbit_verification.Dapi.Projects.{take_payment}
use massbit_verification.Dapi.Providers.{
  deposit_provider, insert_provider, register_provider, unregister_provider,
  report_provider_offence,
}
use massbit_verification.Dapi.Providers.Lifecycle.{status}

-- The standing of a provider with the other pallet: unknown, taken (`true`) or let go (`false`),
-- with what registering and unregistering do to it.
pub record Standing {W I : Type 0} (env : Env W I) : Type 0 where
  pub of : MassbitId → W → Option Bool
  pub withdraw-of :
      (a : AccountId) (n : Balance) (r : ExistenceRequirement) (w : W) (q : MassbitId)
      → of q (env.currency.withdraw a n r w).1 ≡ of q w
  pub payment-of : (i : I) (w : W) (q : MassbitId) → of q (env.on_project_payment i w) ≡ of q w
  pub register_ok :
      (a : AccountId) (p : MassbitId) (n : Balance) (w : W)
      → (env.dapi_staking.register a p n w).0 ≡ ok tt
      → of p (env.dapi_staking.register a p n w).1 ≡ some true
  pub register_err :
      (a : AccountId) (p : MassbitId) (n : Balance) (w : W) (e : DispatchError)
      → (env.dapi_staking.register a p n w).0 ≡ err e
      → (of p (env.dapi_staking.register a p n w).1 ≡ of p w)
        ⊎ ((of p w ≡ none) × (of p (env.dapi_staking.register a p n w).1 ≡ some true))
  pub register_other :
      (a : AccountId) (p : MassbitId) (n : Balance) (w : W) (q : MassbitId)
      → nat_beq p q ≡ false
      → of q (env.dapi_staking.register a p n w).1 ≡ of q w
  pub unregister_ok :
      (p : MassbitId) (w : W)
      → (env.dapi_staking.unregister p w).0 ≡ ok tt
      → of p (env.dapi_staking.unregister p w).1 ≡ some false
  pub unregister_err :
      (p : MassbitId) (w : W) (e : DispatchError)
      → (env.dapi_staking.unregister p w).0 ≡ err e
      → of p (env.dapi_staking.unregister p w).1 ≡ of p w
  pub unregister_other :
      (p : MassbitId) (w : W) (q : MassbitId)
      → nat_beq p q ≡ false
      → of q (env.dapi_staking.unregister p w).1 ≡ of q w

-- Which states and standings go together. A provider that is registered may have been taken by a
-- deposit that failed.
abbrev pub goes_with : Option ProviderState → Option Bool → Bool
goes_with none none = true
goes_with none (some b) = false
goes_with (some registered) none = true
goes_with (some registered) (some b) = b
goes_with (some active) none = false
goes_with (some active) (some b) = b
goes_with (some in_active) none = false
goes_with (some in_active) (some b) = not b

module _ {W I : Type 0} (env : Env W I) (standing : Standing env) where
  abbrev pub Linked : State W → Type 0
  Linked s = (q : MassbitId) → goes_with (status q s) (standing.of q s.world) ≡ true

  take_payment-of :
      (a : AccountId) (n : Balance) (s : State W) (q : MassbitId)
      → standing.of q (take_payment env a n s).1.world ≡ standing.of q s.world
  unfolding take_payment
  take_payment-of a n s q = elim (Result-cases (env.currency.withdraw a n keep_alive s.world).0) [
    | inl (i, h) ↦ ground (
      arith,
      standing.withdraw-of a n keep_alive s.world q,
      standing.payment-of i (env.currency.withdraw a n keep_alive s.world).1 q,
    )
    | inr (e, h) ↦ ground (arith, standing.withdraw-of a n keep_alive s.world q)
  ]

  pub deposit_provider-Linked :
      (a : AccountId) (p : MassbitId) (d : Balance) (s : State W)
      → Linked s
      → Linked (deposit_provider env (signed a) p d s).1
  unfolding deposit_provider deposit_event insert_provider
  deposit_provider-Linked a p d s k q = elim (Option-cases (lookup p s.providers)) [
    | inl missing ↦ ground (arith, k q)
    | inr (x, h) ↦ elim (Bool-cases (is_registered x.state)) [
      | inr other ↦ ground (arith, k q)
      | inl fresh ↦ elim (Bool-cases (x.operator == a)) [
        | inr stranger ↦ ground (arith, k q)
        | inl owner ↦ elim (Result-cases (env.dapi_staking.register a p d s.world).0) [
          | inr (e, refused) ↦ ground (
            arith,
            k q,
            nat_beq_iff p q,
            standing.register_err a p d s.world e refused,
            standing.register_other a p d s.world q,
          )
          | inl (u, taken) ↦ ground (
            arith,
            k q,
            nat_beq_iff p q,
            standing.register_ok a p d s.world taken,
            standing.register_other a p d s.world q,
            lookup-insert p q (record x { state = active }) s.providers,
          )
        ]
      ]
    ]
  ]

  -- Letting a provider go, on its own wish or for an offence.
  let_go :
      (p : MassbitId) (x : Provider) (s t : State W)
      → lookup p s.providers ≡ some x
      → t.world ≡ (env.dapi_staking.unregister p s.world).1
      → ((e : DispatchError) × ((env.dapi_staking.unregister p s.world).0 ≡ err e)
          × (t.providers ≡ s.providers))
        ⊎ (((env.dapi_staking.unregister p s.world).0 ≡ ok tt)
            × (t.providers ≡ insert p (record x { state = in_active }) s.providers))
      → Linked s
      → Linked t
  let_go p x s t known world (inl (e, refused, provs)) k q = ground (
    arith,
    provs,
    world,
    k q,
    nat_beq_iff p q,
    standing.unregister_err p s.world e refused,
    standing.unregister_other p s.world q,
  )
  let_go p x s t known world (inr (done, provs)) k q = ground (
    arith,
    provs,
    world,
    k q,
    nat_beq_iff p q,
    standing.unregister_ok p s.world done,
    standing.unregister_other p s.world q,
    lookup-insert p q (record x { state = in_active }) s.providers,
  )

  pub unregister_provider-Linked :
      (a : AccountId) (p : MassbitId) (s : State W)
      → Linked s
      → Linked (unregister_provider env (signed a) p s).1
  unfolding unregister_provider deposit_event insert_provider
  unregister_provider-Linked a p s k = elim (Option-cases (lookup p s.providers)) [
    | inl missing ↦ λ q. ground (arith, k q)
    | inr (x, h) ↦ elim (Bool-cases (is_active x.state)) [
      | inr other ↦ λ q. ground (arith, k q)
      | inl live ↦ elim (Bool-cases (x.operator == a)) [
        | inr stranger ↦ λ q. ground (arith, k q)
        | inl owner ↦
            let_go p x s (unregister_provider env (signed a) p s).1 h (ground arith)
              (elim (Result-cases (env.dapi_staking.unregister p s.world).0) [
                | inr (e, refused) ↦ inl (e, refused, ground arith)
                | inl (u, done) ↦ inr (done, ground arith)
              ])
              k
      ]
    ]
  ]

  pub report_offence-Linked :
      (a : AccountId) (p : MassbitId) (r : ProviderDeactivateReason) (s : State W)
      → Linked s
      → Linked (report_provider_offence env (signed a) p r s).1
  unfolding report_provider_offence deposit_event insert_provider
  report_offence-Linked a p r s k = elim (Option-cases (lookup p s.providers)) [
    | inl missing ↦ λ q. ground (arith, k q)
    | inr (x, h) ↦ elim (Bool-cases (is_active x.state)) [
      | inr other ↦ λ q. ground (arith, k q)
      | inl live ↦ elim (Bool-cases (contains a s.regulators)) [
        | inr stranger ↦ λ q. ground (arith, k q)
        | inl allowed ↦
            let_go p x s (report_provider_offence env (signed a) p r s).1 h (ground arith)
              (elim (Result-cases (env.dapi_staking.unregister p s.world).0) [
                | inr (e, refused) ↦ inl (e, refused, ground arith)
                | inl (u, done) ↦ inr (done, ground arith)
              ])
              k
      ]
    ]
  ]

  pub register_provider-Linked :
      (a : AccountId) (p : MassbitId) (t : ProviderType) (b : AccountId) (c : ChainId) (s : State W)
      → Linked s
      → Linked (register_provider env (signed a) p t b c s).1
  unfolding register_provider deposit_event insert_provider bounded_chain_id
  register_provider-Linked a p t b c s k q = ground (
    arith,
    k q,
    nat_beq_iff p q,
    lookup-insert p q (record { provider_type = t; operator = b; chain_id = c; state = registered })
        s.providers,
  )

  pub project-Linked :
      (a : AccountId) (n : Balance) (s t : State W)
      → t.providers ≡ s.providers
      → (t.world ≡ s.world) ⊎ (t.world ≡ (take_payment env a n s).1.world)
      → Linked s
      → Linked t
  project-Linked a n s t provs world k q =
      ground (arith, provs, k q, world, take_payment-of a n s q)

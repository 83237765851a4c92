-- ===== src/Dapi/Providers/Lifecycle.antt =====
-- The life of a provider: it is registered by a regulator, activated by its operator's deposit, and
-- deactivated once and for all.
use massbit_verification.Prelude.{
  ◌≡◌, refl, ◌⊎◌, inl, inr, Option, none, some, arith, nat_eq, nat_beq, false, Option-cases,
  Bool-cases, ◌==◌, nat_beq_iff,
}
use massbit_verification.StorageMap.{StorageMap, lookup, insert, lookup-insert}
use massbit_verification.Members.{contains}
use massbit_verification.Dispatch.{AccountId, Balance, Origin, root, signed, unsigned, Result-cases}
use massbit_verification.Dapi.State.{
  MassbitId, ChainId, ProviderType, ProviderState, registered, active, in_active, Provider,
  ProviderDeactivateReason, Env, State, deposit_event, bounded_chain_id, is_registered, is_active,
}
use massbit_verification.Dapi.Providers.{
  insert_provider, register_provider, deposit_provider, unregister_provider,
  report_provider_offence,
}

abbrev pub state_of : Option Provider → Option ProviderState
state_of none = none
state_of (some x) = some x.state

-- The state of a provider, if there is one of that name.
abbrev pub status : {W : Type 0} → MassbitId → State W → Option ProviderState
status p s = state_of (lookup p s.providers)

-- What one call may do to the state of a provider.
pub data Moves : Option ProviderState → Option ProviderState → Type 0 where
  stay : {o : Option ProviderState} → Moves o o
  enroll : Moves none (some registered)
  activate : Moves (some registered) (some active)
  retire : Moves (some active) (some in_active)

-- A call writes no provider, or one whose state it has checked.
abbrev pub Writes :
    (Provider → Type 0)
    → ProviderState
    → MassbitId
    → StorageMap MassbitId Provider
    → StorageMap MassbitId Provider
    → Type 0
Writes P state p before after =
    (after ≡ before)
    ⊎ ((x : Provider) × (lookup p before ≡ some x)
        × P x
        × (after ≡ insert p (record x { state = state }) before))

module _ {W I : Type 0} (env : Env W I) where
  register_provider_writes :
      (a : AccountId) (p : MassbitId) (t : ProviderType) (b : AccountId) (c : ChainId) (s : State W)
      → let after = (register_provider env (signed a) p t b c s).1.providers in
        (after ≡ s.providers)
        ⊎ ((lookup p s.providers ≡ none)
            × (after
                ≡ insert p
                    (record { provider_type = t; operator = b; chain_id = c; state = registered })
                    s.providers))
  unfolding register_provider deposit_event insert_provider bounded_chain_id
  register_provider_writes a p t b c s = ground arith

  deposit_provider-Writes :
      (a : AccountId) (p : MassbitId) (d : Balance) (s : State W)
      → Writes
          (λ x. x.state ≡ registered)
          active
          p
          s.providers
          (deposit_provider env (signed a) p d s).1.providers
  unfolding deposit_provider deposit_event insert_provider
  deposit_provider-Writes a p d s = elim (Option-cases (lookup p s.providers)) [
    | inl missing ↦ inl (ground arith)
    | inr (x, h) ↦ elim (Bool-cases (is_registered x.state)) [
      | inr other ↦ inl (ground arith)
      | inl fresh ↦ elim (Result-cases (env.dapi_staking.register a p d s.world).0) [
        | inr (e, refused) ↦ inl (ground arith)
        | inl (u, taken) ↦ elim (Bool-cases (x.operator == a)) [
          | inr stranger ↦ inl (ground arith)
          | inl owner ↦ inr (x, h, ground arith, ground arith)
        ]
      ]
    ]
  ]

  unregister_provider-Writes :
      (a : AccountId) (p : MassbitId) (s : State W)
      → Writes
          (λ x. x.state ≡ active)
          in_active
          p
          s.providers
          (unregister_provider env (signed a) p s).1.providers
  unfolding unregister_provider deposit_event insert_provider
  unregister_provider-Writes a p s = elim (Option-cases (lookup p s.providers)) [
    | inl missing ↦ inl (ground arith)
    | inr (x, h) ↦ elim (Bool-cases (is_active x.state)) [
      | inr other ↦ inl (ground arith)
      | inl live ↦ elim (Result-cases (env.dapi_staking.unregister p s.world).0) [
        | inr (e, refused) ↦ inl (ground arith)
        | inl (u, done) ↦ elim (Bool-cases (x.operator == a)) [
          | inr stranger ↦ inl (ground arith)
          | inl owner ↦ inr (x, h, ground arith, ground arith)
        ]
      ]
    ]
  ]

  report_offence-Writes :
      (a : AccountId) (p : MassbitId) (r : ProviderDeactivateReason) (s : State W)
      → Writes
          (λ x. x.state ≡ active)
          in_active
          p
          s.providers
          (report_provider_offence env (signed a) p r s).1.providers
  unfolding report_provider_offence deposit_event insert_provider
  report_offence-Writes a p r s = elim (Option-cases (lookup p s.providers)) [
    | inl missing ↦ inl (ground arith)
    | inr (x, h) ↦ elim (Bool-cases (is_active x.state)) [
      | inr other ↦ inl (ground arith)
      | inl live ↦ elim (Result-cases (env.dapi_staking.unregister p s.world).0) [
        | inr (e, refused) ↦ inl (ground arith)
        | inl (u, done) ↦ elim (Bool-cases (contains a s.regulators)) [
          | inr denied ↦ inl (ground arith)
          | inl allowed ↦ inr (x, h, ground arith, ground arith)
        ]
      ]
    ]
  ]

pub same-Moves :
    {W : Type 0} (j : MassbitId) (s t : State W)
    → t.providers ≡ s.providers
    → Moves (status j s) (status j t)
same-Moves j s t h = rw h stay

between-Moves :
    {o o' : Option ProviderState} (a b : Option ProviderState)
    → o ≡ a
    → o' ≡ b
    → Moves a b
    → Moves o o'
between-Moves a b e e' m = rw (e, e') m

-- A write to one provider leaves the others.
other-Moves :
    {W : Type 0} (p j : MassbitId) (x : Provider) (s t : State W)
    → t.providers ≡ insert p x s.providers
    → nat_beq p j ≡ false
    → Moves (status j s) (status j t)
other-Moves p j x s t h other =
    between-Moves (status j s) (status j s) refl (ground (arith, lookup-insert p j x s.providers))
      stay

-- A write moves the provider that it is about and leaves the others.
Writes-Moves :
    {W : Type 0} (p j : MassbitId) (before after : ProviderState) (s t : State W)
    → Moves (some before) (some after)
    → Writes (λ x. x.state ≡ before) after p s.providers t.providers
    → Moves (status j s) (status j t)
Writes-Moves p j before after s t m (inl h) = same-Moves j s t h
Writes-Moves p j before after s t m (inr (x, found, was, h)) =
    let x' : Provider = record x { state = after } in
    elim (Bool-cases (nat_beq p j)) [
      | inl same ↦
          between-Moves (some before) (some after) (ground (arith, nat_beq_iff p j))
            (ground (arith, lookup-insert p j x' s.providers)) m
      | inr other ↦ other-Moves p j x' s t h other
    ]

module _ {W I : Type 0} (env : Env W I) where
  pub register_provider-Moves :
      (o : Origin) (p : MassbitId) (ty : ProviderType) (b : AccountId) (c : ChainId) (s : State W)
      (j : MassbitId)
      → Moves (status j s) (status j (register_provider env o p ty b c s).1)
  register_provider-Moves (signed a) p ty b c s j =
      let t = (register_provider env (signed a) p ty b c s).1 in
      let x : Provider = record {
        provider_type = ty;
        operator = b;
        chain_id = c;
        state = registered;
      } in
      elim (register_provider_writes env a p ty b c s) [
        | inl h ↦ same-Moves j s t h
        | inr (absent, h) ↦ elim (Bool-cases (nat_beq p j)) [
          | inl same ↦
              between-Moves none (some registered) (ground (arith, nat_beq_iff p j))
                (ground (arith, lookup-insert p j x s.providers)) enroll
          | inr other ↦ other-Moves p j x s t h other
        ]
      ]
  register_provider-Moves root p ty b c s j = unfold register_provider in stay
  register_provider-Moves unsigned p ty b c s j = unfold register_provider in stay

  pub deposit_provider-Moves :
      (o : Origin) (p : MassbitId) (d : Balance) (s : State W) (j : MassbitId)
      → Moves (status j s) (status j (deposit_provider env o p d s).1)
  deposit_provider-Moves (signed a) p d s j =
      Writes-Moves p j registered active s (deposit_provider env (signed a) p d s).1 activate
        (deposit_provider-Writes env a p d s)
  deposit_provider-Moves root p d s j = unfold deposit_provider in stay
  deposit_provider-Moves unsigned p d s j = unfold deposit_provider in stay

  pub unregister_provider-Moves :
      (o : Origin) (p : MassbitId) (s : State W) (j : MassbitId)
      → Moves (status j s) (status j (unregister_provider env o p s).1)
  unregister_provider-Moves (signed a) p s j =
      Writes-Moves p j active in_active s (unregister_provider env (signed a) p s).1 retire
        (unregister_provider-Writes env a p s)
  unregister_provider-Moves root p s j = unfold unregister_provider in stay
  unregister_provider-Moves unsigned p s j = unfold unregister_provider in stay

  pub report_offence-Moves :
      (o : Origin) (p : MassbitId) (r : ProviderDeactivateReason) (s : State W) (j : MassbitId)
      → Moves (status j s) (status j (report_provider_offence env o p r s).1)
  report_offence-Moves (signed a) p r s j =
      Writes-Moves p j active in_active s (report_provider_offence env (signed a) p r s).1 retire
        (report_offence-Writes env a p r s)
  report_offence-Moves root p r s j = unfold report_provider_offence in stay
  report_offence-Moves unsigned p r s j = unfold report_provider_offence in stay

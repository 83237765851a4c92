-- ===== src/Dapi/Projects/Quota.antt =====
-- The use that a project has made of its quota.
use massbit_verification.Members.{contains}
use massbit_verification.Prelude.{
  ◌⊎◌, saturating_add_u128, Bool-cases, true, ◌∷◌, ◌++◌, [], ℕ, ◌+◌, ◌≤◌, ◌<◌, ◌≡◌, some, arith,
  nat_eq, nat_beq, min, if◌then◌else◌, u128_size, Option-cases, inl, inr,
}
use massbit_verification.StorageMap.{lookup, insert, lookup-insert}
use massbit_verification.Dispatch.{
  AccountId, Balance, Origin, root, signed, unsigned, ok, Result-cases,
}
use massbit_verification.Currency.{keep_alive}
use massbit_verification.Dapi.State.{
  MassbitId, ChainId, Project, Env, State, calculate_quota, deposit_event, bounded_chain_id,
  project_reached_quota,
}
use massbit_verification.Dapi.Projects.{
  take_payment, insert_project, register_project, deposit_project, submit_project_usage,
}

-- No project has used more than its quota, and quotas fit into a `u128`.
abbrev pub WithinQuota : {W : Type 0} → State W → Type 0
WithinQuota s =
    (p : MassbitId) (x : Project)
    → lookup p s.projects ≡ some x
    → (x.usage ≤ x.quota) × (x.quota < u128_size)

calculate_quota-lt : (v : Balance) → calculate_quota v < u128_size
unfolding calculate_quota
calculate_quota-lt v = ground arith

module _ {W : Type 0} where
  pub unchanged-WithinQuota :
      (s t : State W) → t.projects ≡ s.projects → WithinQuota s → WithinQuota t
  unchanged-WithinQuota s t h q p x e = q p x (rw h at e)

  inserted-WithinQuota :
      (p : MassbitId) (x : Project) (s t : State W)
      → t.projects ≡ insert p x s.projects
      → x.usage ≤ x.quota
      → x.quota < u128_size
      → WithinQuota s
      → WithinQuota t
  inserted-WithinQuota p x s t h u b q j y e = ground (arith, lookup-insert p j x s.projects, q j y)

module _ {W I : Type 0} (env : Env W I) where
  -- A payment writes no project.
  take_payment_rest :
      (a : AccountId) (v : Balance) (s : State W) → (take_payment env a v s).1.projects ≡ s.projects
  unfolding take_payment
  take_payment_rest a v s = ground arith

  register_project_projects :
      (a : AccountId) (p : MassbitId) (c : ChainId) (d : Balance) (s : State W)
      → let t = (register_project env (signed a) p c d s).1 in
        (t.projects ≡ s.projects)
        ⊎ (t.projects
            ≡ insert p
                (record { consumer = a; chain_id = c; quota = calculate_quota d; usage = 0 })
                s.projects)
  unfolding register_project deposit_event insert_project take_payment bounded_chain_id
  register_project_projects a p c d s = ground arith

  deposit_project_projects :
      (a : AccountId) (p : MassbitId) (d : Balance) (s : State W)
      → let t = (deposit_project env (signed a) p d s).1 in
        (t.projects ≡ s.projects)
        ⊎ ((x : Project) × (lookup p s.projects ≡ some x)
            × (t.projects
                ≡ insert p
                    (record x { quota = saturating_add_u128 x.quota (calculate_quota d) })
                    s.projects))
  unfolding deposit_project deposit_event insert_project take_payment
  deposit_project_projects a p d s = elim (Option-cases (lookup p s.projects)) [
    | inl missing ↦ inl (ground arith)
    | inr (x, h) ↦ elim (Result-cases (env.currency.withdraw a d keep_alive s.world).0) [
      | inl (i, paid) ↦ inr (x, h, ground arith)
      | inr (e, refused) ↦ inl (ground arith)
    ]
  ]

  submit_project_usage_projects :
      (a : AccountId) (p : MassbitId) (u : ℕ) (s : State W)
      → let t = (submit_project_usage env (signed a) p u s).1 in
        (t.projects ≡ s.projects)
        ⊎ ((x : Project) × (lookup p s.projects ≡ some x)
            × (t.projects
                ≡ insert p
                    (record x { usage = min (saturating_add_u128 x.usage u) x.quota })
                    s.projects))
  unfolding submit_project_usage deposit_event insert_project
  submit_project_usage_projects a p u s = elim (Option-cases (lookup p s.projects)) [
    | inl missing ↦ inl (ground arith)
    | inr (x, h) ↦ elim (Bool-cases (contains a s.regulators)) [
      | inl allowed ↦ inr (x, h, ground arith)
      | inr denied ↦ inl (ground arith)
    ]
  ]

  pub register_project-WithinQuota :
      (o : Origin) (p : MassbitId) (c : ChainId) (d : Balance) (s : State W)
      → WithinQuota s
      → WithinQuota (register_project env o p c d s).1
  register_project-WithinQuota (signed a) p c d s q = elim (register_project_projects a p c d s) [
    | inl h ↦ unchanged-WithinQuota s (register_project env (signed a) p c d s).1 h q
    | inr h ↦
        inserted-WithinQuota p
          (record { consumer = a; chain_id = c; quota = calculate_quota d; usage = 0 }) s
          (register_project env (signed a) p c d s).1 h (omega arith) (calculate_quota-lt d) q
  ]
  register_project-WithinQuota root p c d s q = unfold register_project in q
  register_project-WithinQuota unsigned p c d s q = unfold register_project in q

  pub deposit_project-WithinQuota :
      (o : Origin) (p : MassbitId) (d : Balance) (s : State W)
      → WithinQuota s
      → WithinQuota (deposit_project env o p d s).1
  deposit_project-WithinQuota (signed a) p d s q = elim (deposit_project_projects a p d s) [
    | inl h ↦ unchanged-WithinQuota s (deposit_project env (signed a) p d s).1 h q
    | inr (x, e, h) ↦
        inserted-WithinQuota p
          (record x { quota = saturating_add_u128 x.quota (calculate_quota d) }) s
          (deposit_project env (signed a) p d s).1 h (omega (arith, q p x e)) (omega arith) q
  ]
  deposit_project-WithinQuota root p d s q = unfold deposit_project in q
  deposit_project-WithinQuota unsigned p d s q = unfold deposit_project in q

  pub submit_project_usage-WithinQuota :
      (o : Origin) (p : MassbitId) (u : ℕ) (s : State W)
      → WithinQuota s
      → WithinQuota (submit_project_usage env o p u s).1
  submit_project_usage-WithinQuota (signed a) p u s q =
      elim (submit_project_usage_projects a p u s) [
        | inl h ↦ unchanged-WithinQuota s (submit_project_usage env (signed a) p u s).1 h q
        | inr (x, e, h) ↦
            inserted-WithinQuota p
              (record x { usage = min (saturating_add_u128 x.usage u) x.quota }) s
              (submit_project_usage env (signed a) p u s).1 h (omega arith) (q p x e).1 q
      ]
  submit_project_usage-WithinQuota root p u s q = unfold submit_project_usage in q
  submit_project_usage-WithinQuota unsigned p u s q = unfold submit_project_usage in q

  -- A usage report of a regulator adds to the usage of the project, up to its quota; the quota
  -- stays, other projects stay, and the event that the quota has been reached is deposited
  -- exactly when usage and quota are equal then. The usages together fit into a `u128`.
  pub submit_project_usage_adds :
      (a : AccountId) (p : MassbitId) (u : ℕ) (s : State W) (x : Project)
      → contains a s.regulators ≡ true
      → lookup p s.projects ≡ some x
      → x.usage + u < u128_size
      → let used = min (x.usage + u) x.quota in
        let (r, t) = submit_project_usage env (signed a) p u s in
        (r ≡ ok tt)
        × ((j : MassbitId)
            → lookup j t.projects
              ≡ (if nat_beq p j then some (record x { usage = used }) else lookup j s.projects))
        × (t.events
            ≡ (if nat_beq used x.quota then s.events ++ project_reached_quota p ∷ [] else s.events))
  unfolding submit_project_usage deposit_event insert_project
  submit_project_usage_adds a p u s x allowed h fits = (
    ground arith,
    λ j.
        ground
          (arith, lookup-insert p j (record x { usage = min (x.usage + u) x.quota }) s.projects),
    ground arith,
  )

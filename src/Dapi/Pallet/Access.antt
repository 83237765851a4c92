-- ===== src/Dapi/Pallet/Access.antt =====
-- Who may change the regulators and the known chain ids.
use massbit_verification.Prelude.{nat_beq_iff, ◌≡◌, refl, ◌||◌, false, arith, nat_eq, nat_beq}
use massbit_verification.Members
use massbit_verification.Members.{contains, contains-add, contains-discard}
use massbit_verification.Dispatch.{AccountId, Origin, root, signed, unsigned, ok}
use massbit_verification.Dapi.State.{ChainId, Env, State, deposit_event}
use massbit_verification.Dapi.Roles.{add_regulator, remove_regulator, add_chain_id, remove_chain_id}

module _ {W I : Type 0} (env : Env W I) where
  ignored_root :
      (o : Origin) (a : AccountId) (s : State W)
      → add_regulator env o a s ≡ add_regulator env root a s
  unfolding add_regulator
  ignored_root root a s = refl
  ignored_root (signed b) a s = refl
  ignored_root unsigned a s = refl

  ignored_root_removal :
      (o : Origin) (a : AccountId) (s : State W)
      → remove_regulator env o a s ≡ remove_regulator env root a s
  unfolding remove_regulator
  ignored_root_removal root a s = refl
  ignored_root_removal (signed b) a s = refl
  ignored_root_removal unsigned a s = refl

  ignored_root_chain :
      (o : Origin) (c : ChainId) (s : State W) → add_chain_id env o c s ≡ add_chain_id env root c s
  unfolding add_chain_id
  ignored_root_chain root c s = refl
  ignored_root_chain (signed b) c s = refl
  ignored_root_chain unsigned c s = refl

  ignored_root_chain_removal :
      (o : Origin) (c : ChainId) (s : State W)
      → remove_chain_id env o c s ≡ remove_chain_id env root c s
  unfolding remove_chain_id
  ignored_root_chain_removal root c s = refl
  ignored_root_chain_removal (signed b) c s = refl
  ignored_root_chain_removal unsigned c s = refl

  -- Every origin may do what is meant for root: adding or removing a regulator or a chain id has the
  -- same result and the same effect from any origin as from root.
  pub roles_open_to_all :
      (o : Origin) (a : AccountId) (c : ChainId) (s : State W)
      → (add_regulator env o a s ≡ add_regulator env root a s)
        × (remove_regulator env o a s ≡ remove_regulator env root a s)
        × (add_chain_id env o c s ≡ add_chain_id env root c s)
        × (remove_chain_id env o c s ≡ remove_chain_id env root c s)
  roles_open_to_all o a c s = (
    ignored_root o a s,
    ignored_root_removal o a s,
    ignored_root_chain o c s,
    ignored_root_chain_removal o c s,
  )

  added_then_removed :
      (a : AccountId) (s : State W)
      → contains a s.regulators ≡ false
      → let (r, t) = add_regulator env root a s in
        let (r', u) = remove_regulator env root a t in
        (r ≡ ok tt)
        × ((b : AccountId) → contains b t.regulators ≡ (nat_beq a b || contains b s.regulators))
        × (r' ≡ ok tt)
        × ((b : AccountId) → contains b u.regulators ≡ contains b s.regulators)
  unfolding add_regulator remove_regulator deposit_event
  added_then_removed a s h =
      let rs = Members.add a s.regulators in
      (
        ground arith,
        λ b. ground (arith, contains-add a b s.regulators),
        ground (arith, contains-add a a s.regulators),
        λ b. ground (
          arith,
          nat_beq_iff a b,
          contains-add a a s.regulators,
          contains-add a b s.regulators,
          contains-discard a b rs,
        ),
      )

  -- Adding a regulator who is not one yet succeeds and makes that account a regulator, while all
  -- others stay what they were; removing the same account then succeeds as well, and leaves every
  -- account a regulator that was one before.
  pub add-remove_regulator :
      (o o' : Origin) (a : AccountId) (s : State W)
      → contains a s.regulators ≡ false
      → let (r, t) = add_regulator env o a s in
        let (r', u) = remove_regulator env o' a t in
        (r ≡ ok tt)
        × ((b : AccountId) → contains b t.regulators ≡ (nat_beq a b || contains b s.regulators))
        × (r' ≡ ok tt)
        × ((b : AccountId) → contains b u.regulators ≡ contains b s.regulators)
  add-remove_regulator o o' a s h =
      rw (ignored_root o a s, ignored_root_removal o' a (add_regulator env root a s).1)
        (added_then_removed a s h)

-- ===== src/Dapi/Roles.antt =====
-- The calls of pallets/dapi/src/lib.rs that change the regulators and the known chain ids, and the
-- genesis of the regulators. `let _ = ensure_root(origin);` drops the answer of the check.
use massbit_verification.Prelude.{not, List, [], ◌∷◌, nat_eq, bytes_eq}
use massbit_verification.Members
use massbit_verification.Members.{contains}
use massbit_verification.Dispatch.{
  AccountId, Origin, Action, ok, dapi, already_exist, bad_chain_id, not_exist, get_state, modify,
  ensure, ok_or, ensure_root, ◌>>=◌, ◌>>◌,
}
use massbit_verification.Dapi.State.{
  ChainId, Env, State, chain_id_added, chain_id_removed, regulator_added, regulator_removed,
  deposit_event, bounded_chain_id,
}

-- `let _ = action;`
abbrev pub ignore_result : {S A : Type 0} → Action S A → Action S (Unit {0})
ignore_result m s = (ok tt, (m s).1)

-- `collect::<BTreeSet<_>>()`
unfoldable pub collect : List AccountId → List AccountId
collect [] = []
collect (a ∷ as') = Members.add a (collect as')

module _ {W I : Type 0} (env : Env W I) where
  -- `GenesisConfig::build`
  unfoldable pub build : List AccountId → State W → State W
  unfolding collect
  build regulators s = record s { regulators = collect regulators }

  unfoldable pub add_regulator : Origin → AccountId → Action (State W) (Unit {0})
  add_regulator origin account_id = do
    ignore_result (ensure_root origin)
    s ← get_state
    ensure (not (contains account_id s.regulators)) (dapi already_exist)
    modify λ t. record t { regulators = Members.add account_id s.regulators }
    modify (deposit_event (regulator_added account_id))

  unfoldable pub remove_regulator : Origin → AccountId → Action (State W) (Unit {0})
  remove_regulator origin account_id = do
    ignore_result (ensure_root origin)
    s ← get_state
    ensure (contains account_id s.regulators) (dapi not_exist)
    modify λ t. record t { regulators = Members.discard account_id s.regulators }
    modify (deposit_event (regulator_removed account_id))

  unfoldable pub add_chain_id : Origin → ChainId → Action (State W) (Unit {0})
  add_chain_id origin chain_id = do
    ignore_result (ensure_root origin)
    s ← get_state
    bounded ← ok_or (bounded_chain_id env.chain_id_max_length chain_id) (dapi bad_chain_id)
    ensure (not (contains bounded s.chain_ids)) (dapi already_exist)
    modify λ t. record t { chain_ids = Members.add bounded s.chain_ids }
    modify (deposit_event (chain_id_added chain_id))

  unfoldable pub remove_chain_id : Origin → ChainId → Action (State W) (Unit {0})
  remove_chain_id origin chain_id = do
    ignore_result (ensure_root origin)
    s ← get_state
    bounded ← ok_or (bounded_chain_id env.chain_id_max_length chain_id) (dapi bad_chain_id)
    ensure (contains bounded s.chain_ids) (dapi not_exist)
    modify λ t. record t { chain_ids = Members.discard bounded s.chain_ids }
    modify (deposit_event (chain_id_removed chain_id))

-- ===== src/ValidatorSet/Candidacy.antt =====
-- How accounts become candidates, and how a candidate is removed: the calls of
-- pallets/validator-set/src/lib.rs and `try_remove_candidate`.
pub mod Limits
use massbit_verification.Prelude.{
  ℕ, Bool, true, false, not, ◌||◌, Option, none, some, List, [], ◌∷◌, ◌++◌, ltb, ◌==◌, nat_eq,
  length, add_u32, if◌then◌else◌, suc, zero,
}
use massbit_verification.StorageMap.{insert, remove}
use massbit_verification.Members.{contains}
use massbit_verification.Dispatch.{
  AccountId, Origin, Action, validator, too_many_candidates, already_candidate, not_candidate,
  already_invulnerable, no_associated_validator_id, validator_not_registered, too_low_free_balance,
  pure, get_state, modify, ensure, ok_or, from_result, ensure_signed, ◌>>=◌, ◌>>◌,
}
use massbit_verification.Currency.{valstake}
use massbit_verification.ValidatorSet.State.{
  CandidateInfo, Env, State, new_invulnerables, candidate_added, candidate_removed, deposit_event,
  len_u32,
}

-- `candidates.any(|candidate| candidate.who == who)`
unfoldable pub is_candidate : AccountId → List CandidateInfo → Bool
is_candidate who [] = false
is_candidate who (c ∷ cs) = c.who == who || is_candidate who cs

abbrev pub suc_of : Option ℕ → Option ℕ
suc_of none = none
suc_of (some n) = some (suc n)

-- `candidates.iter().position(|candidate| candidate.who == *who)`
unfoldable pub position : AccountId → List CandidateInfo → Option ℕ
position who [] = none
position who (c ∷ cs) = let rest = suc_of (position who cs) in if c.who == who then some 0 else rest

-- `candidates.remove(index)`
unfoldable pub remove_at : ℕ → List CandidateInfo → List CandidateInfo
remove_at n [] = []
remove_at zero (c ∷ cs) = cs
remove_at (suc n) (c ∷ cs) = c ∷ remove_at n cs

module _ {B I V : Type 0} (env : Env B I V) where
  open env use {currency, kick_threshold}

  unfoldable pub set_invulnerables : Origin → List AccountId → Action (State B) (Unit {0})
  set_invulnerables origin invulnerables = do
    from_result (env.ensure_update_origin origin)
    modify λ s. record s { invulnerables = invulnerables }
    modify (deposit_event (new_invulnerables invulnerables))

  -- Locks the deposit, and enters the candidate as if it had written a block a kick threshold
  -- from now.
  unfoldable pub enter_candidate : CandidateInfo → State B → State B
  enter_candidate c s = record s {
    bank = currency.set_lock valstake c.who c.deposit s.bank;
    candidates = s.candidates ++ c ∷ [];
    last_authored_block =
        insert c.who (add_u32 s.block_number kick_threshold) s.last_authored_block;
  }

  unfoldable pub register_as_candidate : Origin → Action (State B) (Unit {0})
  register_as_candidate origin = do
    who ← ensure_signed origin
    s ← get_state
    ensure (ltb (len_u32 s.candidates) s.desired_candidates) (validator too_many_candidates)
    ensure (not (contains who s.invulnerables)) (validator already_invulnerable)
    validator_key ← ok_or (env.validator_id_of who) (validator no_associated_validator_id)
    ensure (env.is_registered validator_key) (validator validator_not_registered)
    let deposit = s.candidacy_bond
    ensure (ltb deposit (currency.free_balance who s.bank)) (validator too_low_free_balance)
    ensure (not (is_candidate who s.candidates)) (validator already_candidate)
    modify (enter_candidate (record { who = who; deposit = deposit }))
    modify (deposit_event (candidate_added who deposit))

  -- Returns the number of the candidates that are left.
  unfoldable pub try_remove_candidate : AccountId → Action (State B) ℕ
  try_remove_candidate who = do
    s ← get_state
    index ← ok_or (position who s.candidates) (validator not_candidate)
    let left = remove_at index s.candidates
    modify λ t. record t {
      bank = currency.remove_lock valstake who t.bank;
      candidates = left;
      last_authored_block = remove who t.last_authored_block;
    }
    modify (deposit_event (candidate_removed who))
    pure (length left)

-- ===== src/Tests/Validators.antt =====
-- Examples of the validator set.
use massbit_verification.Prelude.{
  ℕ, ◌≡◌, ◌<◌, ◌≤◌, ◌++◌, refl, true, false, some, List, [], ◌∷◌, if◌then◌else◌, arith, length,
  add_u32, nat_eq,
}
use massbit_verification.StorageMap.{lookup, remove}
use massbit_verification.Members.{contains, add}
use massbit_verification.Dispatch.{AccountId, Balance, signed, ok, err, validator, not_candidate}
use massbit_verification.Currency.{valstake}
use massbit_verification.Tests.{Bank, toy_currency, balance_of}
use massbit_verification.ValidatorSet.State.{
  Env, State, GenesisConfig, candidate_removed, build, is_buildable, collect,
}
use massbit_verification.ValidatorSet.Candidacy.{
  is_candidate, set_invulnerables, try_remove_candidate, register_as_candidate,
}
use massbit_verification.ValidatorSet.Candidacy.Limits.{
  Unique, without, try_remove_candidate_removes, register_as_candidate_enters,
}
use massbit_verification.ValidatorSet.Session.{new_session}
use massbit_verification.ValidatorSet.Session.Doubles.{invulnerable_candidate_twice}
use massbit_verification.ValidatorSet.Session.Reference.{survivors, new_session_lem}
use massbit_verification.ValidatorSet.Pallet.{run, call, session, author, begin_block}
use massbit_verification.ValidatorSet.Pallet as Validators
use massbit_verification.ValidatorSet.Pallet.Invariant.{Sound, run-Sound_from_genesis}
use massbit_verification.ValidatorSet.Session.Kicks.{accounts, new_session_assembles}

abbrev pub set_env : Env Bank Balance ℕ
set_env = record {
  currency = toy_currency;
  ensure_update_origin = λ o. ok tt;
  pot_account = 99;
  max_candidates = 4;
  min_candidates = 1;
  max_invulnerables = 2;
  kick_threshold = 10;
  validator_id_of = λ a. some a;
  is_registered = λ v. true;
}

-- Candidate 2 has not written a block for long.
abbrev pub set_state : State Bank
set_state = record {
  bank = (4, 100) ∷ [];
  block_number = 50;
  invulnerables = 1 ∷ [];
  candidates = record { who = 2; deposit = 16 } ∷ record { who = 3; deposit = 16 } ∷ [];
  last_authored_block = (2, 20) ∷ (3, 45) ∷ [];
  desired_candidates = 3;
  candidacy_bond = 16;
  events = [];
}

try_remove_candidate_removes_example :
    let (r, t) = try_remove_candidate set_env 2 set_state in
    (t.candidates ≡ without 2 set_state.candidates)
    × (r ≡ (
        if is_candidate 2 set_state.candidates
        then ok (length (without 2 set_state.candidates))
        else err (validator not_candidate)))
    × (t.last_authored_block ≡ (
        if is_candidate 2 set_state.candidates
        then remove 2 set_state.last_authored_block
        else set_state.last_authored_block))
    × (t.block_number ≡ 50)
    × (t.invulnerables ≡ set_state.invulnerables)
    × (t.bank ≡ (
        if is_candidate 2 set_state.candidates
        then toy_currency.remove_lock valstake 2 set_state.bank
        else set_state.bank))
    × (t.events ≡ (
        if is_candidate 2 set_state.candidates
        then set_state.events ++ candidate_removed 2 ∷ []
        else set_state.events))
    × (is_candidate 2 set_state.candidates ≡ false → t ≡ set_state)
unfolding is_candidate
try_remove_candidate_removes_example =
    try_remove_candidate_removes set_env 2 set_state (refl, (refl, tt))

register_as_candidate_enters_example :
    let t = (register_as_candidate set_env (signed 4) set_state).1 in
    (t.candidates ≡ set_state.candidates ++ record { who = 4; deposit = 16 } ∷ [])
    × Unique t.candidates
    × (length t.candidates ≤ 3)
    × (is_candidate 4 set_state.candidates ≡ false)
    × (contains 4 set_state.invulnerables ≡ false)
    × (16 < set_env.currency.free_balance 4 set_state.bank)
    × (t.bank ≡ set_env.currency.set_lock valstake 4 16 set_state.bank)
    × (lookup 4 t.last_authored_block ≡ some (add_u32 50 10))
unfolding is_candidate contains lookup balance_of register_as_candidate
register_as_candidate_enters_example =
    register_as_candidate_enters set_env 4 set_state (refl, (refl, tt)) (omega arith) refl

new_session_assembles_example :
    let (r, t) = new_session set_env 1 set_state in
    (r ≡ some (1 ∷ [] ++ accounts t.candidates))
    × Unique t.candidates
    × (length t.candidates ≤ length set_state.candidates)
    × (1 ≤ length set_state.candidates → 1 ≤ length t.candidates)
unfolding is_candidate
new_session_assembles_example =
    new_session_assembles set_env 1 set_state (refl, (refl, tt)) (omega arith)

new_session_lem_example :
    let (r, t) = new_session set_env 7 set_state in
    (r ≡ some (1 ∷ survivors set_env set_state 2 set_state.candidates))
    × (accounts t.candidates ≡ survivors set_env set_state 2 set_state.candidates)
unfolding is_candidate
new_session_lem_example = new_session_lem set_env 7 set_state (refl, (refl, tt)) (omega arith)

-- Before the genesis.
abbrev empty_state : State Bank
empty_state = record set_state {
  invulnerables = [];
  candidates = [];
  last_authored_block = [];
  desired_candidates = 0;
  candidacy_bond = 0;
}

abbrev set_genesis : GenesisConfig
set_genesis = record { invulnerables = 1 ∷ []; candidacy_bond = 16; desired_candidates = 3 }

run-Sound_from_genesis_example : Sound set_env (
    run set_env
      (begin_block 1 ∷ call (signed 4) Validators.register_as_candidate ∷ author 4 ∷ session 1 ∷ [])
      (record empty_state { invulnerables = 1 ∷ []; desired_candidates = 3; candidacy_bond = 16 }))
unfolding build is_buildable collect add contains
run-Sound_from_genesis_example =
    run-Sound_from_genesis set_env (omega arith) set_genesis
      (begin_block 1 ∷ call (signed 4) Validators.register_as_candidate ∷ author 4 ∷ session 1 ∷ [])
      empty_state
      (record empty_state { invulnerables = 1 ∷ []; desired_candidates = 3; candidacy_bond = 16 })
      refl refl

abbrev third : List AccountId
third = 3 ∷ []

-- Candidate 3 has written block 45, and is made invulnerable.
invulnerable_candidate_twice_example :
    let t = (set_invulnerables set_env (signed 9) third set_state).1 in
    (kept : List AccountId) × ((new_session set_env 7 t).0 ≡ some (third ++ kept))
    × (contains 3 third ≡ true)
    × (contains 3 kept ≡ true)
unfolding is_candidate contains lookup
invulnerable_candidate_twice_example =
    invulnerable_candidate_twice set_env (signed 9) 3 third 7 set_state (refl, (refl, tt))
      (omega arith) refl refl refl refl

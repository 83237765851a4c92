-- ===== src/ValidatorSet/Session.antt =====
-- The session manager and the authorship handler of pallets/validator-set/src/lib.rs: who
-- validates next, which candidates are kicked, and what the author of a block earns.
pub mod Kicks
pub mod Reference
pub mod Doubles
use massbit_verification.Prelude.{
  ℕ, ◌-◌, ◌/◌, Bool, true, false, ◌||◌, Option, none, some, List, [], ◌∷◌, ◌++◌, ltb, leb, nat_eq,
  if◌then◌else◌, checked_sub,
}
use massbit_verification.StorageMap.{lookup, insert}
use massbit_verification.Dispatch.{AccountId, Balance}
use massbit_verification.Currency.{keep_alive}
use massbit_verification.ValidatorSet.State.{CandidateInfo, Env, State, len_u32}
use massbit_verification.ValidatorSet.Candidacy.{try_remove_candidate}

abbrev pub or_zero : Option ℕ → ℕ
or_zero none = 0
or_zero (some n) = n

module _ {B I V : Type 0} (env : Env B I V) where
  open env use {currency}

  -- The candidate stays: it has written a block lately, or too few candidates would be left.
  unfoldable pub stays : CandidateInfo → State B → Bool
  stays c s =
      ltb (s.block_number - or_zero (lookup c.who s.last_authored_block)) env.kick_threshold
      || leb (len_u32 s.candidates) env.min_candidates

  -- The candidates that stay, in order, and the state once the others have been removed.
  unfoldable pub kick_stale_candidates : List CandidateInfo → State B → List AccountId × State B
  unfolding stays
  kick_stale_candidates [] s = ([], s)
  kick_stale_candidates (c ∷ cs) s = elim (stays c s) [
    | true ↦ let (kept, t) = kick_stale_candidates cs s in (c.who ∷ kept, t)
    | false ↦ kick_stale_candidates cs (try_remove_candidate env c.who s).1
  ]

  unfoldable pub assemble_validators : List AccountId → State B → List AccountId
  assemble_validators candidates s = s.invulnerables ++ candidates

  unfoldable pub new_session : ℕ → State B → Option (List AccountId) × State B
  unfolding kick_stale_candidates assemble_validators
  new_session index s =
      let (active_candidates, t) = kick_stale_candidates s.candidates s in
      (some (assemble_validators active_candidates t), t)

  -- Half of what the pot holds beyond the minimum balance.
  unfoldable pub author_reward : State B → Balance
  author_reward s =
      or_zero (checked_sub (currency.free_balance env.pot_account s.bank) currency.minimum_balance)
      / 2

  -- The result of the transfer is dropped.
  unfoldable pub note_author : AccountId → State B → State B
  unfolding author_reward
  note_author author s = record s {
    bank = (currency.transfer env.pot_account author (author_reward s) keep_alive s.bank).1;
    last_authored_block = insert author s.block_number s.last_authored_block;
  }

-- ===== src/ValidatorSet/Pallet.antt =====
-- All that happens to the storage of pallets/validator-set/src/lib.rs: its calls, the session manager
-- and the authorship handler, and the framework's block number and balances.
pub mod Invariant
use massbit_verification.Prelude.{ℕ, List, [], ◌∷◌}
use massbit_verification.Dispatch.{AccountId, Origin, Action}
use massbit_verification.ValidatorSet.State.{Env, State}
use massbit_verification.ValidatorSet.Candidacy
use massbit_verification.ValidatorSet.Session.{new_session, note_author}

-- The variants of the pallet's `Call`.
pub data Call : Type 0 where
  set_invulnerables : List AccountId → Call
  register_as_candidate : Call

-- What may happen next.
pub data Operation (B : Type 0) : Type 0 where
  call : Origin → Call → Operation B
  session : ℕ → Operation B
  author : AccountId → Operation B
  begin_block : ℕ → Operation B
  balances : (B → B) → Operation B

module _ {B I V : Type 0} (env : Env B I V) where
  unfoldable pub dispatch : Call → Origin → Action (State B) (Unit {0})
  dispatch (set_invulnerables as') o = Candidacy.set_invulnerables env o as'
  dispatch register_as_candidate o = Candidacy.register_as_candidate env o

  -- The state that an operation leaves, also where it fails.
  unfoldable pub step : Operation B → State B → State B
  unfolding dispatch
  step (call o c) s = (dispatch c o s).1
  step (session index) s = (new_session env index s).1
  step (author a) s = note_author env a s
  step (begin_block n) s = record s { block_number = n }
  step (balances f) s = record s { bank = f s.bank }

  unfoldable pub run : List (Operation B) → State B → State B
  unfolding step
  run [] s = s
  run (op ∷ ops) s = run ops (step op s)

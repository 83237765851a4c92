-- ===== src/Staking/Pallet.antt =====
-- All that happens to the storage of pallets/dapi-staking: the calls of accounts, and what the
-- other pallets and the framework do through the trait `DapiStaking`, `rewards` and the hook.
pub mod Atomicity
pub mod Books
pub mod Preservation
pub mod Payouts
pub mod Untouched
pub mod Totals
pub mod Clock
pub mod Standings
pub mod Limits
pub mod Keeping
pub mod Exhaust
pub mod Transfers
pub mod Failures
pub mod Past
pub mod Unstaked
pub mod Once
pub mod Locks
pub mod Ledgers
pub mod Effects
pub mod Leaving
pub mod Withdrawal
use massbit_verification.Prelude.{[], ℕ, List, ◌∷◌}
use massbit_verification.Dispatch.{AccountId, Balance, EraIndex, Origin, Action}
use massbit_verification.Staking.State.{ProviderId, Env, State}
use massbit_verification.Staking.Calls
use massbit_verification.Staking.Eras.{on_initialize, rewards}
use massbit_verification.Staking.Registry.{register, unregister}

-- The variants of the pallet's `Call`.
pub data Call : Type 0 where
  withdraw_from_unregistered_staker withdraw_from_unregistered_operator : ProviderId → Call
  stake unstake : ProviderId → Balance → Call
  withdraw_unstaked : Call
  claim_staker : ProviderId → Call
  claim_operator : ProviderId → EraIndex → Call
  force_new_era : Call

-- What may happen next: a call from some origin, or an entry by the runtime.
pub data Operation (I : Type 0) : Type 0 where
  call : Origin → Call → Operation I
  register_by : AccountId → ProviderId → Balance → Operation I
  unregister_it : ProviderId → Operation I
  reward_with : I → Operation I
  begin_block : ℕ → Operation I

module _ {B I P : Type 0} (env : Env B I P) where
  unfoldable pub dispatch : Call → Origin → Action (State B) (Unit {0})
  dispatch (withdraw_from_unregistered_staker p) o = Calls.withdraw_from_unregistered_staker env o p
  dispatch (withdraw_from_unregistered_operator p) o =
      Calls.withdraw_from_unregistered_operator env o p
  dispatch (stake p v) o = Calls.stake env o p v
  dispatch (unstake p v) o = Calls.unstake env o p v
  dispatch withdraw_unstaked o = Calls.withdraw_unstaked env o
  dispatch (claim_staker p) o = Calls.claim_staker env o p
  dispatch (claim_operator p e) o = Calls.claim_operator env o p e
  dispatch force_new_era o = Calls.force_new_era env o

  -- The state that an operation leaves, also where it fails.
  unfoldable pub step : Operation I → State B → State B
  unfolding dispatch
  step (call o c) s = (dispatch c o s).1
  step (register_by a p v) s = (register env a p v s).1
  step (unregister_it p) s = (unregister env p s).1
  step (reward_with i) s = rewards env i s
  step (begin_block now) s = (on_initialize env now s).1

  unfoldable pub run : List (Operation I) → State B → State B
  unfolding step
  run [] s = s
  run (op ∷ ops) s = run ops (step op s)

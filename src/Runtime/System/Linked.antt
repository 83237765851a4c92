-- ===== src/Runtime/System/Linked.antt =====
-- The state of a provider in the dapi pallet goes with its standing in the staking pallet, whatever
-- happens in the runtime.
use massbit_verification.Staking.Eras.{rewards}
use massbit_verification.Prelude.{List, [], ◌∷◌, ◌≡◌, refl, true, arith}
use massbit_verification.Dispatch.{Origin}
use massbit_verification.Dapi.State.{MassbitId}
use massbit_verification.Dapi.Providers.Lifecycle.{status}
use massbit_verification.Dapi.Pallet.Worlds.{goes_with}
use massbit_verification.Dapi.Pallet.Linked.{dispatch-Linked}
use massbit_verification.Staking.Pallet.Standings.{
  standing_of, dispatch-standing, on_initialize-standing,
}
use massbit_verification.Runtime.{
  Setup, UnbalancedLaws, staking_env, dapi_env, reward_env, beneficiary_payout,
}
use massbit_verification.BlockReward.{
  set_configuration, on_timestamp_set, distribute_rewards, RewardDistributionConfig,
}
use massbit_verification.Runtime.System.{
  System, RuntimeCall, Happening, dapi_call, dapi_staking_call, block_reward_call, initialize,
  timestamp_set, call, balances, dispatch, step, run, reward_part,
}
use massbit_verification.Runtime.System.Sides.{staking_standing}

-- Unknown here, unknown there; active here, registered there; inactive here, unregistered there.
-- A provider that is registered here is unknown there, or registered by a deposit that failed.
abbrev pub InStep : {B P : Type 0} → System B P → Type 0
InStep x = (q : MassbitId) → goes_with (status q x.dapi) (standing_of q x.dapi.world) ≡ true

module _ {B I P : Type 0} (r : Setup B I P) (laws : UnbalancedLaws r) where
  configured-InStep :
      (o : Origin) (c : RewardDistributionConfig P) (x : System B P)
      → (set_configuration (reward_env r) o c (reward_part x)).1.world ≡ x.dapi.world
  unfolding set_configuration
  configured-InStep o c x = ground arith

  rewarded-standing :
      (x : System B P) (q : MassbitId)
      → standing_of q (on_timestamp_set (reward_env r) (reward_part x)).world
        ≡ standing_of q x.dapi.world
  unfolding on_timestamp_set distribute_rewards reward_env beneficiary_payout rewards
  rewarded-standing x q = refl

  dispatch-InStep :
      (c : RuntimeCall P) (o : Origin) (x : System B P) → InStep x → InStep (dispatch r c o x).1
  unfolding dispatch staking_standing
  dispatch-InStep (dapi_call c) o x k q =
      dispatch-Linked (dapi_env r) (staking_standing r laws) c o x.dapi k q
  dispatch-InStep (dapi_staking_call c) o x k q =
      rw (dispatch-standing (staking_env r) c o x.dapi.world q) (k q)
  dispatch-InStep (block_reward_call c) o x k q = rw (configured-InStep o c x) (k q)

  step-InStep : (h : Happening B P) (x : System B P) → InStep x → InStep (step r h x)
  unfolding step
  step-InStep (initialize now) x k q =
      rw (on_initialize-standing (staking_env r) now x.dapi.world q) (k q)
  step-InStep timestamp_set x k q = rw (rewarded-standing x q) (k q)
  step-InStep (call o c) x k q = dispatch-InStep c o x k q
  step-InStep (balances f) x k q = k q

  -- Whatever happens in the runtime (calls of the pallets from any origin, failed or not, the hooks
  -- of blocks, changes of the balances by the framework's pallets), in any order, each provider's
  -- state in the dapi pallet stays in step with its standing in the staking pallet: a provider
  -- unknown to the dapi pallet is unknown to the staking pallet, an active one is registered for
  -- staking, an inactive one is unregistered, and a registered one is unknown for staking, or
  -- registered there. Conditions: it is so at the start, and `OnUnbalanced` drops zero imbalances
  -- and hands on all others.
  pub run-InStep : (hs : List (Happening B P)) (x : System B P) → InStep x → InStep (run r hs x)
  unfolding run
  run-InStep [] x k = k
  run-InStep (h ∷ hs) x k = run-InStep hs (step r h x) (step-InStep h x k)

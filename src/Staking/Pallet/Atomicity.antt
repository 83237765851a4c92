-- ===== src/Staking/Pallet/Atomicity.antt =====
-- Failed calls and the storage.
use massbit_verification.Dispatch.{Origin, IsAtomicAt}
use massbit_verification.Staking.State.{Env, State}
use massbit_verification.Staking.Calls.Atomic.{
  WithdrawIsAtomic, stake-IsAtomic, unstake-IsAtomic, withdraw_unstaked-IsAtomic,
  withdraw_staker-IsAtomic, withdraw_operator-IsAtomic, force_new_era-IsAtomic,
  claim_staker-IsAtomic, claim_operator-IsAtomic,
}
use massbit_verification.Staking.Pallet.{
  Call, withdraw_from_unregistered_staker, withdraw_from_unregistered_operator, stake, unstake,
  withdraw_unstaked, claim_staker, claim_operator, force_new_era, dispatch,
}

-- A call of the pallet that fails leaves its storage, its events and the currency as they were,
-- whatever the call and its origin, if a withdrawal of the currency that fails changes nothing.
pub dispatch-IsAtomic :
    {B I P : Type 0} (env : Env B I P)
    → WithdrawIsAtomic env.currency
    → (c : Call) (o : Origin) (s : State B) → IsAtomicAt (dispatch env c o) s
unfolding dispatch
dispatch-IsAtomic env w (withdraw_from_unregistered_staker p) o s =
    withdraw_staker-IsAtomic env o p s
dispatch-IsAtomic env w (withdraw_from_unregistered_operator p) o s =
    withdraw_operator-IsAtomic env o p s
dispatch-IsAtomic env w (stake p v) o s = stake-IsAtomic env o p v s
dispatch-IsAtomic env w (unstake p v) o s = unstake-IsAtomic env o p v s
dispatch-IsAtomic env w withdraw_unstaked o s = withdraw_unstaked-IsAtomic env o s
dispatch-IsAtomic env w (claim_staker p) o s = claim_staker-IsAtomic env w o p s
dispatch-IsAtomic env w (claim_operator p e) o s = claim_operator-IsAtomic env w o p e s
dispatch-IsAtomic env w force_new_era o s = force_new_era-IsAtomic env o s

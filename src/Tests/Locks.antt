-- ===== src/Tests/Locks.antt =====
-- An example of the locks: the currency to try the pallets with, and a table of locks beside it.
use massbit_verification.Prelude.{
  ℕ, ◌≡◌, ◌&&◌, ◌==◌, refl, Bool, true, false, [], ◌∷◌, ltb, if◌then◌else◌, arith, nat_eq,
}
use massbit_verification.StorageMap.{lookup}
use massbit_verification.Dispatch.{AccountId, Balance, zoom}
use massbit_verification.Currency.{Currency, LockIdentifier, LockLaws, dapistak, valstake}
use massbit_verification.Tests.{Bank, toy_currency}
use massbit_verification.Tests.Stakers.{toy_env, stakes_and_withdraws}
use massbit_verification.Staking.State.{Env, State, ledger_of}
use massbit_verification.Staking.Pallet.{run}
use massbit_verification.Staking.Pallet.Locks.{Locked}
use massbit_verification.Staking.Pallet.Locks.Runs.{run-Locked}
use massbit_verification.Runtime.Genesis.{no_staking}
use massbit_verification.Runtime.Genesis.Chain.{no_staking-Sound}

abbrev LockBank : Type 0
LockBank = Bank × (LockIdentifier → AccountId → Balance)

abbrev same_id : LockIdentifier → LockIdentifier → Bool
same_id dapistak dapistak = true
same_id dapistak valstake = false
same_id valstake dapistak = false
same_id valstake valstake = true

abbrev put : LockIdentifier → AccountId → Balance → LockBank → LockBank
put i a n (b, locks) = (b, λ k j. if same_id i k && a == j then n else locks k j)

abbrev on_funds : (Bank → Bank) → LockBank → LockBank
on_funds f (b, locks) = (f b, locks)

abbrev locking : Currency LockBank Balance
locking = record {
  free_balance = λ a b. toy_currency.free_balance a b.0;
  minimum_balance = 1;
  reserve = λ a n. zoom (λ b. b.0) (λ b c. (c, b.1)) (toy_currency.reserve a n);
  unreserve = λ a n. on_funds (toy_currency.unreserve a n);
  set_lock = λ i a n b. if ltb 0 n then put i a n b else b;
  remove_lock = λ i a. put i a 0;
  withdraw = λ a n r. zoom (λ b. b.0) (λ b c. (c, b.1)) (toy_currency.withdraw a n r);
  resolve_creating = λ a i. on_funds (toy_currency.resolve_creating a i);
  transfer = λ a c n r. zoom (λ b. b.0) (λ b d. (d, b.1)) (toy_currency.transfer a c n r);
  issue = λ n b. (n, b);
  peek = λ i. i;
  split = toy_currency.split;
  drop = λ i b. b;
}

same_id_refl : (i : LockIdentifier) → same_id i i ≡ true
same_id_refl dapistak = refl
same_id_refl valstake = refl

locking_laws : LockLaws locking
locking_laws = record {
  lock = λ i a b. b.1 i a;
  lock-set_lock = λ i a j n b h. ground (arith, same_id_refl i);
  lock-remove_lock = λ i a j b. ground (arith, same_id_refl i);
  lock-reserve = λ i j a n b. refl;
  lock-unreserve = λ i j a n b. refl;
  lock-withdraw = λ i j a n r b. refl;
  lock-resolve_creating = λ l j a i b. refl;
}

abbrev lock_env : Env LockBank Balance ℕ
lock_env = record {
  currency = locking;
  perbill = toy_env.perbill;
  config = toy_env.config;
  db_weight = toy_env.db_weight;
}

-- Nothing is staked, and nothing locked.
abbrev unlocked : State LockBank
unlocked = no_staking ((7, 500) ∷ (8, 300) ∷ [], λ i a. 0)

unlocked-Locked : Locked lock_env locking_laws unlocked
unfolding lookup ledger_of locking_laws
unlocked-Locked = record { locks = λ a. refl; positive = λ a. tt }

run-Locked_example : Locked lock_env locking_laws (run lock_env stakes_and_withdraws unlocked)
run-Locked_example =
    run-Locked lock_env locking_laws (omega arith) stakes_and_withdraws unlocked
      (no_staking-Sound unlocked.bank).books unlocked-Locked

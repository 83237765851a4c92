-- ===== src/Currency.antt =====
-- The framework's currency and fixed-point fractions, which the pallets call and this repository
-- does not implement: the operations are parameters of the model. `B` is the state of the
-- currency, `I` an imbalance (funds that are nowhere on the books), `P` a fraction.
use massbit_verification.Prelude.{
  ℕ, ◌+◌, ◌*◌, ◌<◌, ◌≤◌, ◌≡◌, Option, some, ◌==◌, nat_eq, if◌then◌else◌,
}
use massbit_verification.Dispatch.{AccountId, Balance, Action}

pub data ExistenceRequirement : Type 0 where
  keep_alive allow_death : ExistenceRequirement

-- `STAKING_ID` of pallets/dapi-staking and `VALIDATOR_STAKING_ID` of pallets/validator-set
pub data LockIdentifier : Type 0 where
  dapistak valstake : LockIdentifier

pub record Currency (B I : Type 0) : Type 0 where
  pub free_balance : AccountId → B → Balance
  pub minimum_balance : Balance
  pub reserve : AccountId → Balance → Action B (Unit {0})
  pub unreserve : AccountId → Balance → B → B
  pub set_lock : LockIdentifier → AccountId → Balance → B → B
  pub remove_lock : LockIdentifier → AccountId → B → B
  -- with `WithdrawReasons::TRANSFER`
  pub withdraw : AccountId → Balance → ExistenceRequirement → Action B I
  pub resolve_creating : AccountId → I → B → B
  pub transfer : AccountId → AccountId → Balance → ExistenceRequirement → Action B (Unit {0})
  pub issue : Balance → B → I × B
  pub peek : I → Balance
  pub split : I → Balance → I × I
  -- an imbalance that goes out of scope
  pub drop : I → B → B

pub record Perbill (P : Type 0) : Type 0 where
  pub zero_part : P
  pub one_part : P
  pub from_percent : ℕ → P
  pub from_rational : ℕ → ℕ → P
  -- `fraction * amount`
  pub of_amount : P → ℕ → ℕ
  pub checked_add : P → P → Option P
  pub parts : P → ℕ

-- Documented of fractions: they lie between zero and one.
pub record PerbillLaws {P : Type 0} (p : Perbill P) : Type 0 where
  pub of_amount-le : (x : P) (n : ℕ) → p.of_amount x n ≤ n

-- Documented of fractions: they count parts of a whole, and a product is rounded to the nearest
-- number, a half downwards.
pub record PartsLaws {P : Type 0} (p : Perbill P) : Type 0 where
  pub parts-zero : p.parts p.zero_part ≡ 0
  pub parts-checked_add :
      (x y z : P) → p.checked_add x y ≡ some z → p.parts z ≡ p.parts x + p.parts y
  pub of_amount-rounds :
      (x : P) (n : ℕ)
      → 2 * (p.parts p.one_part * p.of_amount x n) < 2 * (p.parts x * n) + p.parts p.one_part
  pub of_amount-reaches :
      (x : P) (n : ℕ)
      → 2 * (p.parts x * n) ≤ 2 * (p.parts p.one_part * p.of_amount x n) + p.parts p.one_part
  pub parts-one : 0 < p.parts p.one_part

-- Documented of imbalances: a split takes the amount off, as far as it reaches.
pub record SplitLaws {B I : Type 0} (c : Currency B I) : Type 0 where
  pub split-peek₁ : (i : I) (n : Balance) → n ≤ c.peek i → c.peek (c.split i n).0 ≡ n
  pub split-peek₂ : (i : I) (n : Balance) → n ≤ c.peek i → c.peek (c.split i n).1 + n ≡ c.peek i

-- Documented of locks: setting a lock replaces the one with its name, but for an amount of zero, which
-- does nothing; removing it leaves none; and no movement of funds changes a lock.
pub record LockLaws {B I : Type 0} (c : Currency B I) : Type 0 where
  pub lock : LockIdentifier → AccountId → B → Balance
  pub lock-set_lock :
      (i : LockIdentifier) (a j : AccountId) (n : Balance) (b : B)
      → 0 < n
      → lock i j (c.set_lock i a n b) ≡ (if a == j then n else lock i j b)
  pub lock-remove_lock :
      (i : LockIdentifier) (a j : AccountId) (b : B)
      → lock i j (c.remove_lock i a b) ≡ (if a == j then 0 else lock i j b)
  pub lock-reserve :
      (i : LockIdentifier) (j a : AccountId) (n : Balance) (b : B)
      → lock i j (c.reserve a n b).1 ≡ lock i j b
  pub lock-unreserve :
      (i : LockIdentifier) (j a : AccountId) (n : Balance) (b : B)
      → lock i j (c.unreserve a n b) ≡ lock i j b
  pub lock-withdraw :
      (i : LockIdentifier) (j a : AccountId) (n : Balance) (r : ExistenceRequirement) (b : B)
      → lock i j (c.withdraw a n r b).1 ≡ lock i j b
  pub lock-resolve_creating :
      (l : LockIdentifier) (j a : AccountId) (i : I) (b : B)
      → lock l j (c.resolve_creating a i b) ≡ lock l j b

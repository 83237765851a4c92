-- ===== src/Tests.antt =====
-- A currency and fractions to try the pallets with: an account's free balance is an entry of a map,
-- an imbalance is its amount, and a fraction counts parts of 10 ^ 9.
pub mod Entries
pub mod Stakers
pub mod Calls
pub mod Projects
pub mod Validators
pub mod Shares
pub mod Systems
pub mod Locks
use native.Mathlib.Nat.{mul-le-mul_right}
use massbit_verification.Prelude.{
  ℕ, ◌+◌, ◌-◌, ◌*◌, ◌/◌, ◌≤◌, ◌<◌, ◌≡◌, refl, some, none, Option, min, leb, nat_eq, if◌then◌else◌,
  arith,
}
use massbit_verification.StorageMap.{StorageMap, lookup, insert}
use massbit_verification.Dispatch.{AccountId, Balance, currency, ok, err, Action}
use massbit_verification.Currency.{
  Currency, Perbill, PerbillLaws, PartsLaws, SplitLaws, ExistenceRequirement,
}
use massbit_verification.Staking.State.{unwrap_or}
use massbit_verification.Staking.Calls.Atomic.{WithdrawIsAtomic}

abbrev pub Bank : Type 0
Bank = StorageMap AccountId Balance

unfoldable pub balance_of : AccountId → Bank → Balance
unfolding lookup
balance_of a b = unwrap_or 0 (lookup a b)

unfoldable pub deposit_into : AccountId → Balance → Bank → Bank
unfolding insert balance_of
deposit_into a n b = insert a (balance_of a b + n) b

unfoldable pub take_from : AccountId → Balance → ExistenceRequirement → Action Bank Balance
unfolding insert balance_of
take_from a n r b =
    if leb n (balance_of a b)
    then (ok n, insert a (balance_of a b - n) b)
    else (err (currency 0), b)

unfoldable pub move_to :
    AccountId → AccountId → Balance → ExistenceRequirement → Action Bank (Unit {0})
unfolding deposit_into insert balance_of
move_to a c n r b =
    if leb n (balance_of a b)
    then (ok tt, deposit_into c n (insert a (balance_of a b - n) b))
    else (err (currency 0), b)

unfoldable pub hold_back : AccountId → Balance → Action Bank (Unit {0})
unfolding insert balance_of
hold_back a n b =
    if leb n (balance_of a b)
    then (ok tt, insert a (balance_of a b - n) b)
    else (err (currency 0), b)

abbrev pub toy_currency : Currency Bank Balance
toy_currency = record {
  free_balance = balance_of;
  minimum_balance = 1;
  reserve = hold_back;
  unreserve = deposit_into;
  set_lock = λ i a n b. b;
  remove_lock = λ i a b. b;
  withdraw = take_from;
  resolve_creating = deposit_into;
  transfer = move_to;
  issue = λ n b. (n, b);
  peek = λ i. i;
  split = λ i n. (min n i, i - n);
  drop = λ i b. b;
}

abbrev pub one : ℕ
one = 1_000_000_000

-- The parts times the amount over the whole, to the nearest number, a half downwards.
abbrev pub toy_perbill : Perbill ℕ
toy_perbill = record {
  zero_part = 0;
  one_part = one;
  from_percent = λ n. min (n * 10_000_000) one;
  from_rational = λ a b. if leb b a then one else a * one / b;
  of_amount = λ p n. (2 * (min p one * n) + 999_999_999) / 2_000_000_000;
  checked_add =
      λ p q. if leb (min p one + min q one) one then some (min p one + min q one) else none;
  parts = λ p. min p one;
}

pub toy_perbill_laws : PerbillLaws toy_perbill
toy_perbill_laws = record {
  of_amount-le = λ p n. omega (arith, mul-le-mul_right {m = min p one} {n = one} n (omega arith));
}

pub toy_parts : PartsLaws toy_perbill
toy_parts = record {
  parts-zero = refl;
  parts-checked_add = λ p q r h. ground arith;
  of_amount-rounds = λ p n. omega arith;
  of_amount-reaches = λ p n. omega arith;
  parts-one = omega arith;
}

pub toy_splits : SplitLaws toy_currency
toy_splits = record { split-peek₁ = λ i n h. omega arith; split-peek₂ = λ i n h. omega arith }

pub toy_withdraw : WithdrawIsAtomic toy_currency
unfolding take_from
toy_withdraw a n r b e h = ground arith

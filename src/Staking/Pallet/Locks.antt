-- ===== src/Staking/Pallet/Locks.antt =====
-- What the currency has locked for a staker is what the ledger says.
pub mod Runs
use massbit_verification.Prelude.{
  ℕ, ◌<◌, ◌≤◌, true, false, ◌≡◌, List, [], ◌∷◌, arith, nat_eq, nat_beq, ◌==◌, if◌then◌else◌,
  if_both, ◌∙◌, refl, Bool-cases, inl, inr,
}
use massbit_verification.Dispatch.{AccountId, Balance}
use massbit_verification.Currency.{LockLaws, dapistak}
use massbit_verification.Staking.Unbonding.{AccountLedger, UnlockingChunk, ledger_is_empty}
use massbit_verification.Staking.Unbonding.Laws.{total}
use massbit_verification.Staking.State.{Env, State, ledger_of, update_ledger}
use massbit_verification.Staking.State.Access.{ledger_of_cong}
use massbit_verification.Staking.Pallet.Transfers.{
  Transfers, OnlyTransfers, stays, reserves, unreserves, withdraws, resolves,
}

-- All amounts are more than zero.
abbrev pub Positive : List UnlockingChunk → Type 0
Positive [] = Unit {0}
Positive (c ∷ cs) = (0 < c.amount) × Positive cs

-- A ledger with nothing locked is empty.
abbrev pub IsFull : AccountLedger → Type 0
IsFull l = ledger_is_empty l ≡ false → 0 < l.locked

pub Positive-IsFull :
    (n : ℕ) (cs : List UnlockingChunk)
    → Positive cs
    → total cs ≤ n
    → IsFull (record { locked = n; unbonding_info = record { unlocking_chunks = cs } })
unfolding ledger_is_empty total
Positive-IsFull n [] p h e = ground arith
Positive-IsFull n (c ∷ cs) p h e = omega (arith, p.0)

nothing_locked : (l : AccountLedger) → ledger_is_empty l ≡ true → l.locked ≡ 0
unfolding ledger_is_empty
nothing_locked l h = ground arith

module _ {B I P : Type 0} (env : Env B I P) (laws : LockLaws env.currency) where
  transfers-lock :
      (j : AccountId) {b d : B}
      → Transfers env.currency b d
      → laws.lock dapistak j d ≡ laws.lock dapistak j b
  transfers-lock j stays = refl
  transfers-lock j (reserves a n {b}) = laws.lock-reserve dapistak j a n b
  transfers-lock j (unreserves a n {b}) = laws.lock-unreserve dapistak j a n b
  transfers-lock j (withdraws a n r {b}) = laws.lock-withdraw dapistak j a n r b
  transfers-lock j (resolves a i {b} {d} t) =
      laws.lock-resolve_creating dapistak j a i d ∙ transfers-lock j t

  -- Writing a ledger sets the lock to what is locked in it.
  pub lock-update_ledger :
      (a j : AccountId) (l : AccountLedger) (s : State B)
      → IsFull l
      → laws.lock dapistak j (update_ledger env a l s).bank
        ≡ (if nat_beq a j then l.locked else laws.lock dapistak j s.bank)
  unfolding update_ledger
  lock-update_ledger a j l s full = elim (Bool-cases (ledger_is_empty l)) [
    | inl empty ↦
        ground (arith, empty, nothing_locked l empty, laws.lock-remove_lock dapistak a j s.bank)
    | inr some ↦ ground (arith, some, full, laws.lock-set_lock dapistak a j l.locked s.bank)
  ]

  pub record Locked (s : State B) : Type 0 where
    pub locks : (a : AccountId) → laws.lock dapistak a s.bank ≡ (ledger_of a s).locked
    pub positive : (a : AccountId) → Positive (ledger_of a s).unbonding_info.unlocking_chunks

  -- A ledger is written.
  pub written-Locked :
      (a : AccountId) (l : AccountLedger) (s t : State B)
      → ((j : AccountId) → ledger_of j t ≡ (if nat_beq a j then l else ledger_of j s))
      → ((j : AccountId)
          → laws.lock dapistak j t.bank
            ≡ (if nat_beq a j then l.locked else laws.lock dapistak j s.bank))
      → Positive l.unbonding_info.unlocking_chunks
      → Locked s
      → Locked t
  written-Locked a l s t ledgers locks p k = record {
    locks = λ j. ground (arith, ledgers j, locks j, k.locks j);
    positive = λ j. rw (ledgers j) (
        if_both (λ (x : AccountLedger). Positive x.unbonding_info.unlocking_chunks) (nat_beq a j) p
          (k.positive j));
  }

  pub same-Locked :
      (s t : State B) → t.ledger ≡ s.ledger → OnlyTransfers env s t → Locked s → Locked t
  same-Locked s t ledgers moves k = record {
    locks = λ j. rw (transfers-lock j moves, ledger_of_cong j s t ledgers) (k.locks j);
    positive = λ j. rw (ledger_of_cong j s t ledgers) (k.positive j);
  }

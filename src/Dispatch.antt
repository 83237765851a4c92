-- ===== src/Dispatch.antt =====
-- What the framework gives to every call: the origin, the error that a call may return, and the
-- shape of a call. A call takes the state and returns a result with the state that it leaves.
-- On the framework's version in use an error does not roll the storage back, so the state
-- comes back with an error too.
use massbit_verification.Prelude.{
  ◌⊎◌, inl, inr, refl, ℕ, ◌≡◌, Bool, Option, none, some, if◌then◌else◌,
}

-- Accounts and identifiers are only compared.
abbrev pub AccountId : Type 0
AccountId = ℕ

abbrev pub Balance : Type 0
Balance = ℕ

abbrev pub EraIndex : Type 0
EraIndex = ℕ

pub data Origin : Type 0 where
  root : Origin
  signed : AccountId → Origin
  unsigned : Origin

-- The errors of pallets/dapi-staking.
pub data StakingError : Type 0 where
  insufficient_value staking_with_no_value max_number_of_stakers_exceeded : StakingError
  not_operated_provider not_staked_provider unknown_era_reward : StakingError
  unexpected_stake_info_era too_many_era_stake_values : StakingError
  unclaimed_rewards_remaining unstaking_with_no_value too_many_unlocking_chunks : StakingError
  nothing_to_withdraw era_out_of_bounds not_owned_provider : StakingError
  already_claimed_in_this_era not_unregistered_provider : StakingError
  already_registered_provider : StakingError

-- The errors of pallets/dapi.
pub data DapiError : Type 0 where
  already_exist inactive_provider bad_chain_id not_exist not_owner : DapiError
  permission_denied invalid_provider_state : DapiError

-- The errors of pallets/validator-set.
pub data ValidatorError : Type 0 where
  too_many_candidates too_few_candidates unknown permission already_candidate : ValidatorError
  not_candidate already_invulnerable no_associated_validator_id : ValidatorError
  validator_not_registered too_low_free_balance : ValidatorError

-- The errors of pallets/block-reward.
pub data RewardError : Type 0 where
  invalid_distribution_configuration : RewardError

-- `currency n` is an error that the currency returns.
pub data DispatchError : Type 0 where
  bad_origin arithmetic_overflow : DispatchError
  currency : ℕ → DispatchError
  staking : StakingError → DispatchError
  dapi : DapiError → DispatchError
  validator : ValidatorError → DispatchError
  reward : RewardError → DispatchError

pub data Result (A : Type 0) : Type 0 where
  ok : A → Result A
  err : DispatchError → Result A

abbrev pub Action : Type 0 → Type 0 → Type 0
Action S A = S → Result A × S

module _ {S : Type 0} where
  abbrev pub pure : {A : Type 0} → A → Action S A
  pure a s = (ok a, s)

  abbrev pub fail : {A : Type 0} → DispatchError → Action S A
  fail e s = (err e, s)

  abbrev pub get_state : Action S S
  get_state s = (ok s, s)

  abbrev pub modify : (S → S) → Action S (Unit {0})
  modify f s = (ok tt, f s)

  -- `ensure!(test, error)`
  abbrev pub ensure : Bool → DispatchError → Action S (Unit {0})
  ensure b e s = (if b then ok tt else err e, s)

  -- `option.ok_or(error)?`
  abbrev pub ok_or : {A : Type 0} → Option A → DispatchError → Action S A
  ok_or none e s = (err e, s)
  ok_or (some a) e s = (ok a, s)

  -- `result?`
  abbrev pub from_result : {A : Type 0} → Result A → Action S A
  from_result r s = (r, s)

  abbrev pub ensure_signed : Origin → Action S AccountId
  ensure_signed (signed a) = pure a
  ensure_signed root = fail bad_origin
  ensure_signed unsigned = fail bad_origin

  abbrev pub ensure_root : Origin → Action S (Unit {0})
  ensure_root root = pure tt
  ensure_root (signed a) = fail bad_origin
  ensure_root unsigned = fail bad_origin

infixl 5 ◌>>=◌ ◌>>◌
abbrev pub ◌>>=◌ : {S A B : Type 0} → Action S A → (A → Action S B) → Action S B
◌>>=◌ m f s = let (r, s') = m s in elim r [ ok a ↦ f a s' | err e ↦ (err e, s') ]

abbrev pub ◌>>◌ : {S A B : Type 0} → Action S A → Action S B → Action S B
m >> k = m >>= λ _. k

-- A call on a part of the state, through its reader and its writer.
abbrev pub zoom : {S T A : Type 0} → (S → T) → (S → T → S) → Action T A → Action S A
zoom get put m s = let (r, t) = m (get s) in (r, put s t)

-- A call that fails leaves the state as it was.
abbrev pub IsAtomicAt : {S A : Type 0} → Action S A → S → Type 0
IsAtomicAt m s = (e : DispatchError) → (m s).0 ≡ err e → (m s).1 ≡ s

pub Result-cases :
    {A : Type 0} (r : Result A) → ((a : A) × (r ≡ ok a)) ⊎ ((e : DispatchError) × (r ≡ err e))
Result-cases (ok a) = inl (a, refl)
Result-cases (err e) = inr (e, refl)

-- What a call keeps when it succeeds, and what a failed call leaves alone, is kept in any case.
pub kept :
    {S A : Type 0} (Kept : S → Type 0) (m : Action S A) (s : S)
    → IsAtomicAt m s
    → ((a : A) → (m s).0 ≡ ok a → Kept (m s).1)
    → Kept s
    → Kept (m s).1
kept Kept m s atomic success k = elim (Result-cases (m s).0) [
  | inl (a, h) ↦ success a h
  | inr (e, h) ↦ rw (atomic e h) k
]

-- ===== src/Staking/State/Access.antt =====
-- What is read after a write: the ledger of an account, the stakes of a staker, the stake of a
-- provider in an era, and the totals of an era.
use massbit_verification.Prelude.{
  get_last?, pair_beq, ◌+◌, ◌≡◌, refl, true, none, some, List, [], ◌∷◌, arith, nat_eq, pair_eq,
  nat_beq, if◌then◌else◌, inl, inr, Option-cases, ◌≤◌,
}
use massbit_verification.StorageMap.{
  lookup, lookup-insert, lookup-remove, IsDistinct, insert-IsDistinct, remove-IsDistinct, sum_by,
  sum_by-insert, sum_by-remove,
}
use massbit_verification.Dispatch.{AccountId, Balance, EraIndex}
use massbit_verification.Staking.StakerInfo
use massbit_verification.Staking.StakerInfo.{
  StakerInfo, EraStake, no_stakes, latest_staked_value, no_chunks,
}
use massbit_verification.Staking.Unbonding.{AccountLedger, empty_ledger, ledger_is_empty}
use massbit_verification.Staking.State.{
  ProviderId, Env, State, EraInfo, ledger_of, staker_info, mutate_era_info, update_staker_info,
  update_ledger,
}

no_chunks-nil : {A : Type 0} (l : List A) → no_chunks l ≡ true → l ≡ []
no_chunks-nil [] h = refl
no_chunks-nil (x ∷ l) h = cc

empty_ledger_lem : (l : AccountLedger) → ledger_is_empty l ≡ true → l ≡ empty_ledger
unfolding ledger_is_empty
empty_ledger_lem l h = ground (arith, no_chunks-nil l.unbonding_info.unlocking_chunks)

pub no_stakes_lem : (i : StakerInfo) → StakerInfo.is_empty i ≡ true → i ≡ no_stakes
unfolding StakerInfo.is_empty
no_stakes_lem i h = ground (arith, no_chunks-nil i.stakes)

pub latest_no_stakes : latest_staked_value no_stakes ≡ 0
unfolding latest_staked_value get_last?
latest_no_stakes = refl

module _ {B I P : Type 0} (env : Env B I P) where
  -- The ledger that was written is read back, also when it was empty and so removed.
  pub ledger_of-update_ledger :
      (a j : AccountId) (l : AccountLedger) (s : State B)
      → ledger_of j (update_ledger env a l s) ≡ (if nat_beq a j then l else ledger_of j s)
  unfolding ledger_of update_ledger
  ledger_of-update_ledger a j l s =
      ground (arith, empty_ledger_lem l, lookup-insert a j l s.ledger, lookup-remove a j s.ledger)

  -- Writing a ledger leaves the rest of the storage alone.
  pub update_ledger_rest :
      (a : AccountId) (l : AccountLedger) (s : State B)
      → let t = update_ledger env a l s in
        (t.current_era ≡ s.current_era)
        × (t.registered_providers ≡ s.registered_providers)
        × (t.general_era_info ≡ s.general_era_info)
        × (t.provider_era_stake ≡ s.provider_era_stake)
        × (t.general_staker_info ≡ s.general_staker_info)
        × (t.events ≡ s.events)
        × (t.block_reward_accumulator ≡ s.block_reward_accumulator)
        × (t.force_era ≡ s.force_era)
  unfolding update_ledger
  update_ledger_rest a l s = ground arith

module _ {B : Type 0} where
  pub staker_info-update_staker_info :
      (a j : AccountId) (p q : ProviderId) (i : StakerInfo) (s : State B)
      → staker_info j q (update_staker_info a p i s)
        ≡ (if pair_beq (a, p) (j, q) then i else staker_info j q s)
  unfolding staker_info update_staker_info
  staker_info-update_staker_info a j p q i s = ground (
    arith,
    no_stakes_lem i,
    lookup-insert (a, p) (j, q) i s.general_staker_info,
    lookup-remove (a, p) (j, q) s.general_staker_info,
  )

  pub mutate_era_info_rest :
      (e : EraIndex) (f : EraInfo → EraInfo) (s : State B)
      → let t = mutate_era_info e f s in
        (t.current_era ≡ s.current_era)
        × (t.registered_providers ≡ s.registered_providers)
        × (t.ledger ≡ s.ledger)
        × (t.provider_era_stake ≡ s.provider_era_stake)
        × (t.general_staker_info ≡ s.general_staker_info)
        × (t.bank ≡ s.bank)
        × (t.events ≡ s.events)
        × (t.block_reward_accumulator ≡ s.block_reward_accumulator)
        × (t.force_era ≡ s.force_era)
  unfolding mutate_era_info
  mutate_era_info_rest e f s = ground arith

  pub lookup-mutate_era_info :
      (e j : EraIndex) (f : EraInfo → EraInfo) (s : State B)
      → lookup j (mutate_era_info e f s).general_era_info ≡ (
          if nat_beq e j
          then elim (lookup e s.general_era_info) [ none ↦ none | some x ↦ some (f x) ]
          else lookup j s.general_era_info)
  unfolding mutate_era_info
  lookup-mutate_era_info e j f s = elim (Option-cases (lookup e s.general_era_info)) [
    | inl h ↦ ground arith
    | inr (x, h) ↦ ground (arith, lookup-insert e j (f x) s.general_era_info)
  ]

  -- What a staker has staked with all providers.
  unfoldable pub staked_by : AccountId → State B → Balance
  staked_by a s =
      sum_by (λ k i. if nat_beq k.0 a then latest_staked_value i else 0) s.general_staker_info

  pub staked_by-update_staker_info :
      (a j : AccountId) (p : ProviderId) (i : StakerInfo) (s : State B)
      → IsDistinct s.general_staker_info
      → staked_by j (update_staker_info a p i s)
          + (if nat_beq a j then latest_staked_value (staker_info a p s) else 0)
        ≡ staked_by j s + (if nat_beq a j then latest_staked_value i else 0)
  unfolding staked_by update_staker_info staker_info
  staked_by-update_staker_info a j p i s d =
      let m = s.general_staker_info in
      let f = λ (k : AccountId × ProviderId) (x : StakerInfo).
        if nat_beq k.0 j then latest_staked_value x else 0 in
      ground (
        arith,
        no_stakes_lem i,
        latest_no_stakes,
        sum_by-insert f (a, p) i m,
        sum_by-remove f (a, p) m d,
      )

  pub update_staker_info-IsDistinct :
      (a : AccountId) (p : ProviderId) (i : StakerInfo) (s : State B)
      → IsDistinct s.general_staker_info
      → IsDistinct (update_staker_info a p i s).general_staker_info
  unfolding update_staker_info
  update_staker_info-IsDistinct a p i s d = ground (
    arith,
    insert-IsDistinct (a, p) i s.general_staker_info,
    remove-IsDistinct (a, p) s.general_staker_info,
  )

  pub latest-le-staked_by :
      (a : AccountId) (p : ProviderId) (s : State B)
      → latest_staked_value (staker_info a p s) ≤ staked_by a s
  unfolding staked_by staker_info
  latest-le-staked_by a p s =
      let f = λ (k : AccountId × ProviderId) (x : StakerInfo).
        if nat_beq k.0 a then latest_staked_value x else 0 in
      ground (arith, latest_no_stakes, sum_by-insert f (a, p) no_stakes s.general_staker_info)

  -- The staker infos alone decide what a staker has staked.
  pub staked_by_cong :
      (a : AccountId) (s t : State B)
      → t.general_staker_info ≡ s.general_staker_info
      → staked_by a t ≡ staked_by a s
  unfolding staked_by
  staked_by_cong a s t h = rw h

  pub staker_info_cong :
      (a : AccountId) (p : ProviderId) (s t : State B)
      → t.general_staker_info ≡ s.general_staker_info
      → staker_info a p t ≡ staker_info a p s
  unfolding staker_info
  staker_info_cong a p s t h = rw h

  pub ledger_of_cong :
      (a : AccountId) (s t : State B) → t.ledger ≡ s.ledger → ledger_of a t ≡ ledger_of a s
  unfolding ledger_of
  ledger_of_cong a s t h = rw h

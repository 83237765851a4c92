-- ===== src/Staking/Pallet/Standings.antt =====
-- Who is registered as a provider: only `register` and `unregister` change it.
use massbit_verification.StorageMap.{lookup, lookup-insert}
use massbit_verification.Prelude.{
  ℕ, Option, ◌≡◌, if◌then◌else◌, Bool, arith, nat_beq, ◌⊎◌, refl, some, none, true, false,
  Option-cases, inl, inr, nat_beq_iff, Bool-cases, nat_eq, ◌-◌, ◌∙◌,
}
use massbit_verification.Dispatch.{
  AccountId, Balance, DispatchError, err, signed, ok, Origin, root, unsigned, staking,
  not_operated_provider, already_registered_provider, insufficient_value,
}
use massbit_verification.Staking.State.{
  ProviderId, Env, State, deposit_event, insert_provider, mutate_era_info, update_ledger,
  update_staker_info, insert_provider_era_stake, is_registered, new_provider, unregistered,
}
use massbit_verification.Staking.Calls
use massbit_verification.Staking.Calls.{pay_from_pallet}
use massbit_verification.Staking.Eras.{on_initialize, rewards}
use massbit_verification.Staking.Registry.{register, unregister}
use massbit_verification.Staking.Registry.Outcomes.{register_outcome, enrolled_state}
use massbit_verification.Staking.Pallet.{
  withdraw_from_unregistered_staker, withdraw_from_unregistered_operator, stake, unstake,
  withdraw_unstaked, claim_staker, claim_operator, force_new_era, Call, dispatch,
}

-- Unknown, registered (`true`) or unregistered (`false`).
abbrev pub standing_of : {B : Type 0} → ProviderId → State B → Option Bool
standing_of p s = elim (lookup p s.registered_providers) [
  | none ↦ none
  | some x ↦ some (is_registered x.state)
]

module _ {B I P : Type 0} (env : Env B I P) where
  pub dispatch-standing :
      (c : Call) (o : Origin) (s : State B) (q : ProviderId)
      → standing_of q (dispatch env c o s).1 ≡ standing_of q s
  unfolding dispatch Calls.stake Calls.unstake Calls.withdraw_unstaked
      Calls.withdraw_from_unregistered_staker Calls.withdraw_from_unregistered_operator
      Calls.claim_staker Calls.claim_operator Calls.force_new_era pay_from_pallet insert_provider
      mutate_era_info update_ledger update_staker_info insert_provider_era_stake deposit_event
  dispatch-standing (withdraw_from_unregistered_staker p) (signed a) s q = ground arith
  dispatch-standing (withdraw_from_unregistered_operator p) (signed a) s q =
      elim (Option-cases (lookup p s.registered_providers)) [
        | inl missing ↦ ground arith
        | inr (x, h) ↦ ground (
          arith,
          nat_beq_iff p q,
          lookup-insert p q (record x { unreserved = true }) s.registered_providers,
        )
      ]
  dispatch-standing (stake p v) (signed a) s q = ground arith
  dispatch-standing (unstake p v) (signed a) s q = ground arith
  dispatch-standing withdraw_unstaked (signed a) s q = ground arith
  dispatch-standing (claim_staker p) (signed a) s q = ground arith
  dispatch-standing (claim_operator p e) (signed a) s q = ground arith
  dispatch-standing force_new_era (signed a) s q = refl
  dispatch-standing (withdraw_from_unregistered_staker p) root s q = refl
  dispatch-standing (withdraw_from_unregistered_operator p) root s q = refl
  dispatch-standing (stake p v) root s q = refl
  dispatch-standing (unstake p v) root s q = refl
  dispatch-standing withdraw_unstaked root s q = refl
  dispatch-standing (claim_staker p) root s q = refl
  dispatch-standing (claim_operator p e) root s q = refl
  dispatch-standing force_new_era root s q = refl
  dispatch-standing (withdraw_from_unregistered_staker p) unsigned s q = refl
  dispatch-standing (withdraw_from_unregistered_operator p) unsigned s q = refl
  dispatch-standing (stake p v) unsigned s q = refl
  dispatch-standing (unstake p v) unsigned s q = refl
  dispatch-standing withdraw_unstaked unsigned s q = refl
  dispatch-standing (claim_staker p) unsigned s q = refl
  dispatch-standing (claim_operator p e) unsigned s q = refl
  dispatch-standing force_new_era unsigned s q = refl

  stake-standing :
      (a : AccountId) (p : ProviderId) (v : Balance) (s : State B) (q : ProviderId)
      → standing_of q (Calls.stake env (signed a) p v s).1 ≡ standing_of q s
  unfolding dispatch
  stake-standing a p v s q = dispatch-standing (stake p v) (signed a) s q

  -- The standing in the state in which `register` goes on to stake.
  pub enrolled-standing :
      (a : AccountId) (p : ProviderId) (s : State B) (q : ProviderId)
      → standing_of q (enrolled_state env a p s)
        ≡ (if nat_beq p q then some true else standing_of q s)
  unfolding insert_provider
  enrolled-standing a p s q =
      ground (arith, lookup-insert p q (new_provider a) s.registered_providers)

  -- A registration leaves all standings, or takes in the provider, which was unknown.
  pub register-standing :
      (a : AccountId) (p : ProviderId) (v : Balance) (s : State B)
      → (((e : DispatchError) × ((register env a p v s).0 ≡ err e))
          × ((q : ProviderId) → standing_of q (register env a p v s).1 ≡ standing_of q s))
        ⊎ ((standing_of p s ≡ none)
            × ((q : ProviderId)
                → standing_of q (register env a p v s).1
                  ≡ (if nat_beq p q then some true else standing_of q s)))
  register-standing a p v s = elim (register_outcome env a p v s) [
    | inl h ↦ inl ((staking already_registered_provider, rw h refl), λ q. rw h refl)
    | inr (inl h) ↦ inl ((staking insufficient_value, rw h refl), λ q. rw h refl)
    | inr (inr (inl (e, h))) ↦ inl ((e, rw h refl), λ q. rw h refl)
    | inr (inr (inr (fresh, h))) ↦ inr (
      ground (arith, fresh),
      λ q. rw h (
          stake-standing a p (v - env.config.register_deposit) (enrolled_state env a p s) q
          ∙ enrolled-standing a p s q),
    )
  ]

  pub unregister-standing :
      (p : ProviderId) (s : State B)
      → (((e : DispatchError) × ((unregister env p s).0 ≡ err e)) × ((unregister env p s).1 ≡ s))
        ⊎ (((unregister env p s).0 ≡ ok tt)
            × ((q : ProviderId)
                → standing_of q (unregister env p s).1
                  ≡ (if nat_beq p q then some false else standing_of q s)))
  unfolding unregister insert_provider
  unregister-standing p s = elim (Option-cases (lookup p s.registered_providers)) [
    | inl missing ↦ inl ((staking not_operated_provider, ground arith), ground arith)
    | inr (x, h) ↦ elim (Bool-cases (is_registered x.state)) [
      | inr gone ↦ inl ((staking not_operated_provider, ground arith), ground arith)
      | inl live ↦ inr (
        ground arith,
        λ q. ground (
          arith,
          nat_beq_iff p q,
          lookup-insert p q (record x { state = unregistered s.current_era })
              s.registered_providers,
        ),
      )
    ]
  ]

  pub on_initialize-standing :
      (now : ℕ) (s : State B) (q : ProviderId)
      → standing_of q (on_initialize env now s).1 ≡ standing_of q s
  unfolding on_initialize deposit_event
  on_initialize-standing now s q = ground arith

  pub rewards-standing :
      (i : I) (s : State B) (q : ProviderId) → standing_of q (rewards env i s) ≡ standing_of q s
  unfolding rewards
  rewards-standing i s q = refl

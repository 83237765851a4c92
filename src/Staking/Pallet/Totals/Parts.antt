-- ===== src/Staking/Pallet/Totals/Parts.antt =====
-- The operations that write nothing the totals are about, or at most end a provider.
use massbit_verification.Prelude.{
  ◌≡◌, refl, true, false, arith, nat_eq, inl, inr, ◌⊎◌, Option-cases, Bool-cases,
}
use massbit_verification.StorageMap.{lookup}
use massbit_verification.Dispatch.{
  AccountId, Origin, root, signed, Result-cases, DispatchError, err,
}
use massbit_verification.Staking.State.{
  ProviderId, Env, State, ProviderInfo, insert_provider, deposit_event, unregistered, is_registered,
}
use massbit_verification.Staking.Calls
use massbit_verification.Staking.Calls.{unregistered_era}
use massbit_verification.Staking.Eras.{rewards}
use massbit_verification.Staking.Registry.{unregister}
use massbit_verification.Staking.Pallet.Totals.{Totals}
use massbit_verification.Staking.Pallet.Totals.Others.{same-Totals, provider-Totals}

-- Nothing that the totals are about differs.
abbrev pub SameParts : {B : Type 0} → State B → State B → Type 0
SameParts s t =
    (t.current_era ≡ s.current_era)
    × (t.registered_providers ≡ s.registered_providers)
    × (t.provider_era_stake ≡ s.provider_era_stake)
    × (t.general_staker_info ≡ s.general_staker_info)

-- At most one provider was written, and that one not as active.
abbrev pub Retires : {B : Type 0} → ProviderId → State B → State B → Type 0
Retires p s t =
    SameParts s t
    ⊎ ((x : ProviderInfo) × (is_registered x.state ≡ false) × SameParts (insert_provider p x s) t)

pub parts-Totals : {B : Type 0} (s t : State B) → SameParts s t → Totals s → Totals t
parts-Totals s t h b = same-Totals s t h.0 h.1 h.2 h.3 b

pub Retires-Totals :
    {B : Type 0} (p : ProviderId) (s t : State B) → Retires p s t → Totals s → Totals t
Retires-Totals p s t (inl h) b = parts-Totals s t h b
Retires-Totals p s t (inr (x, gone, h)) b =
    parts-Totals (insert_provider p x s) t h (provider-Totals p x s (λ active. ground arith) b)

module _ {B I P : Type 0} (env : Env B I P) where
  -- A failed claim may have changed the currency only.
  pub claim_staker_parts :
      (a : AccountId) (p : ProviderId) (s : State B) (e : DispatchError)
      → (Calls.claim_staker env (signed a) p s).0 ≡ err e
      → SameParts s (Calls.claim_staker env (signed a) p s).1
  unfolding Calls.claim_staker Calls.pay_from_pallet
  claim_staker_parts a p s e h = ground arith

  pub withdraw_operator-Retires :
      (a : AccountId) (p : ProviderId) (s : State B)
      → Retires p s (Calls.withdraw_from_unregistered_operator env (signed a) p s).1
  unfolding Calls.withdraw_from_unregistered_operator deposit_event insert_provider
  withdraw_operator-Retires a p s = elim (Option-cases (lookup p s.registered_providers)) [
    | inl missing ↦ inl (ground arith)
    | inr (x, known) ↦ elim (Option-cases (unregistered_era x.state)) [
      | inl active ↦ inl (ground arith)
      | inr (e, gone) ↦
          elim (Result-cases (Calls.withdraw_from_unregistered_operator env (signed a) p s).0) [
            | inl (u, h) ↦ inr (record x { unreserved = true }, ground arith, ground arith)
            | inr (f, h) ↦ inl (ground arith)
          ]
    ]
  ]

  pub unregister-Retires : (p : ProviderId) (s : State B) → Retires p s (unregister env p s).1
  unfolding unregister insert_provider
  unregister-Retires p s = elim (Option-cases (lookup p s.registered_providers)) [
    | inl missing ↦ inl (ground arith)
    | inr (x, known) ↦ elim (Bool-cases (is_registered x.state)) [
      | inl active ↦ inr (record x { state = unregistered s.current_era }, refl, ground arith)
      | inr gone ↦ inl (ground arith)
    ]
  ]

  pub force_new_era_parts : (o : Origin) (s : State B) → SameParts s (Calls.force_new_era env o s).1
  unfolding Calls.force_new_era
  force_new_era_parts root s = (refl, refl, refl, refl)
  force_new_era_parts _ s = (refl, refl, refl, refl)

  pub rewards_parts : (i : I) (s : State B) → SameParts s (rewards env i s)
  unfolding rewards
  rewards_parts i s = (refl, refl, refl, refl)

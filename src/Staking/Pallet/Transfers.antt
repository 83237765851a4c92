-- ===== src/Staking/Pallet/Transfers.antt =====
-- Which calls only move funds, and set or remove no lock.
use massbit_verification.Prelude.{ℕ, ◌≡◌, ◌⊎◌, inl, inr, arith, nat_eq, pair_eq, Option-cases}
use massbit_verification.StorageMap.{lookup}
use massbit_verification.Dispatch.{AccountId, Balance, EraIndex, Origin, root, signed, Result-cases}
use massbit_verification.Currency.{Currency, ExistenceRequirement, allow_death}
use massbit_verification.Staking.StakerInfo
use massbit_verification.Staking.State.{
  ProviderId, Env, State, staker_info, provider_stake_info, operator_stakers_split, deposit_event,
  insert_provider, insert_provider_era_stake, update_staker_info,
}
use massbit_verification.Staking.Calls.{
  pay_from_pallet, claim_staker, claim_operator, withdraw_from_unregistered_operator, force_new_era,
}
use massbit_verification.Staking.Calls.Outcomes.{staker_reward}
use massbit_verification.Staking.Registry.{unregister}
use massbit_verification.Staking.Eras.{on_initialize, rewards}

-- The currency's operations that move funds, one after the other.
pub data Transfers {B I : Type 0} (c : Currency B I) : B → B → Type 0 where
  stays : {b : B} → Transfers c b b
  reserves : (a : AccountId) (n : Balance) {b : B} → Transfers c b (c.reserve a n b).1
  unreserves : (a : AccountId) (n : Balance) {b : B} → Transfers c b (c.unreserve a n b)
  withdraws :
      (a : AccountId) (n : Balance) (r : ExistenceRequirement) {b : B}
      → Transfers c b (c.withdraw a n r b).1
  resolves :
      (a : AccountId) (i : I) {b d : B} → Transfers c b d → Transfers c b (c.resolve_creating a i d)

module _ {B I P : Type 0} (env : Env B I P) where
  abbrev pub OnlyTransfers : State B → State B → Type 0
  OnlyTransfers s t = Transfers env.currency s.bank t.bank

  by_bank :
      (s t : State B) (b : B) → t.bank ≡ b → Transfers env.currency s.bank b → OnlyTransfers s t
  by_bank s t b h k = rw h k

  pay_from_pallet-OnlyTransfers :
      (a : AccountId) (n : Balance) (s : State B) → OnlyTransfers s (pay_from_pallet env a n s).1
  unfolding pay_from_pallet
  pay_from_pallet-OnlyTransfers a n s =
      elim (Result-cases (env.currency.withdraw env.config.pallet_account n allow_death s.bank).0) [
        | inl (i, h) ↦
            by_bank s (pay_from_pallet env a n s).1
              (env.currency.resolve_creating a i
                (env.currency.withdraw env.config.pallet_account n allow_death s.bank).1)
              (ground (arith, h)) (resolves a i (withdraws env.config.pallet_account n allow_death))
        | inr (e, h) ↦
            by_bank s (pay_from_pallet env a n s).1
              (env.currency.withdraw env.config.pallet_account n allow_death s.bank).1
              (ground (arith, h)) (withdraws env.config.pallet_account n allow_death)
      ]

  -- The bank is the same, or as after a payment.
  abbrev Pays : State B → State B → Type 0
  Pays s t =
      (t.bank ≡ s.bank)
      ⊎ ((a : AccountId) × (n : Balance) × (t.bank ≡ (pay_from_pallet env a n s).1.bank))

  paying : (s t : State B) → Pays s t → OnlyTransfers s t
  paying s t (inl h) = by_bank s t s.bank h stays
  paying s t (inr (a, n, h)) =
      by_bank s t (pay_from_pallet env a n s).1.bank h (pay_from_pallet-OnlyTransfers a n s)

  pub claim_operator-OnlyTransfers :
      (o : Origin) (p : ProviderId) (era : EraIndex) (s : State B)
      → OnlyTransfers s (claim_operator env o p era s).1
  unfolding claim_operator insert_provider_era_stake deposit_event
  claim_operator-OnlyTransfers (signed a) p era s =
      paying s (claim_operator env (signed a) p era s).1
        (elim (Option-cases (lookup p s.registered_providers)) [
          | inl missing ↦ inl (ground arith)
          | inr (x, hx) ↦ elim (Option-cases (lookup era s.general_era_info)) [
            | inl missing ↦ inl (ground arith)
            | inr (y, hy) ↦
                let n = (operator_stakers_split env (provider_stake_info p era s) y).0 in
                let same : ((claim_operator env (signed a) p era s).1.bank ≡ s.bank)
                    ⊎ ((claim_operator env (signed a) p era s).1.bank
                        ≡ (pay_from_pallet env x.operator n s).1.bank) =
                  ground arith in
                elim same [ inl h ↦ inl h | inr h ↦ inr (x.operator, n, h) ]
          ]
        ])
  claim_operator-OnlyTransfers _ p era s = stays

  pub claim_staker-OnlyTransfers :
      (o : Origin) (p : ProviderId) (s : State B) → OnlyTransfers s (claim_staker env o p s).1
  unfolding claim_staker update_staker_info deposit_event
  claim_staker-OnlyTransfers (signed a) p s = paying s (claim_staker env (signed a) p s).1 (
      let c = StakerInfo.claim (staker_info a p s) in
      elim (Option-cases (lookup p s.registered_providers)) [
        | inl missing ↦ inl (ground arith)
        | inr (x, hx) ↦ elim (Option-cases (lookup c.0.0 s.general_era_info)) [
          | inl missing ↦ inl (ground arith)
          | inr (y, hy) ↦
              let n = staker_reward env p c.0.0 c.0.1 y s in
              let same : ((claim_staker env (signed a) p s).1.bank ≡ s.bank)
                  ⊎ ((claim_staker env (signed a) p s).1.bank
                      ≡ (pay_from_pallet env a n s).1.bank) =
                ground arith in
              elim same [ inl h ↦ inl h | inr h ↦ inr (a, n, h) ]
        ]
      ])
  claim_staker-OnlyTransfers _ p s = stays

  pub withdraw_operator-OnlyTransfers :
      (o : Origin) (p : ProviderId) (s : State B)
      → OnlyTransfers s (withdraw_from_unregistered_operator env o p s).1
  unfolding withdraw_from_unregistered_operator insert_provider deposit_event
  withdraw_operator-OnlyTransfers (signed a) p s =
      let t = (withdraw_from_unregistered_operator env (signed a) p s).1 in
      let same : (t.bank ≡ s.bank)
          ⊎ (t.bank ≡ env.currency.unreserve a env.config.register_deposit s.bank) =
        ground arith in
      elim same [
        | inl h ↦ by_bank s t s.bank h stays
        | inr h ↦
            by_bank s t (env.currency.unreserve a env.config.register_deposit s.bank) h
              (unreserves a env.config.register_deposit)
      ]
  withdraw_operator-OnlyTransfers _ p s = stays

  pub force_new_era-OnlyTransfers :
      (o : Origin) (s : State B) → OnlyTransfers s (force_new_era env o s).1
  unfolding force_new_era
  force_new_era-OnlyTransfers root s = stays
  force_new_era-OnlyTransfers _ s = stays

  unregister-bank : (p : ProviderId) (s : State B) → (unregister env p s).1.bank ≡ s.bank
  unfolding unregister insert_provider
  unregister-bank p s = ground arith

  pub unregister-OnlyTransfers :
      (p : ProviderId) (s : State B) → OnlyTransfers s (unregister env p s).1
  unregister-OnlyTransfers p s = by_bank s (unregister env p s).1 s.bank (unregister-bank p s) stays

  pub rewards-OnlyTransfers : (i : I) (s : State B) → OnlyTransfers s (rewards env i s)
  unfolding rewards
  rewards-OnlyTransfers i s = resolves env.config.pallet_account i stays

  on_initialize-bank : (now : ℕ) (s : State B) → (on_initialize env now s).1.bank ≡ s.bank
  unfolding on_initialize deposit_event
  on_initialize-bank now s = ground arith

  pub on_initialize-OnlyTransfers :
      (now : ℕ) (s : State B) → OnlyTransfers s (on_initialize env now s).1
  on_initialize-OnlyTransfers now s =
      by_bank s (on_initialize env now s).1 s.bank (on_initialize-bank now s) stays

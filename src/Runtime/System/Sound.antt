-- ===== src/Runtime/System/Sound.antt =====
-- The books and the totals of the staking pallet, whatever happens in the runtime.
use massbit_verification.Prelude.{
  ◌≡◌, refl, arith, ◌<◌, suc, u32_size, Bool-cases, inl, inr, ◌==◌, nat_eq, ℕ, ◌∙◌, List, ◌≤◌, ◌+◌,
  length, ◌∷◌, [],
}
use massbit_verification.Dispatch.{Origin}
use massbit_verification.Staking.State.{State}
use massbit_verification.Staking.Eras.{rewards, on_initialize}
use massbit_verification.Staking.Pallet.{register_by, unregister_it, reward_with, begin_block}
use massbit_verification.Staking.Pallet as Staking
use massbit_verification.Staking.Pallet.Books.{Books, untouched-Books}
use massbit_verification.Staking.Pallet.Ledgers.{step-Books}
use massbit_verification.Staking.Pallet.Totals.{Totals}
use massbit_verification.Staking.Pallet.Totals.Parts.{parts-Totals}
use massbit_verification.Staking.Pallet.Totals.Runs.{step-Totals}
use massbit_verification.Staking.Pallet.Clock.{dispatch-era, register-era, unregister-era, step-era}
use massbit_verification.Dapi.Pallet.Closed.{Keeping, dispatch-Keeping}
use massbit_verification.BlockReward.{
  RewardDistributionConfig, set_configuration, on_timestamp_set, distribute_rewards,
}
use massbit_verification.Runtime.{
  Setup, UnbalancedLaws, staking_config, staking_env, dapi_env, reward_env, dapi_staking,
  beneficiary_payout,
}
use massbit_verification.Runtime.System.{
  System, RuntimeCall, timestamp_set, call, balances, initialize, dapi_call, dapi_staking_call,
  block_reward_call, dispatch, reward_part, run, step, Happening, initialize, call, balances,
}

-- The books and the totals are kept, and the era is `e`.
pub record Sound {B : Type 0} (e : ℕ) (s : State B) : Type 0 where
  pub books : Books s
  pub totals : Totals s
  pub era : s.current_era ≡ e

module _ {B I P : Type 0} (r : Setup B I P) where
  minimum : 0 < (staking_env r).config.minimum_staking_amount
  unfolding staking_env staking_config
  minimum = omega arith

  few : (staking_env r).config.max_number_of_stakers_per_provider < u32_size
  unfolding staking_env staking_config
  few = omega arith

  -- An entry of the staking pallet that leaves the era alone.
  entry-Sound :
      (op : Staking.Operation I) (e : ℕ) (s : State B)
      → suc e < u32_size
      → (Staking.step (staking_env r) op s).current_era ≡ s.current_era
      → Sound e s
      → Sound e (Staking.step (staking_env r) op s)
  entry-Sound op e s f same k = record {
    books = step-Books (staking_env r) minimum op s k.books;
    totals = step-Totals (staking_env r) minimum few op s (rw k.era f) k.books k.totals;
    era = same ∙ k.era;
  }

  bank-Sound : (b : B) (e : ℕ) (s : State B) → Sound e s → Sound e (record s { bank = b })
  bank-Sound b e s k = record {
    books = untouched-Books s (record s { bank = b }) refl refl k.books;
    totals = parts-Totals s (record s { bank = b }) (refl, refl, refl, refl) k.totals;
    era = k.era;
  }

  rewards-Sound :
      (i : I) (e : ℕ) (s : State B)
      → suc e < u32_size
      → Sound e s
      → Sound e (rewards (staking_env r) i s)
  unfolding Staking.step rewards
  rewards-Sound i e s f k = entry-Sound (reward_with i) e s f refl k

  module _ (laws : UnbalancedLaws r) where
    pays-Sound :
        (i : I) (e : ℕ) (s : State B)
        → suc e < u32_size
        → Sound e s
        → Sound e ((dapi_env r).on_project_payment i s)
    unfolding dapi_env
    pays-Sound i e s f k = elim (Bool-cases (r.balances.peek i == 0)) [
      | inl zero ↦
          rw (laws.on_unbalanced-peek (rewards (staking_env r)) i s, zero)
            (bank-Sound (r.balances.drop i s.bank) e s k)
      | inr paid ↦
          rw (laws.on_unbalanced-peek (rewards (staking_env r)) i s, paid) (rewards-Sound i e s f k)
    ]

    keeping : (e : ℕ) → suc e < u32_size → Keeping (dapi_env r) (Sound e)
    unfolding dapi_env dapi_staking Staking.step
    keeping e f = record {
      withdraws = λ a n k w h. bank-Sound _ e w h;
      pays = λ i w h. pays-Sound i e w f h;
      registers = λ a p n w h.
          entry-Sound (register_by a p n) e w f (register-era (staking_env r) a p n w) h;
      unregisters =
          λ p w h. entry-Sound (unregister_it p) e w f (unregister-era (staking_env r) p w) h;
    }

    -- What happens leaves the era, but for the hook at the start of a block.
    configured-world :
        (o : Origin) (c : RewardDistributionConfig P) (x : System B P)
        → (set_configuration (reward_env r) o c (reward_part x)).1.world ≡ x.dapi.world
    unfolding set_configuration
    configured-world o c x = ground arith

    dispatch-Sound :
        (c : RuntimeCall P) (o : Origin) (e : ℕ) (x : System B P)
        → suc e < u32_size
        → Sound e x.dapi.world
        → Sound e (dispatch r c o x).1.dapi.world
    unfolding dispatch Staking.step
    dispatch-Sound (dapi_call c) o e x f k =
        dispatch-Keeping (dapi_env r) (Sound e) (keeping e f) c o x.dapi k
    dispatch-Sound (dapi_staking_call c) o e x f k =
        entry-Sound (Staking.call o c) e x.dapi.world f
          (dispatch-era (staking_env r) c o x.dapi.world) k
    dispatch-Sound (block_reward_call c) o e x f k = rw (configured-world o c x) k

    rewarded-world :
        (x : System B P)
        → (i : I) × (b : B) × ((on_timestamp_set (reward_env r) (reward_part x)).world
            ≡ rewards (staking_env r) i (record x.dapi.world { bank = b }))
    unfolding on_timestamp_set distribute_rewards reward_env beneficiary_payout
    rewarded-world x = (_, _, refl)

    step-Sound :
        (h : Happening B P) (e : ℕ) (x : System B P)
        → suc e < u32_size
        → Sound e x.dapi.world
        → (e' : ℕ) × (e' ≤ suc e) × Sound e' (step r h x).dapi.world
    unfolding step Staking.step
    step-Sound (initialize now) e x f k =
        let era = k.era in
        let s = x.dapi.world in
        let g : suc s.current_era < u32_size = rw era f in
        (
          (on_initialize (staking_env r) now s).1.current_era,
          ground (arith, era, step-era (staking_env r) (begin_block now) s g),
          record {
            books = step-Books (staking_env r) minimum (begin_block now) s k.books;
            totals = step-Totals (staking_env r) minimum few (begin_block now) s g k.books k.totals;
            era = refl;
          },
        )
    step-Sound timestamp_set e x f k =
        let (i, b, same) = rewarded-world x in
        (
          e,
          omega arith,
          rw same (
              rewards-Sound i e (record x.dapi.world { bank = b }) f
                (bank-Sound b e x.dapi.world k)),
        )
    step-Sound (call o c) e x f k = (e, omega arith, dispatch-Sound c o e x f k)
    step-Sound (balances f) e x g k =
        (e, omega arith, bank-Sound (f x.dapi.world.bank) e x.dapi.world k)

    -- Whatever happens in the runtime (calls of the pallets from any origin, failed or not, the hooks
    -- of blocks, changes of the balances by the framework's pallets), in any order, the books and
    -- the totals of the staking pallet are kept: each ledger has locked exactly what its account
    -- has staked on all providers and what is on its way out, and the total and the number of
    -- stakers that an active provider has in the current era are what the entries of its stakers
    -- come to. Conditions: both are kept at the start, the eras fit into a `u32`, and
    -- `OnUnbalanced` drops zero imbalances and hands on all others.
    pub run-Sound :
        (hs : List (Happening B P)) (e : ℕ) (x : System B P)
        → e + length hs < u32_size
        → Sound e x.dapi.world
        → (e' : ℕ) × (e' ≤ e + length hs) × Sound e' (run r hs x).dapi.world
    unfolding run
    run-Sound [] e x f k = (e, omega arith, k)
    run-Sound (h ∷ hs) e x f k =
        let (e₁, less, k₁) = step-Sound h e x (omega arith) k in
        let (e₂, last, k₂) = run-Sound hs e₁ (step r h x) (omega arith) k₁ in (e₂, omega arith, k₂)

-- ===== src/Staking/Pallet/Totals.antt =====
-- What the storage keeps about each provider in total: the stake of an era and the number of
-- stakers, against the stakers' own entries.
pub mod Stakes
pub mod Others
pub mod Eras
pub mod Parts
pub mod Runs
use massbit_verification.Prelude.{
  ℕ, ◌+◌, ◌<◌, ◌≡◌, refl, true, none, some, arith, nat_eq, pair_eq, nat_beq, pair_beq, nat_beq_iff,
  if◌then◌else◌, Option,
}
use massbit_verification.StorageMap.{lookup, IsDistinct}
use massbit_verification.Dispatch.{AccountId, Balance, EraIndex}
use massbit_verification.Staking.StakerInfo.{StakerInfo, latest_staked_value, no_stakes}
use massbit_verification.Staking.State.{
  ProviderId, State, ProviderInfo, ProviderStakeInfo, no_stake_info, unwrap_or, staker_info,
  update_staker_info, provider_stake_info, is_active_provider,
}
use massbit_verification.Staking.State.Access.{latest_no_stakes, update_staker_info-IsDistinct}
use massbit_verification.Staking.State.Sums.{
  is_staker, sum_on, sum_on_cong, sum_on-update_staker_info,
}

module _ {B : Type 0} where
  -- What all stakers have staked on a provider.
  abbrev pub staked_on : ProviderId → State B → Balance
  staked_on = sum_on latest_staked_value

  -- How many have a stake on it.
  abbrev pub stakers_on : ProviderId → State B → ℕ
  stakers_on = sum_on is_staker

  -- The provider's stake in an era covers what its stakers have.
  abbrev pub Covers : ProviderStakeInfo → ProviderId → State B → Type 0
  Covers k p s = (k.total ≡ staked_on p s) × (k.number_of_stakers ≡ stakers_on p s)

pub is_staker_none : is_staker no_stakes ≡ 0
is_staker_none = rw latest_no_stakes refl

pub sums_cong :
    {B : Type 0} (p : ProviderId) (s t : State B)
    → t.general_staker_info ≡ s.general_staker_info
    → (staked_on p t ≡ staked_on p s) × (stakers_on p t ≡ stakers_on p s)
sums_cong p s t h = (sum_on_cong latest_staked_value p s t h, sum_on_cong is_staker p s t h)

-- In the current era the total and the number of stakers that are kept for an active provider are
-- those of the stakers' entries. Nothing is kept for later eras, or for a provider that
-- was never registered.
pub record Totals {B : Type 0} (s : State B) : Type 0 where
  pub entries : IsDistinct s.general_staker_info
  pub providers : IsDistinct s.registered_providers
  pub ahead :
      (p : ProviderId) (e : EraIndex)
      → s.current_era < e
      → lookup (p, e) s.provider_era_stake ≡ none
  pub unknown :
      (p : ProviderId)
      → lookup p s.registered_providers ≡ none
      → (lookup (p, s.current_era) s.provider_era_stake ≡ none)
        × (staked_on p s ≡ 0)
        × (stakers_on p s ≡ 0)
  pub covers :
      (p : ProviderId)
      → is_active_provider p s ≡ true
      → Covers (provider_stake_info p s.current_era s) p s

module _ {B : Type 0} where
  -- The entries of one staker are written, and the provider's stake of the current era.
  module _ (a : AccountId) (p : ProviderId) (x : ProviderInfo) (i : StakerInfo)
      (k : Option ProviderStakeInfo) (s t : State B)
      (known : lookup p s.registered_providers ≡ some x)
      (providers : t.registered_providers ≡ s.registered_providers)
      (era : t.current_era ≡ s.current_era)
      (infos : t.general_staker_info ≡ (update_staker_info a p i s).general_staker_info)
      (stakes : (q : ProviderId) (e : EraIndex)
        → lookup (q, e) t.provider_era_stake
          ≡ (if pair_beq (p, s.current_era) (q, e) then k else lookup (q, e) s.provider_era_stake))
      (moved : is_active_provider p s ≡ true
        → ((unwrap_or no_stake_info k).total + latest_staked_value (staker_info a p s)
            ≡ (provider_stake_info p s.current_era s).total + latest_staked_value i)
          × ((unwrap_or no_stake_info k).number_of_stakers + is_staker (staker_info a p s)
              ≡ (provider_stake_info p s.current_era s).number_of_stakers + is_staker i))
      (b : Totals s) where
    moved_staked :
        (q : ProviderId)
        → staked_on q t + (if nat_beq p q then latest_staked_value (staker_info a p s) else 0)
          ≡ staked_on q s + (if nat_beq p q then latest_staked_value i else 0)
    moved_staked q = ground (
      arith,
      sum_on_cong latest_staked_value q (update_staker_info a p i s) t infos,
      sum_on-update_staker_info latest_staked_value a p q i s latest_no_stakes b.entries,
    )

    moved_stakers :
        (q : ProviderId)
        → stakers_on q t + (if nat_beq p q then is_staker (staker_info a p s) else 0)
          ≡ stakers_on q s + (if nat_beq p q then is_staker i else 0)
    moved_stakers q = ground (
      arith,
      sum_on_cong is_staker q (update_staker_info a p i s) t infos,
      sum_on-update_staker_info is_staker a p q i s is_staker_none b.entries,
    )

    written-Covers :
        (q : ProviderId)
        → is_active_provider q t ≡ true
        → Covers (provider_stake_info q t.current_era t) q t
    unfolding is_active_provider provider_stake_info
    written-Covers q h = ground (
      arith,
      providers,
      era,
      stakes q s.current_era,
      moved,
      b.covers q,
      moved_staked q,
      moved_stakers q,
      nat_beq_iff p q,
    )

    written-unknown :
        (q : ProviderId)
        → lookup q t.registered_providers ≡ none
        → (lookup (q, t.current_era) t.provider_era_stake ≡ none)
          × (staked_on q t ≡ 0)
          × (stakers_on q t ≡ 0)
    written-unknown q h = ground (
      arith,
      providers,
      era,
      known,
      stakes q s.current_era,
      b.unknown q,
      moved_staked q,
      moved_stakers q,
      nat_beq_iff p q,
    )

    written-ahead :
        (q : ProviderId) (e : EraIndex)
        → t.current_era < e
        → lookup (q, e) t.provider_era_stake ≡ none
    written-ahead q e h = ground (arith, era, stakes q e, b.ahead q e)

    pub written-Totals : Totals t
    written-Totals = record {
      entries = rw infos (update_staker_info-IsDistinct a p i s b.entries);
      providers = rw providers b.providers;
      ahead = written-ahead;
      unknown = written-unknown;
      covers = written-Covers;
    }

-- ===== src/ValidatorSet/State.antt =====
-- The configuration, the storage, the events and the genesis of pallets/validator-set/src/lib.rs.
use massbit_verification.Prelude.{
  ℕ, ◌%◌, Bool, ◌&&◌, Option, none, some, List, [], ◌∷◌, ◌++◌, leb, ◌==◌, nat_eq, length, u32_size,
  if◌then◌else◌,
}
use massbit_verification.StorageMap.{StorageMap}
use massbit_verification.Members.{add}
use massbit_verification.Dispatch.{AccountId, Balance, Origin, Result}
use massbit_verification.Currency.{Currency}

pub record CandidateInfo : Type 0 where
  pub who : AccountId
  pub deposit : Balance

-- `Config`. `V` is the type of validator ids; `pot_account` is the account of `PotId`.
pub record Env (B I V : Type 0) : Type 0 where
  pub currency : Currency B I
  pub ensure_update_origin : Origin → Result (Unit {0})
  pub pot_account : AccountId
  pub max_candidates : ℕ
  pub min_candidates : ℕ
  pub max_invulnerables : ℕ
  pub kick_threshold : ℕ
  pub validator_id_of : AccountId → Option V
  pub is_registered : V → Bool

pub data Event : Type 0 where
  new_invulnerables : List AccountId → Event
  new_desired_candidates : ℕ → Event
  new_candidacy_bond : Balance → Event
  candidate_added : AccountId → Balance → Event
  candidate_removed : AccountId → Event

-- The storage, with the state of the currency and the number of the block.
pub record State (B : Type 0) : Type 0 where
  pub bank : B
  pub block_number : ℕ
  pub invulnerables : List AccountId
  pub candidates : List CandidateInfo
  pub last_authored_block : StorageMap AccountId ℕ
  pub desired_candidates : ℕ
  pub candidacy_bond : Balance
  pub events : List Event

module _ {B : Type 0} where
  unfoldable pub deposit_event : Event → State B → State B
  deposit_event e s = record s { events = s.events ++ e ∷ [] }

-- `v.len() as u32`
abbrev pub len_u32 : {A : Type 0} → List A → ℕ
len_u32 l = length l % u32_size

pub record GenesisConfig : Type 0 where
  pub invulnerables : List AccountId
  pub candidacy_bond : Balance
  pub desired_candidates : ℕ

-- `iter().collect::<BTreeSet<_>>()`
unfoldable pub collect : List AccountId → List AccountId
collect [] = []
collect (a ∷ as') = add a (collect as')

-- The assertions of `GenesisConfig::build`.
unfoldable pub is_buildable : {B I V : Type 0} → Env B I V → GenesisConfig → Bool
unfolding collect
is_buildable env g =
    length (collect g.invulnerables) == length g.invulnerables
    && leb (len_u32 g.invulnerables) env.max_invulnerables
    && leb g.desired_candidates env.max_candidates

-- `GenesisConfig::build`; `none` is a failed assertion.
unfoldable pub build : {B I V : Type 0} → Env B I V → GenesisConfig → State B → Option (State B)
unfolding is_buildable
build env g s =
    if is_buildable env g
    then some (record s {
      desired_candidates = g.desired_candidates;
      candidacy_bond = g.candidacy_bond;
      invulnerables = g.invulnerables;
    })
    else none

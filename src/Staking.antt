-- ===== src/Staking.antt =====
-- pallets/dapi-staking: accounts stake on providers, claim rewards era by era, and withdraw.
pub mod StakerInfo
pub mod Unbonding
pub mod State
pub mod Calls
pub mod Eras
pub mod Registry
pub mod Pallet

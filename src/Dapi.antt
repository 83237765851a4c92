-- ===== src/Dapi.antt =====
-- pallets/dapi: projects buy quota, providers register under an operator and stake a deposit.
pub mod State
pub mod Projects
pub mod Providers
pub mod Roles
pub mod Pallet

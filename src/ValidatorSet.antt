-- ===== src/ValidatorSet.antt =====
-- pallets/validator-set: accounts become candidates for validation, and stale ones are removed.
pub mod State
pub mod Candidacy
pub mod Session
pub mod Pallet

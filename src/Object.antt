-- ===== src/Object.antt =====
-- The package object: the members of sets, and the sets and claimants that the resolution reads.
pub mod Members
pub mod Sets

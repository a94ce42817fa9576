-- ===== src/Runtime.antt =====
-- The runtime server.
pub mod EventHub
pub mod OwnerProof
pub mod SubprocessBudget

-- ===== src/ProofHub.antt =====
-- The ProofHub chain (proofhub/pallets/proofs/src/lib.rs): private notes of two generations, their
-- spends, and the messages to the RWA chain and to AuthGate.
pub mod Types
pub mod Storage
pub mod Notes
pub mod Tree
pub mod Legacy
pub mod Relist
pub mod Spend
pub mod Access
pub mod Effects
pub mod Calls
pub mod Ledger
pub mod Validate
pub mod Tests

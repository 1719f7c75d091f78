-- ===== src/ScanProof.antt =====
-- The ScanProof chain (scanproof/pallets/proofs/src/lib.rs): private notes under Pedersen
-- commitments, coins in anonymity groups, and the messages to the RWA chain and to AuthGate.
pub mod Types
pub mod Storage
pub mod Notes
pub mod Pedersen
pub mod Submit
pub mod Coins
pub mod Calls
pub mod Verifier
pub mod Runtime
pub mod Effects
pub mod Ledger
pub mod Validate
mod Tests

-- ===== src/Verifier.antt =====
-- The primitives of the v2 notes that the proof verifier and the chain share
-- (proofhub/verifier/src/lib.rs): the hash functions and the incremental Merkle tree.
pub mod Poseidon
pub mod Tree
mod Tests

-- ===== src/Lib.antt =====
-- Verification library of the Nulla relay: the pallets that carry private payments, and the hash
-- tree that they share with the wallet.
--
-- The program is a set of Substrate chains. On ProofHub (proofhub) a user deposits money into a pool
-- and holds it as notes, spends notes anonymously with a zero-knowledge proof and a nullifier, and
-- buys real-world assets or access keys. ProofHub tells the RWA chain (rwa-parachain) and AuthGate
-- (authgate-parachain) of a purchase by XCM messages; there the buyer redeems what was bought by
-- revealing the blinding of a commitment. ScanProof (scanproof) is a second chain of that kind, whose
-- notes are Pedersen commitments and whose coins are spent from anonymity groups of 1024.
--
-- Files and what they model:
--   Prelude           numbers, lists, options, bytes and case splits that all modules share
--   Frame             what the pallets use of FRAME: origins, storage maps, dispatchable calls with
--                     errors, and the storage layer that drops the writes of a failed call
--   AuthGate          authgate-parachain/pallets/access-keys/src/lib.rs
--   Registry          rwa-parachain/pallets/rwa-registry/src/lib.rs
--   Marketplace       rwa-parachain/pallets/rwa-marketplace/src/lib.rs, over the registry's storage
--   ProofHub          proofhub/pallets/proofs/src/lib.rs. Types and Storage hold the data, Notes the
--                     v1 tree, Tree the v2 tree, Legacy, Relist, Spend and Access the calls, Calls
--                     the whole chain. Effects says what each call does when it goes through, Ledger
--                     what follows for the money, the nullifiers and the trees, and
--                     Validate is the check of the transaction pool.
--   ScanProof         scanproof/pallets/proofs/src/lib.rs, in the same way: Notes has the note tree,
--                     Pedersen, Submit and Coins the calls, Effects what each does when it goes
--                     through, Ledger the three ledgers of notes, coins and spends, Validate the
--                     check of the transaction pool. Pedersen/Wire is the wire format of a deposit.
--   ScanProof/Verifier  scanproof/verifier/src/lib.rs: commitments and the balance proof, Rng the
--                     generator of nonces, Openings the proofs for deposited and for changed coins,
--                     OneOfMany the proofs for a coin of a group, Groups the padding of groups.
--                     Complete, Padded and OneOfMany/Coin are about the wallet and the chain
--                     together; Bits, Doubling, Polynomials, Selection, Masks, Bytes, Accepted and
--                     Spend are the steps to Coin. The pallet takes the verifier as a parameter
--   ScanProof/Runtime  scanproof/runtime/src/configs/mod.rs: the verifier that the pallet runs with;
--                     CoinPurchase follows a purchase from the wallet to the pallet. The bytes of its
--                     messages, which Messages reads on the other chains
--   Verifier          proofhub/verifier/src/lib.rs: Poseidon has the hashes, Tree the incremental
--                     Merkle tree and the function of proofhub/runtime/src/configs/mod.rs by which
--                     the pallet calls it
--   Bridge            proofhub/runtime/src/configs/mod.rs: the bytes of the messages to the other
--                     chains, and the calls that these read from them
--
-- How the code is read: a pallet's storage is a record with one field for each storage item, a map
-- is a function from keys, and each `#[pallet::call]` is the function of the same name from the
-- storage to a result and a storage. Its `ensure!`s, `ok_or`s and writes stand in the order of the
-- source. `dispatch` runs a call as the runtime does; `perform` gives each call as a request, and
-- `run` runs a list of requests, each with its origin, one after the other.
-- Events and messages are kept in lists, the newest first. An array of bytes is the number that its
-- little-endian bytes stand for; bounded vectors are lists. Unsigned integers are natural
-- numbers, with the wrap-around or the saturation of the source written out; `usize` has 32 bits, as in
-- the runtimes' WebAssembly. An index or a slice out of range is a panic, an error of its own.
--
-- Loops: those over slices are recursion on lists, the 20 levels of the v2 tree are recursion on the
-- list of its nodes, and the two `while` loops of `compute_merkle_root` take the number of leaves as
-- fuel, of which the padding uses one for each zero that it adds, and the folding one for each
-- level. The fuel of `fill_bytes` is the number of bytes, of which each round gives one at least; that
-- of `next_power_of_two` and `trailing_zeros` is the number itself.
--
-- Parameters: the verification of proofs and signatures (`ProofVerify`) as the pallet sees it, SCALE
-- decoding, BLAKE2 and BLAKE3, the currency's transfer, the admin origins, the sovereign accounts,
-- the field of `winter_verifier`, and the curve, transcripts and hashes that the verifier of
-- ScanProof calls.
--
-- Not modelled: the STARK circuits, the range proofs of bulletproofs, the delivery of XCM messages,
-- the former ScanProof pallet (scanproof/pallets/proof), which no crate builds, the runtimes'
-- configuration and weights, the node's command line and the JavaScript tools.
pub mod Prelude
pub mod Frame
pub mod AuthGate
pub mod Registry
pub mod Marketplace
pub mod ProofHub
pub mod ScanProof
pub mod Verifier
pub mod Bridge

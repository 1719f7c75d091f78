-- ===== src/ScanProof/Tests/Pool.antt =====
-- The theorems on the pool's checks, the roots and the wire format of the ScanProof pallet
-- (scanproof/pallets/proofs/src/lib.rs) at inputs that meet their hypotheses.
use nulla_relay.Prelude.{
  ℕ, ◌-◌, ◌^◌, true, some, List, [], ◌∷◌, ◌≡◌, refl, arith, replicate, to_le_bytes, from_le_bytes,
}
use nulla_relay.Frame.{Origin, is_ok, err, panicked}
use nulla_relay.ProofHub
use nulla_relay.ProofHub.Tests
use nulla_relay.ScanProof.Types.{Config}
use nulla_relay.ScanProof.Storage.{build}
use nulla_relay.ScanProof.Notes.{append_note, advance_root}
use nulla_relay.ScanProof.Pedersen.{
  wire_end, read_wire, deposit_public, effective, insert_change, purchase_rwa, set_rwa_price,
}
use nulla_relay.ScanProof.Pedersen.Wire.{length_field_panics}
use nulla_relay.ScanProof.Coins.{register_coin, deposit_coin, register_change, purchase_coin}
use nulla_relay.ScanProof.Calls.{Request, perform, run}
use nulla_relay.ScanProof.Validate.{validate_unsigned}
use nulla_relay.ScanProof.Validate.Accepted.{is_accepted, can_insert, accepted_purchase_succeeds}
use nulla_relay.ScanProof.Tests.{config, played}

accepted :
    is_accepted
      (validate_unsigned config (Request.purchase 40 (replicate 64 0) 90 3 9 1 (some 15)) played)
    ≡ true
unfolding run perform build set_rwa_price deposit_public wire_end read_wire append_note advance_root
    deposit_coin register_coin purchase_rwa effective insert_change purchase_coin register_change
    to_le_bytes from_le_bytes validate_unsigned
accepted = refl

insertable : can_insert (some 15) played ≡ true
unfolding run perform build set_rwa_price deposit_public wire_end read_wire append_note advance_root
    deposit_coin register_coin purchase_rwa effective insert_change purchase_coin register_change
    to_le_bytes from_le_bytes
insertable = refl

accepted_purchase_succeeds_example :
    is_ok (purchase_rwa config Origin.unsigned 40 (replicate 64 0) 90 3 9 1 (some 15) played).0
    ≡ true
accepted_purchase_succeeds_example =
    accepted_purchase_succeeds config played 40 (replicate 64 0) 90 3 9 1 (some 15) accepted
      insertable

abbrev pub like_proof_hub : (d : ProofHub.Types.Config) → Config
like_proof_hub d = record config { blake2_256 = d.blake2_256 }

abbrev hub : ProofHub.Types.Config
hub = ProofHub.Tests.config

abbrev overlong : List ℕ
overlong = 1 ∷ 255 ∷ 255 ∷ 255 ∷ 255 ∷ replicate 8 0

field : from_le_bytes (255 ∷ 255 ∷ 255 ∷ 255 ∷ []) ≡ 2 ^ 32 - 1
unfolding from_le_bytes
field = refl

length_field_panics_example : read_wire overlong played ≡ (err panicked, played)
length_field_panics_example =
    length_field_panics overlong played (2 ^ 32 - 1) (omega arith) (omega arith) refl field
      (omega arith) (omega arith)

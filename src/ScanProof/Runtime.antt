-- ===== src/ScanProof/Runtime.antt =====
-- The ScanProof runtime (scanproof/runtime/src/configs/mod.rs) as far as it connects the pallet to
-- the verifier, and the bytes of its messages to the other chains.
pub mod CoinPurchase
pub mod Messages
pub mod Tests
use nulla_relay.Prelude.{ℕ, ◌%◌, ◌^◌, Bool, Option, List, ◌∷◌, ◌++◌}
use nulla_relay.Bridge.{Codec}
use nulla_relay.ScanProof.Types.{ProofVerify, ProofPublicInputs, Message}
use nulla_relay.ScanProof.Verifier.Ristretto.{Curve}
use nulla_relay.ScanProof.Verifier.{verify_bytes, verify_opening_knowledge, pedersen_subtract}
use nulla_relay.ScanProof.Verifier.Openings.{verify_deposit_open, verify_g1_pok}
use nulla_relay.ScanProof.Verifier.OneOfMany.Verify.{verify}
use nulla_relay.ScanProof.Verifier.Groups.{pad_group}

-- `RuntimeProofVerifier`, over SCALE decoding and the range proofs of bulletproofs.
abbrev pub runtime_verifier :
    (v : Curve) (decode : List ℕ → Option ProofPublicInputs)
    (verify_range_proof : (range_proof commitments public_inputs : List ℕ) (nbits : ℕ) → Bool)
    → ProofVerify
runtime_verifier v decode verify_range_proof = record {
  verify = verify_bytes v decode;
  verify_opening_knowledge = verify_opening_knowledge v;
  verify_range_proof = verify_range_proof;
  pedersen_subtract = pedersen_subtract v;
  verify_one_of_many = verify v;
  verify_deposit_open = verify_deposit_open v;
  verify_g1_pok = verify_g1_pok v;
  pad_group = pad_group v;
}

module _ (codec : Codec) where
  -- `RwaXcmDispatch::send`; the first four bytes of `rwa_id` are the asset id.
  unfoldable pub rwa_send :
      (rwa_id nullifier spend_tag note_value tx_id ownership_commitment : ℕ) → List ℕ
  rwa_send rwa_id nullifier spend_tag note_value tx_id ownership_commitment =
      51 ∷ 4 ∷ codec.encode 4 (rwa_id % 2 ^ 32)
      ++ (codec.encode 32 spend_tag
          ++ (codec.encode 32 nullifier
              ++ (codec.encode 16 tx_id ++ codec.encode 32 ownership_commitment)))

  -- `AccessGateXcmDispatch::send`
  unfoldable pub access_send : (app_id nullifier tx_id access_key_commitment : ℕ) → List ℕ
  access_send app_id nullifier tx_id access_key_commitment =
      50 ∷ 2 ∷ codec.encode 32 app_id
      ++ (codec.encode 32 nullifier
          ++ (codec.encode 16 tx_id ++ codec.encode 32 access_key_commitment))

  -- What the runtime sends for a message of the pallet.
  abbrev pub send_message : Message → List ℕ
  send_message (Message.rwa_purchase rwa_id nullifier spend_tag note_value tx_id k) =
      rwa_send rwa_id nullifier spend_tag note_value tx_id k
  send_message (Message.access_grant app_id nullifier tx_id k) =
      access_send app_id nullifier tx_id k

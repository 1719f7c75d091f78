-- ===== src/ProofHub/Access.antt =====
-- The purchases of access keys on the ProofHub pallet (proofhub/pallets/proofs/src/lib.rs). The
-- `rwa_id` of the public inputs holds the id of the app.
use nulla_relay.Prelude.{ℕ, true, false, not, List, ltb, leb, is_some, length, take}
use nulla_relay.Frame.{Origin, update, gets, ok_or, modify, ensure, ensure_none, ◌>>=◌, ◌>>◌}
use nulla_relay.ProofHub.Types.{
  Config, Event, Message, proof_verification_failed, nullifier_already_used, ml_dsa_failed,
  spend_tag_not_found, spend_tag_already_used, root_not_recent, access_app_not_configured,
}
use nulla_relay.ProofHub.Storage.{Call, deposit_event, send, transfer}
use nulla_relay.ProofHub.Notes.{compute_pk_digest}
use nulla_relay.ProofHub.Tree.{v2_root_anchored, v2_insert}
use nulla_relay.ProofHub.Legacy.{resolve_change_rp, insert_change}

module _ (c : Config) where
  unfoldable pub purchase_access : Origin → (proof public_inputs : List ℕ) → Call
  purchase_access origin proof public_inputs = do
    ensure_none origin
    inputs ← ok_or (c.decode_purchase public_inputs) proof_verification_failed
    used ← gets (λ s. s.nullifier_used inputs.nullifier)
    ensure (not used) nullifier_already_used
    known ← gets (λ s. is_some (s.spend_tag_commitments inputs.spend_tag))
    ensure known spend_tag_not_found
    spent ← gets (λ s. s.spend_tag_used inputs.spend_tag)
    ensure (not spent) spend_tag_already_used
    cfg ← ok_or (← gets (λ s. s.access_key_configs inputs.rwa_id)) access_app_not_configured
    ensure (ltb 0 cfg.price) access_app_not_configured
    change_rp ← resolve_change_rp inputs.change_spend_tag
    stored_rp ←
        ok_or (← gets (λ s. s.spend_tag_rp_commitments inputs.spend_tag)) spend_tag_not_found
    ensure (c.verify_purchase_proof inputs.purchase_proof stored_rp change_rp cfg.price)
        proof_verification_failed
    ensure (c.verify_purchase proof public_inputs) ml_dsa_failed
    modify (λ s. record s { nullifier_used = update inputs.nullifier true s.nullifier_used })
    modify (λ s. record s { spend_tag_used = update inputs.spend_tag true s.spend_tag_used })
    insert_change c inputs.change_commitment inputs.change_spend_tag change_rp
    payment_dest ← ok_or (c.decode_account cfg.payment_account) proof_verification_failed
    transfer c c.pool_account payment_dest cfg.price false
    deposit_event (Event.access_purchase_authorized inputs.rwa_id inputs.tx_id)
    send (
        Message.access_grant inputs.rwa_id inputs.nullifier inputs.tx_id
          inputs.ownership_commitment)

  unfoldable pub purchase_access_v2 : Origin → (auth public_inputs spend_proof : List ℕ) → Call
  purchase_access_v2 origin auth public_inputs spend_proof = do
    ensure_none origin
    inputs ← ok_or (c.decode_spend_v2 public_inputs) proof_verification_failed
    used ← gets (λ s. s.nullifier_used inputs.nullifier)
    ensure (not used) nullifier_already_used
    anchored ← gets (v2_root_anchored inputs.merkle_root)
    ensure anchored root_not_recent
    cfg ← ok_or (← gets (λ s. s.access_key_configs inputs.rwa_id)) access_app_not_configured
    ensure (ltb 0 cfg.price) access_app_not_configured
    ensure (c.verify_spend_auth_v2 auth public_inputs false) ml_dsa_failed
    ensure (leb 1312 (length auth)) ml_dsa_failed
    let pkd = compute_pk_digest c (take 1312 auth)
    ensure
        (c.verify_spend_v2 spend_proof inputs.merkle_root inputs.nullifier pkd cfg.price
          inputs.change_leaf inputs.change_pkd true)
        proof_verification_failed
    modify (λ s. record s { nullifier_used = update inputs.nullifier true s.nullifier_used })
    inserted ← v2_insert c inputs.change_leaf
    payment_dest ← ok_or (c.decode_account cfg.payment_account) proof_verification_failed
    transfer c c.pool_account payment_dest cfg.price false
    deposit_event (Event.access_purchase_v2_authorized inputs.rwa_id inputs.tx_id)
    send (
        Message.access_grant inputs.rwa_id inputs.nullifier inputs.tx_id
          inputs.ownership_commitment)

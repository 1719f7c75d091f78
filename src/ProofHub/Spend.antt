-- ===== src/ProofHub/Spend.antt =====
-- The v2 calls of the ProofHub pallet (proofhub/pallets/proofs/src/lib.rs): deposits, purchases
-- and withdrawals with a proof of membership; and the prices that root sets.
use nulla_relay.Prelude.{ℕ, true, false, not, List, ltb, leb, length, take, some}
use nulla_relay.Frame.{
  Origin, update, gets, ok_or, modify, ensure, ensure_signed, ensure_root, ensure_none, ◌>>=◌, ◌>>◌,
}
use nulla_relay.ProofHub.Types.{
  Config, AppConfig, Event, Message, proof_verification_failed, nullifier_already_used,
  ml_dsa_failed, rwa_price_not_set, root_not_recent,
}
use nulla_relay.ProofHub.Storage.{Call, deposit_event, send, transfer}
use nulla_relay.ProofHub.Notes.{compute_pk_digest}
use nulla_relay.ProofHub.Tree.{v2_root_anchored, v2_insert}

unfoldable pub set_rwa_price : Origin → (rwa_id price : ℕ) → Call
set_rwa_price origin rwa_id price = do
  ensure_root origin
  modify (λ s. record s { rwa_prices = update rwa_id price s.rwa_prices })
  deposit_event (Event.rwa_price_set rwa_id price)

unfoldable pub set_access_config : Origin → (app_id price payment_account : ℕ) → Call
set_access_config origin app_id price payment_account = do
  ensure_root origin
  let cfg : AppConfig = record { price = price; payment_account = payment_account }
  modify (λ s. record s { access_key_configs = update app_id (some cfg) s.access_key_configs })
  deposit_event (Event.access_config_set app_id price)

module _ (c : Config) where
  unfoldable pub deposit_v2 : Origin → (leaf amount : ℕ) (deposit_proof hints_blob : List ℕ) → Call
  deposit_v2 origin leaf amount deposit_proof hints_blob = do
    who ← ensure_signed origin
    ensure (c.verify_deposit_v2 deposit_proof amount leaf) proof_verification_failed
    transfer c who c.pool_account amount true
    inserted ← v2_insert c leaf
    deposit_event (Event.deposit_v2_accepted leaf inserted.0 inserted.1 hints_blob)

  unfoldable pub purchase_rwa_v2 : Origin → (auth public_inputs spend_proof : List ℕ) → Call
  purchase_rwa_v2 origin auth public_inputs spend_proof = do
    ensure_none origin
    inputs ← ok_or (c.decode_spend_v2 public_inputs) proof_verification_failed
    used ← gets (λ s. s.nullifier_used inputs.nullifier)
    ensure (not used) nullifier_already_used
    anchored ← gets (v2_root_anchored inputs.merkle_root)
    ensure anchored root_not_recent
    price ← gets (λ s. s.rwa_prices inputs.rwa_id)
    ensure (ltb 0 price) rwa_price_not_set
    ensure (c.verify_spend_auth_v2 auth public_inputs false) ml_dsa_failed
    ensure (leb 1312 (length auth)) ml_dsa_failed
    let pkd = compute_pk_digest c (take 1312 auth)
    ensure
        (c.verify_spend_v2 spend_proof inputs.merkle_root inputs.nullifier pkd price
          inputs.change_leaf inputs.change_pkd true)
        proof_verification_failed
    modify (λ s. record s { nullifier_used = update inputs.nullifier true s.nullifier_used })
    inserted ← v2_insert c inputs.change_leaf
    modify (λ s. record s {
      ownership_commitments =
          update inputs.tx_id (some inputs.ownership_commitment) s.ownership_commitments;
    })
    deposit_event (
        Event.purchase_v2_authorized inputs.rwa_id inputs.tx_id inputs.change_leaf inserted.0
          inserted.1)
    send (
        Message.rwa_purchase inputs.rwa_id inputs.nullifier inputs.nullifier price inputs.tx_id
          inputs.ownership_commitment)

  unfoldable pub withdraw_v2 : Origin → (auth public_inputs spend_proof : List ℕ) → Call
  withdraw_v2 origin auth public_inputs spend_proof = do
    ensure_none origin
    inputs ← ok_or (c.decode_withdraw_v2 public_inputs) proof_verification_failed
    used ← gets (λ s. s.nullifier_used inputs.nullifier)
    ensure (not used) nullifier_already_used
    anchored ← gets (v2_root_anchored inputs.merkle_root)
    ensure anchored root_not_recent
    ensure (c.verify_spend_auth_v2 auth public_inputs true) ml_dsa_failed
    ensure (leb 1312 (length auth)) ml_dsa_failed
    let pkd = compute_pk_digest c (take 1312 auth)
    ensure
        (c.verify_spend_v2 spend_proof inputs.merkle_root inputs.nullifier pkd inputs.amount
          c.v2_zero_change_leaf 0 false)
        proof_verification_failed
    modify (λ s. record s { nullifier_used = update inputs.nullifier true s.nullifier_used })
    dest ← ok_or (c.decode_account inputs.destination) proof_verification_failed
    transfer c c.pool_account dest inputs.amount false
    deposit_event (Event.withdraw_v2_completed inputs.tx_id)

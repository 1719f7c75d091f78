-- ===== src/ProofHub/Legacy.antt =====
-- The v1 calls of the ProofHub pallet (proofhub/pallets/proofs/src/lib.rs): purchases and
-- withdrawals by spend tag. Deposits are disabled.
use nulla_relay.Prelude.{
  ℕ, true, false, not, Option, none, some, List, ◌==◌, ltb, is_some, length, from_le_bytes,
}
use nulla_relay.Frame.{
  Origin, fail, pallet, update, gets, ok_or, pure, modify, ensure, ensure_signed, ensure_none,
  ◌>>=◌, ◌>>◌,
}
use nulla_relay.ProofHub.Types.{
  Config, Event, Message, proof_verification_failed, nullifier_already_used, ml_dsa_failed,
  spend_tag_not_found, spend_tag_already_used, rwa_price_not_set, legacy_disabled,
}
use nulla_relay.ProofHub.Storage.{Action, Call, deposit_event, send, transfer}
use nulla_relay.ProofHub.Notes.{do_insert_note, commit_merkle}

unfoldable pub deposit_public :
    Origin
    → (commitment : ℕ) (range_proof : List ℕ) (rp_commitment spend_tag : ℕ) (hints_blob : List ℕ)
    → Call
deposit_public origin commitment range_proof rp_commitment spend_tag hints_blob = do
  ensure_signed origin
  fail (pallet legacy_disabled)

-- The registered `rp_commitment` of the change note, or zeros where there is no change note.
abbrev pub resolve_change_rp : Option ℕ → Action ℕ
resolve_change_rp none = pure 0
resolve_change_rp (some t_change) = do
  ok_or (← gets (λ s. s.spend_tag_rp_commitments t_change)) spend_tag_not_found

-- The root after `do_insert_note`: the new one is committed, or the current one stays.
abbrev pub root_or_current : Option ℕ × List ℕ → Action ℕ
root_or_current (some root, leaves_vec) = do commit_merkle leaves_vec root; pure root
root_or_current (none, leaves_vec) = gets (λ s. s.current_root)

module _ (c : Config) where
  -- The change note of a purchase, if both of its fields are present.
  unfoldable pub insert_change : Option ℕ → Option ℕ → (change_rp : ℕ) → Call
  insert_change (some c_change) (some t_change) change_rp = do
    modify (λ s. record s {
      spend_tag_change_rp_commitments =
          update t_change (some change_rp) s.spend_tag_change_rp_commitments;
    })
    leaves_vec ← gets (λ s. s.leaves)
    inserted ← do_insert_note c c_change t_change leaves_vec
    new_root ← root_or_current inserted
    deposit_event (Event.change_note_created c_change t_change new_root)
  insert_change (some c_change) none change_rp = pure tt
  insert_change none t_change change_rp = pure tt

  unfoldable pub purchase_rwa : Origin → (proof public_inputs : List ℕ) → Call
  purchase_rwa origin proof public_inputs = do
    ensure_none origin
    inputs ← ok_or (c.decode_purchase public_inputs) proof_verification_failed
    used ← gets (λ s. s.nullifier_used inputs.nullifier)
    ensure (not used) nullifier_already_used
    known ← gets (λ s. is_some (s.spend_tag_commitments inputs.spend_tag))
    ensure known spend_tag_not_found
    spent ← gets (λ s. s.spend_tag_used inputs.spend_tag)
    ensure (not spent) spend_tag_already_used
    price ← gets (λ s. s.rwa_prices inputs.rwa_id)
    ensure (ltb 0 price) rwa_price_not_set
    change_rp ← resolve_change_rp inputs.change_spend_tag
    stored_rp ←
        ok_or (← gets (λ s. s.spend_tag_rp_commitments inputs.spend_tag)) spend_tag_not_found
    ensure (c.verify_purchase_proof inputs.purchase_proof stored_rp change_rp price)
        proof_verification_failed
    ensure (c.verify_purchase proof public_inputs) ml_dsa_failed
    modify (λ s. record s { nullifier_used = update inputs.nullifier true s.nullifier_used })
    modify (λ s. record s { spend_tag_used = update inputs.spend_tag true s.spend_tag_used })
    modify (λ s. record s {
      ownership_commitments =
          update inputs.tx_id (some inputs.ownership_commitment) s.ownership_commitments;
    })
    insert_change inputs.change_commitment inputs.change_spend_tag change_rp
    deposit_event (Event.rwa_purchase_authorized inputs.rwa_id inputs.tx_id)
    send (
        Message.rwa_purchase inputs.rwa_id inputs.nullifier inputs.spend_tag price inputs.tx_id
          inputs.ownership_commitment)

  unfoldable pub withdraw_private : Origin → (proof public_inputs : List ℕ) → Call
  withdraw_private origin proof public_inputs = do
    ensure_none origin
    inputs ← ok_or (c.decode_withdraw public_inputs) proof_verification_failed
    known ← gets (λ s. is_some (s.spend_tag_commitments inputs.spend_tag))
    ensure known spend_tag_not_found
    spent ← gets (λ s. s.spend_tag_used inputs.spend_tag)
    ensure (not spent) spend_tag_already_used
    ensure (c.verify_withdrawal proof public_inputs) ml_dsa_failed
    stored_commitment ←
        ok_or (← gets (λ s. s.spend_tag_commitments inputs.spend_tag)) spend_tag_not_found
    ensure (c.verify_commitment inputs.note_value inputs.note_blinding stored_commitment)
        proof_verification_failed
    modify (λ s. record s { spend_tag_used = update inputs.spend_tag true s.spend_tag_used })
    ensure (length inputs.destination == 32) proof_verification_failed
    dest ← ok_or (c.decode_account (from_le_bytes inputs.destination)) proof_verification_failed
    transfer c c.pool_account dest inputs.note_value false
    deposit_event (Event.withdraw_completed inputs.spend_tag inputs.tx_id)

-- ===== src/ProofHub/Relist.antt =====
-- The private resale of an RWA on the ProofHub pallet (proofhub/pallets/proofs/src/lib.rs,
-- `relist_private`).
use nulla_relay.Prelude.{
  ℕ, ◌-◌, true, not, Option, none, some, List, ◌==◌, ltb, leb, is_some, if◌then◌else◌,
}
use nulla_relay.Frame.{
  Origin, fail, pallet, update, gets, ok_or, pure, modify, ensure, ensure_none, ◌>>=◌, ◌>>◌,
}
use nulla_relay.ProofHub.Types.{
  Config, RelistInputs, Event, Message, proof_verification_failed, spend_tag_not_found,
  spend_tag_already_used, missing_change_output, invalid_ownership_proof, ownership_already_used,
  ownership_not_found, buyer_insufficient_funds,
}
use nulla_relay.ProofHub.Storage.{Action, Call, deposit_event, send}
use nulla_relay.ProofHub.Notes.{do_insert_note, commit_merkle, compute_ownership_commitment}

module _ (c : Config) where
  -- The checks of the change output, which is needed if the buyer's note is worth more than the
  -- price.
  abbrev pub check_fields :
      ℕ → (change_commitment change_spend_tag change_value change_blinding : Option ℕ) → Call
  check_fields amount (some c_c) (some t) (some c_v) (some c_b) = do
    ensure (c_v == amount) proof_verification_failed
    ensure (c.verify_commitment c_v c_b c_c) proof_verification_failed
  check_fields amount (some c_c) (some t) (some c_v) none = fail (pallet missing_change_output)
  check_fields amount (some c_c) (some t) none c_b = fail (pallet missing_change_output)
  check_fields amount (some c_c) none c_v c_b = fail (pallet missing_change_output)
  check_fields amount none t c_v c_b = fail (pallet missing_change_output)

  unfoldable pub check_change : ℕ → RelistInputs → Call
  check_change amount inputs s =
      (if ltb 0 amount
        then check_fields amount inputs.change_commitment inputs.change_spend_tag
            inputs.change_value inputs.change_blinding s
        else pure tt s)

  -- The reseller's payment is in the tree with root `payment_root`. The change note goes in too,
  -- unless its commitment is there already; the last root is the result.
  abbrev finish : (payment_root c_change t_change : ℕ) → List ℕ → Option ℕ × List ℕ → Action ℕ
  finish payment_root c_change t_change leaves (some change_root, grown) = do
    commit_merkle grown change_root
    deposit_event (Event.change_note_created c_change t_change change_root)
    pure change_root
  finish payment_root c_change t_change leaves (none, grown) = do
    commit_merkle grown payment_root
    pure payment_root

  abbrev pub change_outputs : (payment_root : ℕ) → List ℕ → Option ℕ → Option ℕ → Action ℕ
  change_outputs payment_root leaves (some c_change) (some t_change) = do
    inserted ← do_insert_note c c_change t_change leaves
    finish payment_root c_change t_change leaves inserted
  change_outputs payment_root leaves (some c_change) none = do
    commit_merkle leaves payment_root
    pure payment_root
  change_outputs payment_root leaves none t_change = do
    commit_merkle leaves payment_root
    pure payment_root

  -- `check_change` has made sure that the change fields are there where they are unwrapped.
  unfoldable pub insert_outputs :
      (change_amount payment_root : ℕ) → List ℕ → RelistInputs → Action ℕ
  insert_outputs change_amount payment_root leaves inputs s =
      (if ltb 0 change_amount
        then change_outputs payment_root leaves inputs.change_commitment inputs.change_spend_tag s
        else (do commit_merkle leaves payment_root; pure payment_root) s)

  unfoldable pub relist_private : Origin → RelistInputs → Call
  relist_private origin inputs = do
    ensure_none origin
    stored_oc ← ok_or (← gets (λ s. s.ownership_commitments inputs.old_tx_id)) ownership_not_found
    relisted ← gets (λ s. s.ownership_used inputs.old_tx_id)
    ensure (not relisted) ownership_already_used
    ensure (compute_ownership_commitment c inputs.rwa_id inputs.ownership_blinding == stored_oc)
        invalid_ownership_proof
    known ← gets (λ s. is_some (s.spend_tag_commitments inputs.new_buyer_spend_tag))
    ensure known spend_tag_not_found
    spent ← gets (λ s. s.spend_tag_used inputs.new_buyer_spend_tag)
    ensure (not spent) spend_tag_already_used
    buyer_stored ←
        ok_or (← gets (λ s. s.spend_tag_commitments inputs.new_buyer_spend_tag)) spend_tag_not_found
    ensure (c.verify_commitment inputs.buyer_value inputs.buyer_blinding buyer_stored)
        proof_verification_failed
    ensure (leb inputs.price inputs.buyer_value) buyer_insufficient_funds
    let change_amount = inputs.buyer_value - inputs.price
    check_change change_amount inputs
    ensure (c.verify_commitment inputs.price inputs.payment_blinding inputs.payment_commitment)
        proof_verification_failed
    modify (λ s. record s { ownership_used = update inputs.old_tx_id true s.ownership_used })
    modify
        (λ s. record s { spend_tag_used = update inputs.new_buyer_spend_tag true s.spend_tag_used })
    leaves_vec ← gets (λ s. s.leaves)
    inserted ← do_insert_note c inputs.payment_commitment inputs.payment_spend_tag leaves_vec
    payment_root ← ok_or inserted.0 proof_verification_failed
    final_root ← insert_outputs change_amount payment_root inserted.1 inputs
    modify (λ s. record s {
      ownership_commitments =
          update inputs.new_tx_id (some inputs.new_ownership_commitment) s.ownership_commitments;
    })
    deposit_event
        (Event.payment_note_created inputs.payment_commitment inputs.payment_spend_tag final_root)
    deposit_event (Event.relist_initiated inputs.old_tx_id inputs.new_tx_id inputs.rwa_id)
    send (Message.rwa_transfer inputs.old_tx_id inputs.new_ownership_commitment inputs.new_tx_id)

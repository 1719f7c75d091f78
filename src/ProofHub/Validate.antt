-- ===== src/ProofHub/Validate.antt =====
-- What the transaction pool makes of a call without a signature (`ValidateUnsigned` of the ProofHub
-- pallet, proofhub/pallets/proofs/src/lib.rs).
pub mod Accepted
use nulla_relay.Prelude.{
  ℕ, Bool, true, false, not, ◌&&◌, Option, none, some, List, [], ◌∷◌, String, is_some,
  if◌then◌else◌,
}
use nulla_relay.ProofHub.Types.{
  Config, RwaPurchaseInputs, WithdrawInputs, RelistInputs, SpendPublicV2, WithdrawPublicV2,
}
use nulla_relay.ProofHub.Storage.{State}
use nulla_relay.ProofHub.Tree.{v2_root_anchored}
use nulla_relay.ProofHub.Calls.{Request}

pub record ValidTransaction : Type 0 where
  pub tag_prefix : String
  pub provides : List ℕ
  pub priority : ℕ
  pub longevity : ℕ
  pub propagate : Bool

-- `TransactionValidity`: a valid transaction, `InvalidTransaction::Stale` or
-- `InvalidTransaction::Call`.
pub data Validity : Type 0 where
  valid : ValidTransaction → Validity
  stale invalid_call : Validity

abbrev built : String → List ℕ → Validity
built prefix provides = valid (record {
  tag_prefix = prefix;
  provides = provides;
  priority = 100;
  longevity = 64;
  propagate = true;
})

module _ (s : State) where
  abbrev pub validate_purchase : String → Option RwaPurchaseInputs → Validity
  validate_purchase prefix none = invalid_call
  validate_purchase prefix (some inputs) =
      if not (is_some (s.spend_tag_commitments inputs.spend_tag))
      then stale
      else (if s.spend_tag_used inputs.spend_tag
          then stale
          else (if s.nullifier_used inputs.nullifier
              then stale
              else built prefix (inputs.tx_id ∷ inputs.nullifier ∷ inputs.spend_tag ∷ [])))

  abbrev pub validate_withdraw : Option WithdrawInputs → Validity
  validate_withdraw none = invalid_call
  validate_withdraw (some inputs) =
      if not (is_some (s.spend_tag_commitments inputs.spend_tag))
      then stale
      else (if s.spend_tag_used inputs.spend_tag
          then stale
          else built "NullaWithdraw" (inputs.tx_id ∷ inputs.spend_tag ∷ []))

  abbrev pub validate_relist : RelistInputs → Validity
  validate_relist relist =
      if is_some (s.ownership_commitments relist.old_tx_id)
        && (not (s.ownership_used relist.old_tx_id)
            && (is_some (s.spend_tag_commitments relist.new_buyer_spend_tag)
                && not (s.spend_tag_used relist.new_buyer_spend_tag)))
      then built "NullaRelist" (relist.new_tx_id ∷ relist.new_buyer_spend_tag ∷ [])
      else stale

  abbrev pub validate_spend_v2 : String → Option SpendPublicV2 → Validity
  validate_spend_v2 prefix none = invalid_call
  validate_spend_v2 prefix (some inputs) =
      if s.nullifier_used inputs.nullifier
      then stale
      else (if not (v2_root_anchored inputs.merkle_root s)
          then stale
          else built prefix (inputs.tx_id ∷ inputs.nullifier ∷ []))

  abbrev pub validate_withdraw_v2 : Option WithdrawPublicV2 → Validity
  validate_withdraw_v2 none = invalid_call
  validate_withdraw_v2 (some inputs) =
      if s.nullifier_used inputs.nullifier
      then stale
      else (if not (v2_root_anchored inputs.merkle_root s)
          then stale
          else built "NullaWithdrawV2" (inputs.tx_id ∷ inputs.nullifier ∷ []))

unfoldable pub validate_unsigned : Config → Request → State → Validity
validate_unsigned c (Request.purchase p i) s =
    validate_purchase s "RwaPurchase" (c.decode_purchase i)
validate_unsigned c (Request.withdraw p i) s = validate_withdraw s (c.decode_withdraw i)
validate_unsigned c (Request.relist x) s = validate_relist s x
validate_unsigned c (Request.purchase_v2 a i p) s =
    validate_spend_v2 s "NullaPurchaseV2" (c.decode_spend_v2 i)
validate_unsigned c (Request.withdraw_note_v2 a i p) s =
    validate_withdraw_v2 s (c.decode_withdraw_v2 i)
validate_unsigned c (Request.access p i) s =
    validate_purchase s "DistAccessPurchase" (c.decode_purchase i)
validate_unsigned c (Request.access_v2 a i p) s =
    validate_spend_v2 s "DistAccessPurchaseV2" (c.decode_spend_v2 i)
validate_unsigned c (Request.deposit_legacy k p rp t h) s = invalid_call
validate_unsigned c (Request.price r p) s = invalid_call
validate_unsigned c (Request.app a p x) s = invalid_call
validate_unsigned c (Request.deposit l a p h) s = invalid_call

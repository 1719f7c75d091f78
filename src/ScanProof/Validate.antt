-- ===== src/ScanProof/Validate.antt =====
-- What the transaction pool makes of a call without a signature (`ValidateUnsigned` of the ScanProof
-- pallet, scanproof/pallets/proofs/src/lib.rs).
pub mod Accepted
use nulla_relay.Prelude.{
  ℕ, ◌-◌, ◌^◌, Bool, true, false, not, Option, none, some, List, [], ◌∷◌, String, ◌==◌, leb, ltb,
  is_some, length, if◌then◌else◌,
}
use nulla_relay.ProofHub.Tree.{any_equal}
use nulla_relay.ScanProof.Types.{
  Config, AppConfig, ProofPublicInputs, CoinSpendPublic, CoinWithdrawPublic,
}
use nulla_relay.ScanProof.Storage.{State}
use nulla_relay.ScanProof.Notes.{anchored}
use nulla_relay.ScanProof.Pedersen.{binding, withdraw_binding}
use nulla_relay.ScanProof.Submit.{all_fresh}
use nulla_relay.ScanProof.Calls.{Request}

-- The tags that a transaction provides: a hash or an id, or a list of them.
pub data Tag : Type 0 where
  one : ℕ → Tag
  many : List ℕ → Tag

pub record ValidTransaction : Type 0 where
  pub tag_prefix : String
  pub provides : List Tag
  pub priority : ℕ
  pub longevity : ℕ
  pub propagate : Bool

-- `TransactionValidity`: a valid transaction, or an `InvalidTransaction`.
pub data Validity : Type 0 where
  valid : ValidTransaction → Validity
  stale invalid_call bad_mandatory bad_proof exhausts_resources : Validity

abbrev pub built : String → List Tag → (longevity : ℕ) → Validity
built prefix provides longevity = valid (record {
  tag_prefix = prefix;
  provides = provides;
  priority = 100;
  longevity = longevity;
  propagate = true;
})

-- Whether the numbers are distinct, by the set of those seen.
abbrev pub distinct : (seen numbers : List ℕ) → Bool
distinct seen [] = true
distinct seen (n ∷ ns) = if any_equal n seen then false else distinct (n ∷ seen) ns

module _ (c : Config) (s : State) where
  abbrev pub validate_submit : (proof range_proof : List ℕ) → Option ProofPublicInputs → Validity
  validate_submit proof range_proof none =
      if not (leb (length proof) c.max_proof_size)
      then exhausts_resources
      else (if not (leb (length range_proof) c.max_range_proof_size)
          then exhausts_resources
          else invalid_call)
  validate_submit proof range_proof (some inputs) =
      if not (leb (length proof) c.max_proof_size)
      then exhausts_resources
      else (if not (leb (length range_proof) c.max_range_proof_size)
          then exhausts_resources
          else (if not (anchored inputs.merkle_root s)
              then stale
              else (if not (length inputs.nullifiers == length inputs.input_commitments)
                  then bad_mandatory
                  else (if not (length inputs.input_indices == length inputs.input_commitments)
                      then bad_mandatory
                      else (if not (distinct [] inputs.nullifiers)
                          then bad_mandatory
                          else (if not (all_fresh s.nullifier_used inputs.nullifiers)
                              then stale
                              else built "ProofSubmission"
                                  (one inputs.tx_id ∷ many inputs.nullifiers ∷ []) 64))))))

  -- The commitment that a purchase opens, without a look at the change note's place in the tree.
  abbrev pub opened_commitment : (input_commitment : ℕ) → Option ℕ → Option ℕ
  opened_commitment input_commitment (some change) = c.pedersen_subtract input_commitment change
  opened_commitment input_commitment none = some input_commitment

  abbrev pub validate_opening :
      (prefix : String) (price : ℕ)
      → Option ℕ
      → (input_commitment : ℕ) (opening_proof : List ℕ) (nullifier id tx_id : ℕ)
        (change_commitment : Option ℕ)
      → Validity
  validate_opening prefix price none input_commitment opening_proof nullifier id tx_id change =
      bad_proof
  validate_opening prefix price (some effective) input_commitment opening_proof nullifier id tx_id
        change =
      if not (
        c.verify_opening_knowledge price effective opening_proof
          (binding nullifier id tx_id change))
      then bad_proof
      else built prefix (one tx_id ∷ one nullifier ∷ one input_commitment ∷ []) 64

  -- The branches of `purchase_rwa` and `purchase_access` once the price is known, and below, before.
  abbrev pub validate_priced :
      (prefix : String) (price input_commitment : ℕ) (opening_proof : List ℕ)
      (nullifier id tx_id : ℕ) (change_commitment : Option ℕ)
      → Validity
  validate_priced prefix price input_commitment opening_proof nullifier id tx_id change =
      if price == 0
      then invalid_call
      else (if not (length opening_proof == 64)
          then bad_proof
          else validate_opening prefix price (opened_commitment input_commitment change)
              input_commitment opening_proof nullifier id tx_id change)

  abbrev pub price_of : Option AppConfig → ℕ
  price_of none = 0
  price_of (some cfg) = cfg.price

  abbrev pub validate_purchase :
      (prefix : String) (price input_commitment : ℕ) (opening_proof : List ℕ)
      (nullifier id tx_id : ℕ) (change_commitment : Option ℕ)
      → Validity
  validate_purchase prefix price input_commitment opening_proof nullifier id tx_id change =
      if s.nullifier_used nullifier
      then stale
      else (if not (is_some (s.commitment_index input_commitment))
          then bad_mandatory
          else validate_priced prefix price input_commitment opening_proof nullifier id tx_id
              change)

  abbrev pub validate_withdraw :
      (commitment nullifier : ℕ) (opening_proof : List ℕ) (value : ℕ) → Validity
  validate_withdraw commitment nullifier opening_proof value =
      if s.nullifier_used nullifier
      then stale
      else (if not (is_some (s.commitment_index commitment))
          then bad_mandatory
          else (if not (length opening_proof == 64)
              then bad_proof
              else (if not (
                    c.verify_opening_knowledge value commitment opening_proof
                      (withdraw_binding nullifier commitment))
                  then bad_proof
                  else built "ScanWithdraw" (one nullifier ∷ []) (2 ^ 64 - 1))))

  abbrev pub validate_serial : (prefix : String) (group_id serial tx_id : ℕ) → Validity
  validate_serial prefix group_id serial tx_id =
      if s.serial_used serial
      then stale
      else (if not (is_some (s.coin_groups group_id))
          then bad_mandatory
          else built prefix (one tx_id ∷ one serial ∷ []) 64)

  abbrev pub validate_coin_spend : (prefix : String) → Option CoinSpendPublic → Validity
  validate_coin_spend prefix none = invalid_call
  validate_coin_spend prefix (some inputs) =
      validate_serial prefix inputs.group_id inputs.serial inputs.tx_id

  abbrev pub validate_coin_withdraw : Option CoinWithdrawPublic → Validity
  validate_coin_withdraw none = invalid_call
  validate_coin_withdraw (some inputs) =
      validate_serial "ScanCoinWithdraw" inputs.group_id inputs.serial inputs.tx_id

unfoldable pub validate_unsigned : Config → Request → State → Validity
validate_unsigned c (Request.submit p r i h) s = validate_submit c s p r (c.decode_inputs i)
validate_unsigned c (Request.purchase k p n r t w change) s =
    validate_purchase c s "ScanRwaPurchase" (s.rwa_prices r) k p n r t change
validate_unsigned c (Request.withdraw k n p d v) s = validate_withdraw c s k n p v
validate_unsigned c (Request.coin_purchase i p g) s =
    validate_coin_spend c s "ScanCoinPurchase" (c.decode_coin_spend i)
validate_unsigned c (Request.coin_withdraw i p) s =
    validate_coin_withdraw c s (c.decode_coin_withdraw i)
validate_unsigned c (Request.access k p n a t w change) s =
    validate_purchase c s "ScanAccessPurchase" (price_of c s (s.access_key_configs a)) k p n a t
      change
validate_unsigned c (Request.coin_access i p g) s =
    validate_coin_spend c s "ScanAccessCoinPurchase" (c.decode_coin_spend i)
validate_unsigned c (Request.deposit k r h) s = invalid_call
validate_unsigned c (Request.price r p) s = invalid_call
validate_unsigned c (Request.app a p x) s = invalid_call
validate_unsigned c (Request.coin_deposit k a p) s = invalid_call

-- ===== src/ProofHub/Types.antt =====
-- The data of the ProofHub pallet (proofhub/pallets/proofs/src/lib.rs): the public inputs of its
-- calls, what it takes from its `Config`, its events and its errors.
use nulla_relay.Prelude.{ℕ, Bool, Option, List}
use nulla_relay.Frame.{StorageMap}

pub record RwaPurchaseInputs : Type 0 where
  pub spend_tag : ℕ
  pub nullifier : ℕ
  pub rwa_id : ℕ
  pub destination : List ℕ
  pub tx_id : ℕ
  pub ownership_commitment : ℕ
  pub change_commitment : Option ℕ
  pub change_spend_tag : Option ℕ
  pub purchase_proof : List ℕ

pub record WithdrawInputs : Type 0 where
  pub spend_tag : ℕ
  pub destination : List ℕ
  pub tx_id : ℕ
  pub note_value : ℕ
  pub note_blinding : ℕ

pub record RelistInputs : Type 0 where
  pub old_tx_id : ℕ
  pub rwa_id : ℕ
  pub ownership_blinding : ℕ
  pub new_buyer_spend_tag : ℕ
  pub price : ℕ
  pub payment_commitment : ℕ
  pub payment_spend_tag : ℕ
  pub change_commitment : Option ℕ
  pub change_spend_tag : Option ℕ
  pub new_ownership_commitment : ℕ
  pub new_tx_id : ℕ
  pub buyer_value : ℕ
  pub buyer_blinding : ℕ
  pub payment_blinding : ℕ
  pub change_value : Option ℕ
  pub change_blinding : Option ℕ

pub record SpendPublicV2 : Type 0 where
  pub merkle_root : ℕ
  pub nullifier : ℕ
  pub rwa_id : ℕ
  pub tx_id : ℕ
  pub ownership_commitment : ℕ
  pub change_leaf : ℕ
  pub change_pkd : ℕ

pub record WithdrawPublicV2 : Type 0 where
  pub merkle_root : ℕ
  pub nullifier : ℕ
  pub amount : ℕ
  pub destination : ℕ
  pub tx_id : ℕ

-- The trait `ProofVerify`. The v2 frontier is the list of its 20 nodes.
pub record ProofVerify : Type 0 where
  pub verify_commitment : (value blinding commitment : ℕ) → Bool
  pub verify_purchase : (proof public_inputs : List ℕ) → Bool
  pub verify_withdrawal : (proof public_inputs : List ℕ) → Bool
  pub verify_range_proof : (range_proof : List ℕ) (rp_commitment : ℕ) → Bool
  pub verify_purchase_proof : (proof : List ℕ) (rp_commitment change_rp_commitment price : ℕ) → Bool
  pub verify_deposit_v2 : (proof : List ℕ) (amount leaf : ℕ) → Bool
  pub verify_spend_v2 :
      (proof : List ℕ) (root nullifier pkd price_or_amount change_leaf change_pkd : ℕ)
      (purchase_mode : Bool)
      → Bool
  pub verify_spend_auth_v2 : (auth public_inputs : List ℕ) (withdraw : Bool) → Bool
  pub v2_insert_leaf : (nodes : List ℕ) (leaf_count leaf : ℕ) → Option (List ℕ × ℕ × ℕ)
  pub v2_zero_change_leaf : ℕ

-- The free balance of each account.
abbrev pub Balances : Type 0
Balances = StorageMap ℕ

-- The pallet's `Config`, with what the pallet calls of other crates: SCALE decoding of the public
-- inputs and of an account id of 32 bytes, the two hash functions on the bytes hashed, and
-- `Currency::transfer` from an account to another of an amount, which must keep the sender alive
-- if the flag is set, and is `none` if it fails. `Balance` is `u128`, into which a `u64` amount
-- goes unchanged.
pub record Config : Type 0 where
  pub verifier : ProofVerify
  pub open verifier use *
  pub decode_purchase : List ℕ → Option RwaPurchaseInputs
  pub decode_withdraw : List ℕ → Option WithdrawInputs
  pub decode_spend_v2 : List ℕ → Option SpendPublicV2
  pub decode_withdraw_v2 : List ℕ → Option WithdrawPublicV2
  pub decode_account : ℕ → Option ℕ
  pub blake3 : List ℕ → ℕ
  pub blake2_256 : List ℕ → ℕ
  pub pool_account : ℕ
  pub transfer : Balances → (from to amount : ℕ) → (keep_alive : Bool) → Option Balances

pub record AppConfig : Type 0 where
  pub price : ℕ
  pub payment_account : ℕ

pub data Event : Type 0 where
  rwa_purchase_authorized : (rwa_id tx_id : ℕ) → Event
  change_note_created : (change_commitment change_spend_tag new_merkle_root : ℕ) → Event
  withdraw_completed : (spend_tag tx_id : ℕ) → Event
  relist_initiated : (old_tx_id new_tx_id rwa_id : ℕ) → Event
  payment_note_created : (payment_commitment payment_spend_tag new_merkle_root : ℕ) → Event
  rwa_price_set : (rwa_id price : ℕ) → Event
  access_purchase_authorized : (app_id tx_id : ℕ) → Event
  access_purchase_v2_authorized : (app_id tx_id : ℕ) → Event
  access_config_set : (app_id price : ℕ) → Event
  deposit_v2_accepted : (leaf leaf_index new_root : ℕ) (hints_blob : List ℕ) → Event
  purchase_v2_authorized : (rwa_id tx_id change_leaf change_leaf_index new_root : ℕ) → Event
  withdraw_v2_completed : (tx_id : ℕ) → Event
  deposit_accepted : (commitment new_merkle_root : ℕ) (hints_blob : List ℕ) → Event

pub data Error : Type 0 where
  proof_verification_failed nullifier_already_used ml_dsa_failed spend_tag_not_found : Error
  spend_tag_already_used rwa_price_not_set insufficient_funds missing_change_output : Error
  invalid_ownership_proof ownership_already_used ownership_not_found : Error
  buyer_insufficient_funds legacy_disabled tree_full_v2 root_not_recent duplicate_leaf : Error
  access_app_not_configured : Error

-- The messages that the pallet hands to `RwaDispatch` (`send`, `send_transfer`) and to
-- `AccessDispatch`.
pub data Message : Type 0 where
  rwa_purchase : (rwa_id nullifier spend_tag note_value tx_id ownership_commitment : ℕ) → Message
  rwa_transfer : (old_tx_id new_ownership_commitment new_tx_id : ℕ) → Message
  access_grant : (app_id nullifier tx_id access_key_commitment : ℕ) → Message

-- ===== src/ScanProof/Types.antt =====
-- The data of the ScanProof pallet (scanproof/pallets/proofs/src/lib.rs): the public inputs of its
-- proofs, what it takes from its `Config`, its events, its errors and the messages that it sends.
use nulla_relay.Prelude.{ℕ, Bool, Option, List}
use nulla_relay.Frame.{StorageMap}

pub record ProofPublicInputs : Type 0 where
  pub merkle_root : ℕ
  pub new_merkle_root : ℕ
  pub input_commitments : List ℕ
  pub input_indices : List ℕ
  pub input_paths : List (List ℕ)
  pub nullifiers : List ℕ
  pub new_commitments : List ℕ
  pub tx_id : ℕ

pub record CoinSpendPublic : Type 0 where
  pub group_id : ℕ
  pub serial : ℕ
  pub rwa_id : ℕ
  pub tx_id : ℕ
  pub ownership_commitment : ℕ
  pub change : ℕ
  pub change_coin : ℕ

pub record CoinWithdrawPublic : Type 0 where
  pub group_id : ℕ
  pub serial : ℕ
  pub amount : ℕ
  pub destination : ℕ
  pub tx_id : ℕ

pub record AppConfig : Type 0 where
  pub price : ℕ
  pub payment_account : ℕ

-- The trait `ProofVerify`.
pub record ProofVerify : Type 0 where
  pub verify : (proof public_inputs : List ℕ) → Bool
  pub verify_opening_knowledge : (value commitment : ℕ) (proof binding : List ℕ) → Bool
  pub verify_range_proof : (range_proof commitments public_inputs : List ℕ) (nbits : ℕ) → Bool
  pub pedersen_subtract : (c_a c_b : ℕ) → Option ℕ
  pub verify_one_of_many : (proof coins : List ℕ) (serial price change : ℕ) (ctx : List ℕ) → Bool
  pub verify_deposit_open : (coin amount : ℕ) (proof ctx : List ℕ) → Bool
  pub verify_g1_pok : (new_coin change : ℕ) (proof ctx : List ℕ) → Bool
  pub pad_group : (coins : List ℕ) (group_id : ℕ) → List ℕ

-- The free balance of each account.
abbrev pub Balances : Type 0
Balances = StorageMap ℕ

-- The pallet's `Config`, with what the pallet calls of other crates: SCALE decoding of the public
-- inputs and of an account id of 32 bytes, SCALE encoding of an account id, BLAKE2 on the bytes
-- hashed, and `Currency::transfer` from an account to another of an amount, which must keep the
-- sender alive if the flag is set, and is `none` if it fails. `Balance` is `u128`, into which a
-- `u64` amount goes unchanged.
pub record Config : Type 0 where
  pub verifier : ProofVerify
  pub open verifier use *
  pub decode_inputs : List ℕ → Option ProofPublicInputs
  pub decode_coin_spend : List ℕ → Option CoinSpendPublic
  pub decode_coin_withdraw : List ℕ → Option CoinWithdrawPublic
  pub decode_account : ℕ → Option ℕ
  pub encode_account : ℕ → List ℕ
  pub blake2_256 : List ℕ → ℕ
  pub max_proof_size : ℕ
  pub max_range_proof_size : ℕ
  pub max_outputs : ℕ
  pub pool_account : ℕ
  pub transfer : Balances → (from to amount : ℕ) → (keep_alive : Bool) → Option Balances

pub data Event : Type 0 where
  proof_accepted : (tx_id new_merkle_root : ℕ) (outputs hints_blob : List ℕ) → Event
  proof_rejected : Event
  deposit_accepted : (commitment new_merkle_root : ℕ) (hints_blob : List ℕ) → Event
  rwa_purchase_authorized : (rwa_id tx_id : ℕ) → Event
  rwa_price_set : (rwa_id price : ℕ) → Event
  access_purchase_authorized : (app_id tx_id : ℕ) → Event
  access_config_set : (app_id price : ℕ) → Event
  withdraw_completed : (nullifier : ℕ) (destination : List ℕ) (amount : ℕ) → Event
  coin_deposited : (coin group_id index_in_group : ℕ) → Event
  coin_purchase_authorized : (rwa_id tx_id group_id change_coin : ℕ) → Event
  coin_withdraw_completed : (tx_id amount : ℕ) → Event

pub data Error : Type 0 where
  proof_verification_failed nullifier_already_used proof_too_large range_proof_too_large : Error
  tree_full rwa_price_not_set note_value_mismatch opening_proof_invalid : Error
  commitment_not_found serial_already_used group_not_found duplicate_coin : Error
  one_of_many_invalid change_mismatch access_app_not_configured : Error

-- The messages that the pallet hands to `RwaDispatch` and to `AccessDispatch`.
pub data Message : Type 0 where
  rwa_purchase : (rwa_id nullifier spend_tag note_value tx_id ownership_commitment : ℕ) → Message
  access_grant : (app_id nullifier tx_id access_key_commitment : ℕ) → Message

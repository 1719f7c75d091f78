-- ===== src/ScanProof/Pedersen.antt =====
-- The calls of the ScanProof pallet (scanproof/pallets/proofs/src/lib.rs) on Pedersen notes:
-- deposits, purchases and withdrawals that open a commitment; and the prices that root sets.
pub mod Wire
use nulla_relay.Prelude.{
  ℕ, ◌+◌, ◌%◌, ◌^◌, true, false, not, Option, none, some, List, [], ◌∷◌, ◌++◌, ◌==◌, ltb, leb,
  is_some, length, take, drop, get_or, slice, to_le_bytes, from_le_bytes,
}
use nulla_relay.Frame.{
  Origin, update, gets, ok_or, or_panic, pure, modify, ensure, ensure_signed, ensure_root,
  ensure_none, ◌>>=◌, ◌>>◌,
}
use nulla_relay.ScanProof.Types.{
  Config, AppConfig, Event, Message, proof_verification_failed, nullifier_already_used,
  commitment_not_found, rwa_price_not_set, opening_proof_invalid, access_app_not_configured,
}
use nulla_relay.ScanProof.Storage.{Action, Call, deposit_event, send, transfer}
use nulla_relay.ScanProof.Notes.{append_note}

unfoldable pub set_rwa_price : Origin → (rwa_id price : ℕ) → Call
set_rwa_price origin rwa_id price = do
  ensure_root origin
  modify (λ s. record s { rwa_prices = update rwa_id price s.rwa_prices })
  deposit_event (Event.rwa_price_set rwa_id price)

unfoldable pub set_access_config : Origin → (app_id price payment_account : ℕ) → Call
set_access_config origin app_id price payment_account = do
  ensure_root origin
  let cfg : AppConfig = record { price = price; payment_account = payment_account }
  modify (λ s. record s { access_key_configs = update app_id (some cfg) s.access_key_configs })
  deposit_event (Event.access_config_set app_id price)

-- The message that an opening proof is bound to.
abbrev pub binding : (nullifier id tx_id : ℕ) → Option ℕ → List ℕ
binding nullifier id tx_id (some change) =
    to_le_bytes 32 nullifier
    ++ (to_le_bytes 32 id ++ (to_le_bytes 16 tx_id ++ to_le_bytes 32 change))
binding nullifier id tx_id none =
    to_le_bytes 32 nullifier ++ (to_le_bytes 32 id ++ to_le_bytes 16 tx_id)

abbrev pub withdraw_binding : (nullifier commitment : ℕ) → List ℕ
withdraw_binding nullifier commitment = to_le_bytes 32 nullifier ++ to_le_bytes 32 commitment

-- The bytes of a bulletproof, and the amount behind them.
abbrev pub Wire : Type 0
Wire = List ℕ × ℕ

-- Where the proof ends, `5 + proof_len`. Indices are `usize`, of 32 bits in the runtime.
unfoldable pub wire_end : List ℕ → ℕ
wire_end rp = (5 + from_le_bytes (take 4 (drop 1 rp))) % 2 ^ 32

-- The wire format of a deposit, `[1][proof_len: u32][proof][amount: u64]`. The bytes read after the
-- checks must be there.
unfoldable pub read_wire : List ℕ → Action Wire
read_wire rp = do
  ensure (leb 13 (length rp)) proof_verification_failed
  ensure (get_or rp 0 0 == 1) proof_verification_failed
  let end = wire_end rp
  ensure (leb ((end + 8) % 2 ^ 32) (length rp)) proof_verification_failed
  bp_bytes ← or_panic (slice 5 end rp)
  amount ← or_panic (slice end (end + 8) rp)
  pure (bp_bytes, from_le_bytes amount)

module _ (c : Config) where
  unfoldable pub deposit_public : Origin → (commitment range_proof hints_blob : List ℕ) → Call
  deposit_public origin commitment range_proof hints_blob = do
    who ← ensure_signed origin
    ensure (length commitment == 32) proof_verification_failed
    let c_arr = from_le_bytes commitment
    wire ← read_wire range_proof
    ensure (c.verify_range_proof wire.0 (c_arr ∷ []) [] 64) proof_verification_failed
    transfer c who c.pool_account wire.1 true
    known ← gets (λ s. is_some (s.commitment_index c_arr))
    ensure (not known) proof_verification_failed
    computed_root ← append_note c c_arr
    deposit_event (Event.deposit_accepted c_arr computed_root hints_blob)

  -- The input, or its difference to a change note that is not in the tree yet.
  unfoldable pub effective : (input_commitment : ℕ) → Option ℕ → Action ℕ
  effective input_commitment (some change) = do
    known ← gets (λ s. is_some (s.commitment_index change))
    ensure (not known) proof_verification_failed
    ok_or (c.pedersen_subtract input_commitment change) proof_verification_failed
  effective input_commitment none = pure input_commitment

  unfoldable pub insert_change : Option ℕ → Call
  insert_change (some change) = do append_note c change; pure tt
  insert_change none = pure tt

  unfoldable pub purchase_rwa :
      Origin
      → (input_commitment : ℕ) (opening_proof : List ℕ)
        (nullifier rwa_id tx_id ownership_commitment : ℕ) (change_commitment : Option ℕ)
      → Call
  purchase_rwa origin input_commitment opening_proof nullifier rwa_id tx_id ownership_commitment
        change_commitment =
      do
        ensure_none origin
        used ← gets (λ s. s.nullifier_used nullifier)
        ensure (not used) nullifier_already_used
        known ← gets (λ s. is_some (s.commitment_index input_commitment))
        ensure known commitment_not_found
        price ← gets (λ s. s.rwa_prices rwa_id)
        ensure (ltb 0 price) rwa_price_not_set
        opened ← effective input_commitment change_commitment
        ensure (length opening_proof == 64) opening_proof_invalid
        ensure
            (c.verify_opening_knowledge price opened opening_proof
              (binding nullifier rwa_id tx_id change_commitment))
            opening_proof_invalid
        modify (λ s. record s { nullifier_used = update nullifier true s.nullifier_used })
        insert_change change_commitment
        deposit_event (Event.rwa_purchase_authorized rwa_id tx_id)
        send (Message.rwa_purchase rwa_id nullifier 0 price tx_id ownership_commitment)

  unfoldable pub withdraw_private :
      Origin → (commitment nullifier : ℕ) (opening_proof destination : List ℕ) (value : ℕ) → Call
  withdraw_private origin commitment nullifier opening_proof destination value = do
    ensure_none origin
    known ← gets (λ s. is_some (s.commitment_index commitment))
    ensure known commitment_not_found
    used ← gets (λ s. s.nullifier_used nullifier)
    ensure (not used) nullifier_already_used
    ensure
        (c.verify_opening_knowledge value commitment opening_proof
          (withdraw_binding nullifier commitment))
        opening_proof_invalid
    ensure (length destination == 32) proof_verification_failed
    dest ← ok_or (c.decode_account (from_le_bytes destination)) proof_verification_failed
    transfer c c.pool_account dest value false
    modify (λ s. record s { nullifier_used = update nullifier true s.nullifier_used })
    deposit_event (Event.withdraw_completed nullifier destination value)

  unfoldable pub purchase_access :
      Origin
      → (input_commitment : ℕ) (opening_proof : List ℕ)
        (nullifier app_id tx_id access_key_commitment : ℕ) (change_commitment : Option ℕ)
      → Call
  purchase_access origin input_commitment opening_proof nullifier app_id tx_id access_key_commitment
        change_commitment =
      do
        ensure_none origin
        used ← gets (λ s. s.nullifier_used nullifier)
        ensure (not used) nullifier_already_used
        known ← gets (λ s. is_some (s.commitment_index input_commitment))
        ensure known commitment_not_found
        cfg ← ok_or (← gets (λ s. s.access_key_configs app_id)) access_app_not_configured
        ensure (ltb 0 cfg.price) access_app_not_configured
        opened ← effective input_commitment change_commitment
        ensure (length opening_proof == 64) opening_proof_invalid
        ensure
            (c.verify_opening_knowledge cfg.price opened opening_proof
              (binding nullifier app_id tx_id change_commitment))
            opening_proof_invalid
        modify (λ s. record s { nullifier_used = update nullifier true s.nullifier_used })
        payment_dest ← ok_or (c.decode_account cfg.payment_account) proof_verification_failed
        transfer c c.pool_account payment_dest cfg.price false
        insert_change change_commitment
        deposit_event (Event.access_purchase_authorized app_id tx_id)
        send (Message.access_grant app_id nullifier tx_id access_key_commitment)

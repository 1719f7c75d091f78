-- ===== src/ScanProof/Coins.antt =====
-- The calls of the ScanProof pallet (scanproof/pallets/proofs/src/lib.rs) on coins: a coin goes
-- into a group of at most 1024, and is spent by a proof that some coin of a group opens.
use nulla_relay.Prelude.{
  ℕ, ◌+◌, ◌%◌, ◌^◌, Bool, true, false, not, none, some, List, [], ◌∷◌, ◌++◌, ◌==◌, ltb, leb,
  is_some, if◌then◌else◌, length, to_le_bytes,
}
use nulla_relay.Frame.{
  Origin, update, gets, ok_or, pure, modify, ensure, ensure_signed, ensure_none, ◌>>=◌, ◌>>◌,
}
use nulla_relay.ScanProof.Types.{
  Config, Event, Message, proof_verification_failed, rwa_price_not_set, opening_proof_invalid,
  access_app_not_configured, serial_already_used, group_not_found, duplicate_coin,
  one_of_many_invalid, change_mismatch, tree_full,
}
use nulla_relay.ScanProof.Storage.{State, Call, deposit_event, send, transfer}

abbrev pub group_capacity : ℕ
group_capacity = 1024

-- `CoinGroups::get`, whose default is the empty group.
abbrev pub group_of : ℕ → State → List ℕ
group_of gid s = elim (s.coin_groups gid) [ none ↦ [] | some group ↦ group ]

-- The group that the next coin goes into: the current one, or the next if that is full.
abbrev pub next_group : State → ℕ
next_group s =
    if leb group_capacity (length (group_of s.current_group s))
    then (s.current_group + 1) % 2 ^ 32
    else s.current_group

-- A coin goes to the end of the group that accepts deposits.
unfoldable pub register_coin : (coin : ℕ) → Call
register_coin coin = do
  gid ← gets next_group
  modify (λ s. record s { current_group = gid })
  group ← gets (group_of gid)
  ensure (ltb (length group) group_capacity) tree_full
  modify (λ s. record s { coin_groups = update gid (some (group ++ coin ∷ [])) s.coin_groups })
  modify (λ s. record s { coin_location = update coin (some (gid, length group)) s.coin_location })
  deposit_event (Event.coin_deposited coin gid (length group))

-- `coin != [0u8; 32]`
abbrev pub is_present : ℕ → Bool
is_present x = not (x == 0)

-- `has_change == (inputs.change_coin != [0u8; 32])`
abbrev pub same_flag : Bool → Bool → Bool
same_flag true b = b
same_flag false b = not b

module _ (c : Config) where
  -- BLAKE2 of the public inputs, which binds the proofs to the transaction.
  abbrev pub context : List ℕ → List ℕ
  context public_inputs = to_le_bytes 32 (c.blake2_256 public_inputs)

  unfoldable pub deposit_coin : Origin → (coin amount : ℕ) (open_proof : List ℕ) → Call
  deposit_coin origin coin amount open_proof = do
    who ← ensure_signed origin
    known ← gets (λ s. is_some (s.coin_location coin))
    ensure (not known) duplicate_coin
    ensure (c.verify_deposit_open coin amount open_proof (c.encode_account who))
        opening_proof_invalid
    transfer c who c.pool_account amount true
    register_coin coin

  -- The change coin of a purchase, if it has one.
  unfoldable pub register_change : (change change_coin : ℕ) (g1_pok ctx : List ℕ) → Call
  register_change change change_coin g1_pok ctx s =
      (if is_present change
          then (do
            known ← gets (λ s. is_some (s.coin_location change_coin))
            ensure (not known) duplicate_coin
            ensure (c.verify_g1_pok change_coin change g1_pok ctx) opening_proof_invalid
            register_coin change_coin)
          else pure tt)
        s

  unfoldable pub purchase_coin : Origin → (public_inputs one_of_many_proof g1_pok : List ℕ) → Call
  purchase_coin origin public_inputs one_of_many_proof g1_pok = do
    ensure_none origin
    inputs ← ok_or (c.decode_coin_spend public_inputs) proof_verification_failed
    used ← gets (λ s. s.serial_used inputs.serial)
    ensure (not used) serial_already_used
    known ← gets (λ s. is_some (s.coin_groups inputs.group_id))
    ensure known group_not_found
    price ← gets (λ s. s.rwa_prices inputs.rwa_id)
    ensure (ltb 0 price) rwa_price_not_set
    ensure (same_flag (is_present inputs.change) (is_present inputs.change_coin)) change_mismatch
    group ← gets (group_of inputs.group_id)
    let coins = c.pad_group group inputs.group_id
    let ctx = context public_inputs
    ensure (c.verify_one_of_many one_of_many_proof coins inputs.serial price inputs.change ctx)
        one_of_many_invalid
    register_change inputs.change inputs.change_coin g1_pok ctx
    modify (λ s. record s { serial_used = update inputs.serial true s.serial_used })
    deposit_event (
        Event.coin_purchase_authorized inputs.rwa_id inputs.tx_id inputs.group_id
          inputs.change_coin)
    send (
        Message.rwa_purchase inputs.rwa_id inputs.serial inputs.serial price inputs.tx_id
          inputs.ownership_commitment)

  unfoldable pub withdraw_coin : Origin → (public_inputs one_of_many_proof : List ℕ) → Call
  withdraw_coin origin public_inputs one_of_many_proof = do
    ensure_none origin
    inputs ← ok_or (c.decode_coin_withdraw public_inputs) proof_verification_failed
    used ← gets (λ s. s.serial_used inputs.serial)
    ensure (not used) serial_already_used
    known ← gets (λ s. is_some (s.coin_groups inputs.group_id))
    ensure known group_not_found
    group ← gets (group_of inputs.group_id)
    let coins = c.pad_group group inputs.group_id
    let ctx = context public_inputs
    ensure (c.verify_one_of_many one_of_many_proof coins inputs.serial inputs.amount 0 ctx)
        one_of_many_invalid
    modify (λ s. record s { serial_used = update inputs.serial true s.serial_used })
    dest ← ok_or (c.decode_account inputs.destination) proof_verification_failed
    transfer c c.pool_account dest inputs.amount false
    deposit_event (Event.coin_withdraw_completed inputs.tx_id inputs.amount)

  unfoldable pub purchase_access_coin :
      Origin → (public_inputs one_of_many_proof g1_pok : List ℕ) → Call
  purchase_access_coin origin public_inputs one_of_many_proof g1_pok = do
    ensure_none origin
    inputs ← ok_or (c.decode_coin_spend public_inputs) proof_verification_failed
    used ← gets (λ s. s.serial_used inputs.serial)
    ensure (not used) serial_already_used
    known ← gets (λ s. is_some (s.coin_groups inputs.group_id))
    ensure known group_not_found
    cfg ← ok_or (← gets (λ s. s.access_key_configs inputs.rwa_id)) access_app_not_configured
    ensure (ltb 0 cfg.price) access_app_not_configured
    ensure (same_flag (is_present inputs.change) (is_present inputs.change_coin)) change_mismatch
    group ← gets (group_of inputs.group_id)
    let coins = c.pad_group group inputs.group_id
    let ctx = context public_inputs
    ensure (c.verify_one_of_many one_of_many_proof coins inputs.serial cfg.price inputs.change ctx)
        one_of_many_invalid
    register_change inputs.change inputs.change_coin g1_pok ctx
    modify (λ s. record s { serial_used = update inputs.serial true s.serial_used })
    payment_dest ← ok_or (c.decode_account cfg.payment_account) proof_verification_failed
    transfer c c.pool_account payment_dest cfg.price false
    deposit_event (Event.access_purchase_authorized inputs.rwa_id inputs.tx_id)
    send (Message.access_grant inputs.rwa_id inputs.serial inputs.tx_id inputs.ownership_commitment)

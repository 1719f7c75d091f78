-- ===== src/ScanProof/Tests.antt =====
-- A small chain with the ScanProof pallet (scanproof/pallets/proofs/src/lib.rs): a commitment is its
-- value, and a group proof is accepted.
mod Ledger
mod Pool
use nulla_relay.Prelude.{
  from_le_bytes, ℕ, ◌+◌, ◌-◌, ◌*◌, ◌%◌, ◌≤◌, ◌^◌, Bool, true, false, Option, none, some, List, [],
  ◌∷◌, ◌++◌, ◌≡◌, refl, ◌==◌, leb, if◌then◌else◌, length, replicate, to_le_bytes,
}
use nulla_relay.Frame.{Origin, update, dispatch}
use nulla_relay.ScanProof.Types.{
  Config, ProofVerify, Balances, ProofPublicInputs, CoinSpendPublic, CoinWithdrawPublic,
}
use nulla_relay.ScanProof.Storage.{State, build}
use nulla_relay.ScanProof.Notes.{
  hash2, leaf_hash, next_level, fold_levels, compute_merkle_root, append_note, advance_root,
}
use nulla_relay.ScanProof.Pedersen.{
  wire_end, read_wire, deposit_public, effective, insert_change, purchase_rwa, withdraw_private,
  set_rwa_price,
}
use nulla_relay.ScanProof.Submit.{fold_path, inputs_included, push_outputs, submit_proof}
use nulla_relay.ScanProof.Coins.{
  register_coin, deposit_coin, register_change, purchase_coin, withdraw_coin,
}
use nulla_relay.ScanProof.Calls.{Request, perform, run}
use nulla_relay.ProofHub.Notes.{pad_level, push_recent}

abbrev pub verifier : ProofVerify
verifier = record {
  verify = λ proof inputs. true;
  verify_opening_knowledge = λ value commitment proof binding. commitment == value;
  verify_range_proof = λ proof commitments inputs nbits. true;
  pedersen_subtract = λ a b. if leb b a then some (a - b) else none;
  verify_one_of_many = λ proof coins serial price change ctx. true;
  verify_deposit_open = λ coin amount proof ctx. true;
  verify_g1_pok = λ new_coin change proof ctx. true;
  pad_group = λ coins gid. coins;
}

-- An amount goes from one account to another if it is there.
abbrev pub move : Balances → ℕ → ℕ → ℕ → Bool → Option Balances
move b from to amount alive =
    if leb amount (b from)
    then (let taken = update from (b from - amount) b in some (update to (taken to + amount) taken))
    else none

abbrev pub decode_transfer : List ℕ → Option ProofPublicInputs
decode_transfer (root ∷ input ∷ nullifier ∷ output ∷ tx ∷ []) = some (record {
  merkle_root = root;
  new_merkle_root = 0;
  input_commitments = input ∷ [];
  input_indices = 0 ∷ [];
  input_paths = [];
  nullifiers = nullifier ∷ [];
  new_commitments = output ∷ [];
  tx_id = tx;
})
decode_transfer inputs = none

abbrev pub decode_spend : List ℕ → Option CoinSpendPublic
decode_spend (gid ∷ serial ∷ rwa ∷ tx ∷ own ∷ change ∷ coin ∷ []) = some (record {
  group_id = gid;
  serial = serial;
  rwa_id = rwa;
  tx_id = tx;
  ownership_commitment = own;
  change = change;
  change_coin = coin;
})
decode_spend inputs = none

abbrev pub decode_withdrawal : List ℕ → Option CoinWithdrawPublic
decode_withdrawal (gid ∷ serial ∷ amount ∷ dest ∷ tx ∷ []) =
    some
      (record { group_id = gid; serial = serial; amount = amount; destination = dest; tx_id = tx })
decode_withdrawal inputs = none

-- A hash of the first two of the 64 bytes.
abbrev pub small_hash : List ℕ → ℕ
small_hash [] = 1
small_hash (b ∷ bs) = (b + 31 * small_hash bs) % 251

abbrev pub config : Config
config = record {
  verifier = verifier;
  decode_inputs = decode_transfer;
  decode_coin_spend = decode_spend;
  decode_coin_withdraw = decode_withdrawal;
  decode_account = some;
  encode_account = λ who. who ∷ [];
  blake2_256 = small_hash;
  max_proof_size = 65536;
  max_range_proof_size = 16384;
  max_outputs = 2;
  pool_account = 0;
  transfer = move;
}

abbrev pub start : Balances
start = update 8 500 (λ account. 0)

-- A commitment to an amount, and the deposit of it.
abbrev pub pay_in : (amount : ℕ) → Request
pay_in amount =
    Request.deposit (to_le_bytes 32 amount) (1 ∷ to_le_bytes 4 2 ++ (7 ∷ 7 ∷ to_le_bytes 8 amount))
      []

-- Two deposits of notes and two of coins, a private purchase with change, a purchase with a coin and
-- its change, and prices.
abbrev pub session : List (Origin × Request)
session =
    (Origin.root, Request.price 3 25)
    ∷ (Origin.signed 8, pay_in 100)
    ∷ (Origin.signed 8, pay_in 40)
    ∷ (Origin.signed 8, Request.coin_deposit 61 30 [])
    ∷ (Origin.signed 8, Request.coin_deposit 62 50 [])
    ∷ (Origin.unsigned, Request.purchase 100 (replicate 64 0) 77 3 9 1 (some 75))
    ∷ (Origin.unsigned, Request.coin_purchase (0 ∷ 77 ∷ 3 ∷ 10 ∷ 2 ∷ 5 ∷ 63 ∷ []) [] [])
    ∷ []

abbrev pub played : State
played = run config session (build start)

-- Both roles of the number 77 have sent a message.
two_messages : length played.outbox ≡ 2
unfolding run perform build set_rwa_price deposit_public wire_end read_wire append_note advance_root
    deposit_coin register_coin purchase_rwa effective insert_change purchase_coin register_change
    to_le_bytes from_le_bytes
two_messages = refl

three_leaves : length played.leaves ≡ 3
unfolding run perform build set_rwa_price deposit_public wire_end read_wire append_note advance_root
    deposit_coin register_coin purchase_rwa effective insert_change purchase_coin register_change
    to_le_bytes from_le_bytes
three_leaves = refl

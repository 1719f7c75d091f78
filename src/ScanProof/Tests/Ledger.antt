-- ===== src/ScanProof/Tests/Ledger.antt =====
-- The theorems on the ledgers of the ScanProof pallet (scanproof/pallets/proofs/src/lib.rs) at inputs
-- that meet their hypotheses.
use nulla_relay.Prelude.{
  ℕ, ◌+◌, ◌≤◌, true, Option, none, some, List, [], ◌∷◌, ◌≡◌, refl, ap, ◌↔◌, ◌⊎◌, arith, leb,
  by_true, length, get_elem?, once, to_le_bytes, from_le_bytes,
}
use nulla_relay.Frame.{Origin, dispatch}
use nulla_relay.ProofHub.Notes.{pad_level}
use nulla_relay.ScanProof.Types.{Balances}
use nulla_relay.ScanProof.Storage.{build}
use nulla_relay.ScanProof.Notes.{
  max_leaves, hash2, leaf_hash, next_level, fold_levels, compute_merkle_root, append_note,
  advance_root,
}
use nulla_relay.ScanProof.Pedersen.{
  wire_end, read_wire, deposit_public, effective, insert_change, purchase_rwa, set_rwa_price,
}
use nulla_relay.ScanProof.Submit.{inputs_included, push_outputs, submit_proof}
use nulla_relay.ScanProof.Coins.{
  group_capacity, group_of, register_coin, deposit_coin, register_change, purchase_coin,
  withdraw_coin,
}
use nulla_relay.ScanProof.Calls.{Request, perform, run}
use nulla_relay.ScanProof.Ledger.{spending}
use nulla_relay.ScanProof.Ledger.Spends.{
  count_carried, messages_backed, FillsPool, UsesUp, payouts_use_up,
}
use nulla_relay.ScanProof.Ledger.Places.{coin_location_iff}
use nulla_relay.ScanProof.Ledger.Tree.{roots_are_current, commitment_index_finds}
use nulla_relay.ScanProof.Ledger.Outcomes.{
  Submitted, CoinBought, submit_proof_outcome, purchase_coin_outcome,
}
use nulla_relay.ScanProof.Tests.{move, config, start, session, played}

messages_backed_example :
    let s = run config session (build start) in
    count_carried 77 s.outbox ≤ once (s.nullifier_used 77) + once (s.serial_used 77)
messages_backed_example = messages_backed config start session 77

abbrev at_pool : ℕ → Option Balances → ℕ
at_pool before none = before
at_pool before (some b) = b 0

moved_in : (b : Balances) (who amount : ℕ) → b 0 ≤ at_pool (b 0) (move b who 0 amount true)
moved_in b who amount =
    by_true (leb amount (b who)) (λ e. rw e (ground arith)) λ e. rw e (ground arith)

move_fills : FillsPool config
move_fills b who amount b' e =
    let more = moved_in b who amount in
    let same : at_pool (b 0) (move b who 0 amount true) ≡ b' 0 = ap (at_pool (b 0)) e in omega arith

abbrev withdrawal_inputs : List ℕ
withdrawal_inputs = 0 ∷ 78 ∷ 30 ∷ 9 ∷ 4 ∷ []

abbrev withdrawal : Request
withdrawal = Request.coin_withdraw withdrawal_inputs []

withdrawn : (dispatch (perform config Origin.unsigned withdrawal) played).balances 0 ≡ 190
unfolding run perform build set_rwa_price deposit_public wire_end read_wire append_note advance_root
    deposit_coin register_coin purchase_rwa effective insert_change purchase_coin register_change
    to_le_bytes from_le_bytes withdraw_coin
withdrawn = refl

filled : played.balances 0 ≡ 220
unfolding run perform build set_rwa_price deposit_public wire_end read_wire append_note advance_root
    deposit_coin register_coin purchase_rwa effective insert_change purchase_coin register_change
    to_le_bytes from_le_bytes
filled = refl

payouts_use_up_example :
    let s' = dispatch (perform config Origin.unsigned withdrawal) played in
    UsesUp (spending played) (spending s')
payouts_use_up_example =
    payouts_use_up config move_fills Origin.unsigned withdrawal played
      (rw (withdrawn, filled) (ground arith))

coin_location_iff_example :
    let s = run config session (build start) in
    ((s.coin_location 63 ≡ some (0, 2)) ↔ (get_elem? (group_of 0 s) 2 ≡ some 63))
    × (length (group_of 0 s) ≤ group_capacity)
coin_location_iff_example = coin_location_iff config start session 63 0 2

third_place : played.coin_location 63 ≡ some (0, 2)
unfolding run perform build set_rwa_price deposit_public wire_end read_wire append_note advance_root
    deposit_coin register_coin purchase_rwa effective insert_change purchase_coin register_change
    to_le_bytes from_le_bytes
third_place = refl

roots_are_current_example :
    let s = run config session (build start) in
    (s.current_root ≡ compute_merkle_root config s.leaves)
    × (s.merkle_root ≡ s.current_root)
    × (s.root_leaf_count s.current_root ≡ length s.leaves)
    × (length s.leaves ≤ max_leaves)
roots_are_current_example = roots_are_current config start session

change_indexed : played.commitment_index 75 ≡ some 2
unfolding run perform build set_rwa_price deposit_public wire_end read_wire append_note advance_root
    deposit_coin register_coin purchase_rwa effective insert_change purchase_coin register_change
    to_le_bytes from_le_bytes
change_indexed = refl

commitment_index_finds_example :
    (get_elem? played.leaves 2 ≡ some (leaf_hash config 75)) × (◌≡◌ {A = ℕ} 75 75)
commitment_index_finds_example =
    commitment_index_finds config start session 75 75 2 change_indexed change_indexed

abbrev transfer_inputs : List ℕ
transfer_inputs = played.current_root ∷ 40 ∷ 79 ∷ 33 ∷ 12 ∷ []

submit_proof_outcome_example :
    let s' = dispatch (submit_proof config Origin.unsigned [] [] transfer_inputs []) played in
    (s' ≡ played) ⊎ Submitted config [] [] transfer_inputs played s'
submit_proof_outcome_example =
    submit_proof_outcome config played Origin.unsigned [] [] transfer_inputs []

transfer_goes_through :
    (dispatch (submit_proof config Origin.unsigned [] [] transfer_inputs []) played).nullifier_used
      79
    ≡ true
unfolding run perform build set_rwa_price deposit_public wire_end read_wire append_note advance_root
    deposit_coin register_coin purchase_rwa effective insert_change purchase_coin register_change
    to_le_bytes from_le_bytes submit_proof inputs_included push_outputs compute_merkle_root
    fold_levels pad_level next_level hash2 leaf_hash
transfer_goes_through = refl

abbrev coin_inputs : List ℕ
coin_inputs = 0 ∷ 81 ∷ 3 ∷ 10 ∷ 2 ∷ 5 ∷ 64 ∷ []

purchase_coin_outcome_example :
    let s' = dispatch (purchase_coin config Origin.unsigned coin_inputs [] []) played in
    (s' ≡ played) ⊎ CoinBought config coin_inputs [] [] played s'
purchase_coin_outcome_example =
    purchase_coin_outcome config played Origin.unsigned coin_inputs [] []

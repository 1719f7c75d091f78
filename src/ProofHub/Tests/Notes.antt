-- ===== src/ProofHub/Tests/Notes.antt =====
-- The theorems on the v1 notes of the ProofHub pallet (proofhub/pallets/proofs/src/lib.rs) at
-- inputs that meet their hypotheses.
use nulla_relay.Prelude.{
  List, ◌+◌, ◌≤◌, once, ◌*◌, ◌<◌, none, some, [], ◌∷◌, ◌≡◌, refl, ◌⊎◌, length, to_le_bytes,
}
use nulla_relay.Frame.{Origin, update, dispatch}
use nulla_relay.Verifier.Tree.{insert, root, v2_insert_leaf}
use nulla_relay.ProofHub.Types.{RelistInputs}
use nulla_relay.ProofHub.Storage.{State, build}
use nulla_relay.ProofHub.Spend.{deposit_v2, set_rwa_price}
use nulla_relay.ProofHub.Notes.{compute_ownership_commitment, do_insert_note, commit_merkle}
use nulla_relay.ProofHub.Notes.{pad_level, fold_levels}
use nulla_relay.ProofHub.Notes.Root.{IsPadded, compute_merkle_root_stops}
use nulla_relay.ProofHub.Relist.{check_change, insert_outputs, relist_private}
use nulla_relay.ProofHub.Ledger.Resale.{Conserves, relist_private-Conserves}
use nulla_relay.ProofHub.Tree.{v2_insert}
use nulla_relay.ProofHub.Calls.{Request, perform, run}
use nulla_relay.ProofHub.Ledger.Nullifiers.{count_moved, ownership_moves_once}
use nulla_relay.ProofHub.Tests.{config, opened}

-- A note of the first version that is worth 130, and an ownership record to resell for 100.
abbrev resale : RelistInputs
resale = record {
  old_tx_id = 9;
  rwa_id = 3;
  ownership_blinding = 12;
  new_buyer_spend_tag = 5;
  price = 100;
  payment_commitment = 101;
  payment_spend_tag = 6;
  change_commitment = some 32;
  change_spend_tag = some 7;
  new_ownership_commitment = 2;
  new_tx_id = 10;
  buyer_value = 130;
  buyer_blinding = 1;
  payment_blinding = 1;
  change_value = some 30;
  change_blinding = some 2;
}

abbrev resellable : State
resellable = record opened {
  spend_tag_commitments = update 5 (some 131) (λ tag. none);
  ownership_commitments = update 9 (some (compute_ownership_commitment config 3 12)) (λ tx. none);
}

resale_moves :
    count_moved 9 (dispatch (relist_private config Origin.unsigned resale) resellable).outbox ≡ 1
unfolding relist_private run perform build deposit_v2 set_rwa_price v2_insert v2_insert_leaf insert
    root do_insert_note commit_merkle check_change insert_outputs compute_ownership_commitment
    to_le_bytes
resale_moves = refl

-- The same ownership is offered for resale twice.
abbrev resales : List (Origin × Request)
resales = (Origin.unsigned, Request.relist resale) ∷ (Origin.unsigned, Request.relist resale) ∷ []

ownership_moves_once_example :
    let s' = run config resales resellable in
    (count_moved 9 s'.outbox + once (resellable.ownership_used 9)
      ≡ count_moved 9 resellable.outbox + once (s'.ownership_used 9))
    × (once (resellable.ownership_used 9) ≤ once (s'.ownership_used 9))
ownership_moves_once_example = ownership_moves_once config resales resellable 9

relist_private-Conserves_example :
    (dispatch (relist_private config Origin.unsigned resale) resellable ≡ resellable)
    ⊎ Conserves config resellable resale
relist_private-Conserves_example = relist_private-Conserves config resellable Origin.unsigned resale

compute_merkle_root_stops_example :
    let level = pad_level 5 (11 ∷ 22 ∷ 33 ∷ 44 ∷ 55 ∷ []) in
    IsPadded level × (length level < 2 * 5) × (length (fold_levels config (length level) level) ≡ 1)
compute_merkle_root_stops_example = compute_merkle_root_stops config 11 (22 ∷ 33 ∷ 44 ∷ 55 ∷ [])

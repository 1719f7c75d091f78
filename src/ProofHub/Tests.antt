-- ===== src/ProofHub/Tests.antt =====
-- A small chain with the ProofHub pallet (proofhub/pallets/proofs/src/lib.rs), with the tree of the
-- verifier over a small hash.
mod Ledger
mod Notes
use nulla_relay.Prelude.{
  ℕ, ◌+◌, ◌-◌, ◌*◌, ◌%◌, ◌≤◌, ◌<◌, ◌^◌, Bool, true, false, Option, none, some, List, [], ◌∷◌, ◌≡◌,
  refl, ap, ◌⊎◌, inl, inr, arith, ◌==◌, leb, leb→le, by_true, if◌then◌else◌, length, replicate,
  to_le_bytes, get_elem?,
}
use nulla_relay.Frame.{Origin, update, dispatch}
use nulla_relay.Verifier.Tree.{insert, root, v2_insert_leaf, reference_root, merkle_depth}
use nulla_relay.ProofHub.Types.{
  Config, ProofVerify, Balances, SpendPublicV2, WithdrawPublicV2, RelistInputs,
}
use nulla_relay.ProofHub.Storage.{State, build}
use nulla_relay.ProofHub.Spend.{
  purchase_rwa_v2, deposit_v2, set_rwa_price, set_access_config, withdraw_v2,
}
use nulla_relay.ProofHub.Access.{purchase_access_v2}
use nulla_relay.ProofHub.Notes.{compute_ownership_commitment, do_insert_note, commit_merkle}
use nulla_relay.ProofHub.Notes.{pad_level, fold_levels}
use nulla_relay.ProofHub.Notes.Root.{IsPadded, compute_merkle_root_stops}
use nulla_relay.ProofHub.Notes.Window.{commits, recent_roots_window}
use nulla_relay.ProofHub.Relist.{check_change, insert_outputs, relist_private}
use nulla_relay.ProofHub.Ledger.Resale.{Conserves, relist_private-Conserves}
use nulla_relay.ProofHub.Ledger.Purchase.{
  purchase_rwa_v2_outcome, purchase_access_v2_outcome, RwaBought, AccessBought,
}
use nulla_relay.ProofHub.Tree.{v2_insert, v2_root_anchored}
use nulla_relay.ProofHub.Calls.{Request, perform, run}
use nulla_relay.ProofHub.Ledger.Nullifiers.{
  count_paid, count_moved, nullifier_pays_once, ownership_moves_once, spent_nullifier_pays_nothing,
}
use nulla_relay.ProofHub.Ledger.Notes.{note_calls_closed}
use nulla_relay.ProofHub.Validate.{validate_unsigned}
use nulla_relay.ProofHub.Validate.Accepted.{is_accepted, changes_only_accepted}
use nulla_relay.ProofHub.Ledger.Pool.{FillsPool, Spends, pool_falls_by_spending}
use nulla_relay.ProofHub.Ledger.TreeRoot.{StandsAt, current_root_refines}

abbrev pub mix : ℕ → ℕ → ℕ
mix a b = (3 * a + 5 * b + 7) % 1000003

abbrev pub verifier : ProofVerify
verifier = record {
  verify_commitment = λ value blinding commitment. value + blinding == commitment;
  verify_purchase = λ proof inputs. true;
  verify_withdrawal = λ proof inputs. true;
  verify_range_proof = λ proof commitment. true;
  verify_purchase_proof = λ proof rp change price. true;
  verify_deposit_v2 = λ proof amount leaf. true;
  verify_spend_v2 = λ proof root nullifier pkd amount leaf change_pkd purchase. true;
  verify_spend_auth_v2 = λ auth inputs withdraw. true;
  v2_insert_leaf = v2_insert_leaf mix;
  v2_zero_change_leaf = 0;
}

abbrev pub decode_spend : List ℕ → Option SpendPublicV2
decode_spend (root ∷ nullifier ∷ rwa ∷ tx ∷ k ∷ leaf ∷ pkd ∷ []) = some (record {
  merkle_root = root;
  nullifier = nullifier;
  rwa_id = rwa;
  tx_id = tx;
  ownership_commitment = k;
  change_leaf = leaf;
  change_pkd = pkd;
})
decode_spend inputs = none

abbrev pub decode_withdrawal : List ℕ → Option WithdrawPublicV2
decode_withdrawal (root ∷ nullifier ∷ amount ∷ dest ∷ tx ∷ []) = some (record {
  merkle_root = root;
  nullifier = nullifier;
  amount = amount;
  destination = dest;
  tx_id = tx;
})
decode_withdrawal inputs = none

-- An amount goes from one account to another if it is there.
abbrev pub move : Balances → ℕ → ℕ → ℕ → Bool → Option Balances
move b from to amount alive =
    if leb amount (b from)
    then (let taken = update from (b from - amount) b in some (update to (taken to + amount) taken))
    else none

abbrev pub config : Config
config = record {
  verifier = verifier;
  decode_purchase = λ inputs. none;
  decode_withdraw = λ inputs. none;
  decode_spend_v2 = decode_spend;
  decode_withdraw_v2 = decode_withdrawal;
  decode_account = some;
  blake3 = length;
  blake2_256 = length;
  pool_account = 0;
  transfer = move;
}

abbrev pub start : Balances
start = update 8 500 (λ account. 0)

abbrev pub auth : List ℕ
auth = replicate 1312 1

-- A deposit and a price.
abbrev pub opening : List (Origin × Request)
opening = (Origin.signed 8, Request.deposit 41 100 [] []) ∷ (Origin.root, Request.price 3 25) ∷ []

abbrev pub opened : State
opened = run config opening (build start)

abbrev pub buy : (change_leaf : ℕ) → Request
buy leaf = Request.purchase_v2 auth (opened.current_root_v2 ∷ 77 ∷ 3 ∷ 9 ∷ 1 ∷ leaf ∷ 0 ∷ []) []

-- Two purchases with the same nullifier.
abbrev pub purchases : List (Origin × Request)
purchases = (Origin.unsigned, buy 42) ∷ (Origin.unsigned, buy 43) ∷ []

abbrev pub bought : State
bought = run config purchases opened

abbrev pub session : List (Origin × Request)
session =
    (Origin.signed 8, Request.deposit 41 100 [] [])
    ∷ (Origin.root, Request.price 3 25)
    ∷ (Origin.unsigned, buy 42)
    ∷ (Origin.unsigned, buy 43)
    ∷ []

one_purchase : count_paid 77 bought.outbox ≡ 1
unfolding run perform build deposit_v2 set_rwa_price v2_insert v2_root_anchored purchase_rwa_v2
    v2_insert_leaf insert root
one_purchase = refl

pub used : bought.nullifier_used 77 ≡ true
unfolding run perform build deposit_v2 set_rwa_price v2_insert v2_root_anchored purchase_rwa_v2
    v2_insert_leaf insert root
used = refl

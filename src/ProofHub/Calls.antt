-- ===== src/ProofHub/Calls.antt =====
-- The calls of the ProofHub pallet (proofhub/pallets/proofs/src/lib.rs) as requests, and the chain
-- as a run of requests, each in its storage layer.
use nulla_relay.Prelude.{ℕ, List, [], ◌∷◌}
use nulla_relay.Frame.{Origin, dispatch}
use nulla_relay.ProofHub.Types.{Config, RelistInputs}
use nulla_relay.ProofHub.Storage.{State, Call}
use nulla_relay.ProofHub.Legacy.{deposit_public, purchase_rwa, withdraw_private}
use nulla_relay.ProofHub.Relist.{relist_private}
use nulla_relay.ProofHub.Spend.{
  set_rwa_price, set_access_config, deposit_v2, purchase_rwa_v2, withdraw_v2,
}
use nulla_relay.ProofHub.Access.{purchase_access, purchase_access_v2}

-- The variants of the pallet's `Call`, each with its arguments.
pub data Request : Type 0 where
  deposit_legacy :
      (commitment : ℕ) (range_proof : List ℕ) (rp_commitment spend_tag : ℕ) (hints_blob : List ℕ)
      → Request
  purchase withdraw access : (proof public_inputs : List ℕ) → Request
  relist : (inputs : RelistInputs) → Request
  price : (rwa_id price : ℕ) → Request
  app : (app_id price payment_account : ℕ) → Request
  deposit : (leaf amount : ℕ) (deposit_proof hints_blob : List ℕ) → Request
  purchase_v2 withdraw_note_v2 access_v2 : (auth public_inputs spend_proof : List ℕ) → Request

module _ (c : Config) where
  unfoldable pub perform : Origin → Request → Call
  perform o (Request.deposit_legacy k p rp t h) = deposit_public o k p rp t h
  perform o (Request.purchase p i) = purchase_rwa c o p i
  perform o (Request.withdraw p i) = withdraw_private c o p i
  perform o (Request.access p i) = purchase_access c o p i
  perform o (Request.relist i) = relist_private c o i
  perform o (Request.price r p) = set_rwa_price o r p
  perform o (Request.app a p x) = set_access_config o a p x
  perform o (Request.deposit l a p h) = deposit_v2 c o l a p h
  perform o (Request.purchase_v2 a i p) = purchase_rwa_v2 c o a i p
  perform o (Request.withdraw_note_v2 a i p) = withdraw_v2 c o a i p
  perform o (Request.access_v2 a i p) = purchase_access_v2 c o a i p

  unfoldable pub run : List (Origin × Request) → State → State
  run [] s = s
  run ((o, r) ∷ rest) s = run rest (dispatch (perform o r) s)

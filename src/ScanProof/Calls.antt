-- ===== src/ScanProof/Calls.antt =====
-- The calls of the ScanProof pallet (scanproof/pallets/proofs/src/lib.rs) as requests, and the
-- chain as a run of requests, each in its storage layer.
use nulla_relay.Prelude.{ℕ, Option, List, [], ◌∷◌}
use nulla_relay.Frame.{Origin, dispatch}
use nulla_relay.ScanProof.Types.{Config}
use nulla_relay.ScanProof.Storage.{State, Call}
use nulla_relay.ScanProof.Pedersen.{
  set_rwa_price, set_access_config, deposit_public, purchase_rwa, withdraw_private, purchase_access,
}
use nulla_relay.ScanProof.Submit.{submit_proof}
use nulla_relay.ScanProof.Coins.{deposit_coin, purchase_coin, withdraw_coin, purchase_access_coin}

-- The variants of the pallet's `Call`, each with its arguments.
pub data Request : Type 0 where
  deposit : (commitment range_proof hints_blob : List ℕ) → Request
  submit : (proof range_proof public_inputs hints_blob : List ℕ) → Request
  purchase :
      (input_commitment : ℕ) (opening_proof : List ℕ)
      (nullifier rwa_id tx_id ownership_commitment : ℕ) (change_commitment : Option ℕ)
      → Request
  withdraw : (commitment nullifier : ℕ) (opening_proof destination : List ℕ) (value : ℕ) → Request
  price : (rwa_id price : ℕ) → Request
  app : (app_id price payment_account : ℕ) → Request
  access :
      (input_commitment : ℕ) (opening_proof : List ℕ)
      (nullifier app_id tx_id access_key_commitment : ℕ) (change_commitment : Option ℕ)
      → Request
  coin_deposit : (coin amount : ℕ) (open_proof : List ℕ) → Request
  coin_purchase coin_access : (public_inputs one_of_many_proof g1_pok : List ℕ) → Request
  coin_withdraw : (public_inputs one_of_many_proof : List ℕ) → Request

module _ (c : Config) where
  unfoldable pub perform : Origin → Request → Call
  perform o (Request.deposit k r h) = deposit_public c o k r h
  perform o (Request.submit p r i h) = submit_proof c o p r i h
  perform o (Request.purchase k p n r t w change) = purchase_rwa c o k p n r t w change
  perform o (Request.withdraw k n p d v) = withdraw_private c o k n p d v
  perform o (Request.price r p) = set_rwa_price o r p
  perform o (Request.app a p x) = set_access_config o a p x
  perform o (Request.access k p n a t w change) = purchase_access c o k p n a t w change
  perform o (Request.coin_deposit k a p) = deposit_coin c o k a p
  perform o (Request.coin_purchase i p g) = purchase_coin c o i p g
  perform o (Request.coin_access i p g) = purchase_access_coin c o i p g
  perform o (Request.coin_withdraw i p) = withdraw_coin c o i p

  unfoldable pub run : List (Origin × Request) → State → State
  run [] s = s
  run ((o, r) ∷ rest) s = run rest (dispatch (perform o r) s)

-- ===== src/AuthGate/Calls.antt =====
-- The calls of the access-key pallet (authgate-parachain/pallets/access-keys/src/lib.rs) as
-- requests, and the chain as a run of requests, each in its storage layer.
use nulla_relay.Prelude.{ℕ, Bool, Option, List, [], ◌∷◌}
use nulla_relay.Frame.{Origin, dispatch}
use nulla_relay.AuthGate.{
  Config, State, Call, list_access_slot, update_access_slot, xcm_record_access_grant,
  use_access_key,
}

pub data Request : Type 0 where
  list_slot : (app_id : ℕ) (name : List ℕ) (price payment_account : ℕ) → Request
  update_slot :
      (app_id : ℕ) (name : Option (List ℕ)) (price payment_account : Option ℕ)
      (active : Option Bool)
      → Request
  record_grant : (app_id nullifier tx_id access_key_commitment : ℕ) → Request
  use_key : (tx_id blinding : ℕ) → Request

module _ (c : Config) where
  unfoldable pub perform : Origin → Request → Call
  perform o (Request.list_slot a n p x) = list_access_slot c o a n p x
  perform o (Request.update_slot a n p x b) = update_access_slot c o a n p x b
  perform o (Request.record_grant a n t k) = xcm_record_access_grant c o a n t k
  perform o (Request.use_key t b) = use_access_key c o t b

  unfoldable pub run : List (Origin × Request) → State → State
  run [] s = s
  run ((o, r) ∷ rest) s = run rest (dispatch (perform o r) s)

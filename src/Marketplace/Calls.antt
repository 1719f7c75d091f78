-- ===== src/Marketplace/Calls.antt =====
-- The calls of the registry and of the marketplace (rwa-parachain/pallets/rwa-registry/src/lib.rs,
-- rwa-parachain/pallets/rwa-marketplace/src/lib.rs) as requests, and the chain as a run of
-- requests, each in its storage layer.
use nulla_relay.Prelude.{ℕ, Option, List, [], ◌∷◌}
use nulla_relay.Frame.{Origin, dispatch}
use nulla_relay.Registry
use nulla_relay.Registry.{
  register_asset, lock_for_sale, mark_sold, release_after_redemption, set_company_info,
}
use nulla_relay.Marketplace.{
  Config, State, Call, in_registry, list_asset, cancel_listing, buy_privately, redeem_asset,
  xcm_record_purchase, redeem_rwa_ownership,
}

pub data Request : Type 0 where
  register :
      (owner : ℕ) (name description : List ℕ) (category : Registry.AssetCategory)
      (usd_value_cents : ℕ) (metadata : List ℕ)
      → Request
  lock sell release : (asset_id : ℕ) → Request
  set_company : (name disclaimer : List ℕ) → Request
  list : (asset_id seller price_hint : ℕ) → Request
  cancel : (asset_id : ℕ) → Request
  buy : (asset_id entry_commitment_hash : ℕ) → Request
  redeem : (asset_id nullifier_hash : ℕ) (contact : Option (List ℕ)) → Request
  record_purchase : (asset_id buyer spend_tag nullifier tx_id ownership_commitment : ℕ) → Request
  redeem_ownership : (tx_id blinding : ℕ) → Request

module _ (c : Config) where
  unfoldable pub perform : Origin → Request → Call
  unfolding register_asset lock_for_sale mark_sold release_after_redemption set_company_info
  perform o (Request.register owner n d cat v m) =
      in_registry (register_asset c.ensure_admin o owner n d cat v m)
  perform o (Request.lock a) = in_registry (lock_for_sale c.ensure_admin o a)
  perform o (Request.sell a) = in_registry (mark_sold c.ensure_admin o a)
  perform o (Request.release a) = in_registry (release_after_redemption c.ensure_admin o a)
  perform o (Request.set_company n d) = in_registry (set_company_info c.ensure_admin o n d)
  perform o (Request.list a seller p) = list_asset c o a seller p
  perform o (Request.cancel a) = cancel_listing c o a
  perform o (Request.buy a h) = buy_privately c o a h
  perform o (Request.redeem a n contact) = redeem_asset c o a n contact
  perform o (Request.record_purchase a b t n tx k) = xcm_record_purchase c o a b t n tx k
  perform o (Request.redeem_ownership tx b) = redeem_rwa_ownership c o tx b

  unfoldable pub run : List (Origin × Request) → State → State
  run [] s = s
  run ((o, r) ∷ rest) s = run rest (dispatch (perform o r) s)

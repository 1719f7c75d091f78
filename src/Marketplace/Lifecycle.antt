-- ===== src/Marketplace/Lifecycle.antt =====
-- The states of a listing (rwa-parachain/pallets/rwa-marketplace/src/lib.rs) and the moves
-- between them.
use nulla_relay.Prelude.{
  ℕ, Bool, true, Option, none, some, List, [], ◌∷◌, ◌≡◌, ◌≢◌, ◌⊎◌, inl, inr, arith,
}
use nulla_relay.Frame.{Origin, dispatch}
use nulla_relay.Registry
use nulla_relay.Registry.{is_available_for_sale}
use nulla_relay.Marketplace.{
  Config, State, Listing, ListingStatus, genesis, list_asset, cancel_listing, buy_privately,
  redeem_asset, xcm_record_purchase, redeem_rwa_ownership,
}
use nulla_relay.Marketplace.Calls.{Request, perform, run}

abbrev pub status_of : Option Listing → Option ListingStatus
status_of none = none
status_of (some l) = some l.status

-- One call's effect on the listing of an asset, by its status before and after. A listing comes
-- into being, or is replaced, only while the asset is available for sale.
pub data Move (available : Bool) (before after : Option ListingStatus) : Type 0 where
  stay : after ≡ before → Move available before after
  list : available ≡ true → after ≡ some ListingStatus.active → Move available before after
  cancel :
      before ≡ some ListingStatus.active
      → after ≡ some ListingStatus.cancelled
      → Move available before after
  buy :
      available ≡ true
      → before ≡ some ListingStatus.active
      → after ≡ some ListingStatus.sold_privately
      → Move available before after
  redeem :
      before ≡ some ListingStatus.sold_privately
      → after ≡ some ListingStatus.redeemed
      → Move available before after

abbrev status_at : ℕ → State → Option ListingStatus
status_at a s = status_of (s.listings a)

-- What each call that writes listings does to the status of one asset's listing.
module _ (c : Config) (a : ℕ) (o : Origin) (b : ℕ) (s : State) where
  list_effect :
      (seller p : ℕ)
      → let s' = dispatch (list_asset c o b seller p) s in
        (status_at a s' ≡ status_at a s)
        ⊎ ((is_available_for_sale a s.registry ≡ true)
            × (status_at a s' ≡ some ListingStatus.active))
  unfolding list_asset
  list_effect seller p = ground arith

  cancel_effect :
      let s' = dispatch (cancel_listing c o b) s in
      (status_at a s' ≡ status_at a s)
      ⊎ ((status_at a s ≡ some ListingStatus.active)
          × (status_at a s' ≡ some ListingStatus.cancelled))
  unfolding cancel_listing
  cancel_effect = ground arith

  buy_effect :
      (h : ℕ)
      → let s' = dispatch (buy_privately c o b h) s in
        (status_at a s' ≡ status_at a s)
        ⊎ ((is_available_for_sale a s.registry ≡ true)
            × (status_at a s ≡ some ListingStatus.active)
            × (status_at a s' ≡ some ListingStatus.sold_privately))
  unfolding buy_privately
  buy_effect h = ground arith

  redeem_effect :
      (n : ℕ) (contact : Option (List ℕ))
      → let s' = dispatch (redeem_asset c o b n contact) s in
        (status_at a s' ≡ status_at a s)
        ⊎ ((status_at a s ≡ some ListingStatus.sold_privately)
            × (status_at a s' ≡ some ListingStatus.redeemed))
  unfolding redeem_asset
  redeem_effect n contact = ground arith

module _ (c : Config) (a : ℕ) where
  -- Every call by every origin, failed ones included, moves the listing of an asset along the
  -- life cycle: it stays, it is listed while the asset is available, it is cancelled from active,
  -- it is bought from active while the asset is available, or it is redeemed after a private sale.
  pub perform-Move :
      (o : Origin) (r : Request) (s : State)
      → Move
          (is_available_for_sale a s.registry)
          (status_of (s.listings a))
          (status_of ((dispatch (perform c o r) s).listings a))
  unfolding perform list_asset cancel_listing buy_privately redeem_asset xcm_record_purchase
      redeem_rwa_ownership
  perform-Move o (Request.register w n d cat v m) s = Move.stay (ground arith)
  perform-Move o (Request.list b seller p) s = elim (list_effect c a o b s seller p) [
    | inl e ↦ Move.stay e
    | inr (v, e) ↦ Move.list v e
  ]
  perform-Move o (Request.cancel b) s = elim (cancel_effect c a o b s) [
    | inl e ↦ Move.stay e
    | inr (v, e) ↦ Move.cancel v e
  ]
  perform-Move o (Request.buy b h) s = elim (buy_effect c a o b s h) [
    | inl e ↦ Move.stay e
    | inr (v, u, e) ↦ Move.buy v u e
  ]
  perform-Move o (Request.redeem b n contact) s = elim (redeem_effect c a o b s n contact) [
    | inl e ↦ Move.stay e
    | inr (v, e) ↦ Move.redeem v e
  ]
  perform-Move o r s = Move.stay (ground arith)

-- A public sale is a state that no move leads to.
not_public :
    {v : Bool} {x y : Option ListingStatus}
    → Move v x y
    → x ≢ some ListingStatus.sold_publicly
    → y ≢ some ListingStatus.sold_publicly
not_public (Move.stay e) h k = h (cc)
not_public (Move.list v e) h k = cc
not_public (Move.cancel u e) h k = cc
not_public (Move.buy v u e) h k = cc
not_public (Move.redeem u e) h k = cc

module _ (c : Config) (a : ℕ) where
  run_not_public :
      (rs : List (Origin × Request)) (s : State)
      → status_of (s.listings a) ≢ some ListingStatus.sold_publicly
      → status_of ((run c rs s).listings a) ≢ some ListingStatus.sold_publicly
  unfolding run
  run_not_public [] s h = h
  run_not_public ((o, r) ∷ rs) s h = run_not_public rs _ (not_public (perform-Move c a o r s) h)

  -- No run of calls from a genesis state brings a listing to the status `SoldPublicly`.
  pub never_sold_publicly :
      (g : Registry.State) (rs : List (Origin × Request))
      → status_of ((run c rs (genesis g)).listings a) ≢ some ListingStatus.sold_publicly
  never_sold_publicly g rs = run_not_public rs (genesis g) (λ e. cc)

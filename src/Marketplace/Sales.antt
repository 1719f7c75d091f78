-- ===== src/Marketplace/Sales.antt =====
-- How often an asset of the marketplace (rwa-parachain/pallets/rwa-marketplace/src/lib.rs) is sold
-- and redeemed, by the events of its calls.
use nulla_relay.Prelude.{
  ℕ, ◌+◌, ◌≤◌, ◌<◌, Bool, false, Option, none, some, List, [], ◌∷◌, ◌≡◌, arith, ◌==◌, once,
}
use nulla_relay.Frame.{Origin, dispatch}
use nulla_relay.Registry.{RwaAsset, u32_max}
use nulla_relay.Registry
use nulla_relay.Registry.Numbering.{IsNumbered}
use nulla_relay.Marketplace.{
  genesis, Config, State, Event, Listing, is_sold_privately, list_asset, cancel_listing,
  buy_privately, redeem_asset, xcm_record_purchase, redeem_rwa_ownership,
}
use nulla_relay.Marketplace.Calls.{Request, perform, run}

-- How many events say that the asset was sold privately.
abbrev pub count_sold : ℕ → List Event → ℕ
count_sold a [] = 0
count_sold a (Event.asset_sold_privately b buyer h ∷ es) = once (b == a) + count_sold a es
count_sold a (e ∷ es) = count_sold a es

-- How many events say that the asset was redeemed.
abbrev pub count_redeemed : ℕ → List Event → ℕ
count_redeemed a [] = 0
count_redeemed a (Event.asset_redeemed b n ∷ es) = once (b == a) + count_redeemed a es
count_redeemed a (e ∷ es) = count_redeemed a es

abbrev pub sold_flag : Option RwaAsset → Bool
sold_flag none = false
sold_flag (some x) = x.is_sold

-- The asset is sold and waits for its redemption.
abbrev pub pending : Option Listing → Bool
pending none = false
pending (some l) = is_sold_privately l.status

-- Sales are marked in the registry, and redemptions and the one that is pending follow sales.
pub record IsSettled (a : ℕ) (s : State) : Type 0 where
  pub sales : count_sold a s.events ≤ once (sold_flag (s.registry.assets a))
  pub redemptions :
      count_redeemed a s.events + once (pending (s.listings a)) ≤ count_sold a s.events
  pub free : s.registry.next_asset_id ≤ a → s.registry.assets a ≡ none

-- A purchase, field by field; only the asset that is bought is touched.
module _ (c : Config) (a : ℕ) (o : Origin) (b n : ℕ) (s : State) (h : IsSettled a s) where
  buy_sales :
      let s' = dispatch (buy_privately c o b n) s in
      count_sold a s'.events ≤ once (sold_flag (s'.registry.assets a))
  unfolding buy_privately
  buy_sales = ground arith

  buy_redemptions :
      let s' = dispatch (buy_privately c o b n) s in
      count_redeemed a s'.events + once (pending (s'.listings a)) ≤ count_sold a s'.events
  unfolding buy_privately
  buy_redemptions = ground arith

  buy_free :
      let s' = dispatch (buy_privately c o b n) s in
      s'.registry.next_asset_id ≤ a → s'.registry.assets a ≡ none
  unfolding buy_privately
  buy_free = ground arith

-- A redemption, field by field.
module _ (c : Config) (a : ℕ) (o : Origin) (b n : ℕ) (contact : Option (List ℕ)) (s : State)
    (h : IsSettled a s) where
  redeem_sales :
      let s' = dispatch (redeem_asset c o b n contact) s in
      count_sold a s'.events ≤ once (sold_flag (s'.registry.assets a))
  unfolding redeem_asset
  redeem_sales = ground arith

  redeem_redemptions :
      let s' = dispatch (redeem_asset c o b n contact) s in
      count_redeemed a s'.events + once (pending (s'.listings a)) ≤ count_sold a s'.events
  unfolding redeem_asset
  redeem_redemptions = ground arith

  redeem_free :
      let s' = dispatch (redeem_asset c o b n contact) s in
      s'.registry.next_asset_id ≤ a → s'.registry.assets a ≡ none
  unfolding redeem_asset
  redeem_free = ground arith

module _ (c : Config) (a : ℕ) (small : a < u32_max) where
  perform-IsSettled :
      (o : Origin) (r : Request) (s : State)
      → IsSettled a s
      → IsSettled a (dispatch (perform c o r) s)
  unfolding perform list_asset cancel_listing xcm_record_purchase redeem_rwa_ownership
  perform-IsSettled o (Request.register w n d cat v m) s h = ground arith
  perform-IsSettled o (Request.buy b n) s h = record {
    sales = buy_sales c a o b n s h;
    redemptions = buy_redemptions c a o b n s h;
    free = buy_free c a o b n s h;
  }
  perform-IsSettled o (Request.redeem b n contact) s h = record {
    sales = redeem_sales c a o b n contact s h;
    redemptions = redeem_redemptions c a o b n contact s h;
    free = redeem_free c a o b n contact s h;
  }
  perform-IsSettled o r s h = ground arith

  run-IsSettled :
      (rs : List (Origin × Request)) (s : State) → IsSettled a s → IsSettled a (run c rs s)
  unfolding run
  run-IsSettled [] s h = h
  run-IsSettled ((o, r) ∷ rs) s h = run-IsSettled rs _ (perform-IsSettled o r s h)

  -- From a genesis state whose registry has no asset at or above its next id, whatever calls are
  -- made by whom: the asset is sold privately at most once, it is redeemed at most as often as it
  -- was sold, and once it has been sold the registry says so. The last id, 2^32 - 1, is left out.
  pub sold_and_redeemed_once :
      (g : Registry.State) (rs : List (Origin × Request))
      → IsNumbered g
      → let s = run c rs (genesis g) in
        (count_redeemed a s.events ≤ count_sold a s.events)
        × (count_sold a s.events ≤ 1)
        × (count_sold a s.events ≤ once (sold_flag (s.registry.assets a)))
  sold_and_redeemed_once g rs numbered =
      let h =
        run-IsSettled rs (genesis g)
          (record { sales = omega arith; redemptions = omega arith; free = numbered a }) in
      (omega (arith, h.redemptions), ground (arith, h.sales), h.sales)

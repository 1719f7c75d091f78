-- ===== src/Marketplace/Tests.antt =====
-- The marketplace (rwa-parachain/pallets/rwa-marketplace/src/lib.rs) over a registry with two
-- assets, and its theorems at inputs that meet their hypotheses.
use nulla_relay.Prelude.{
  ℕ, ◌≤◌, Bool, true, false, none, List, [], ◌∷◌, ◌≡◌, refl, arith, once, to_le_bytes,
  from_le_bytes,
}
use nulla_relay.Frame.{Origin, ok, dispatch}
use nulla_relay.Registry
use nulla_relay.Registry.{
  RwaAsset, AssetCategory, build, build_assets, is_available_for_sale, internal_mark_sold,
  internal_release,
}
use nulla_relay.Registry.Numbering.{IsNumbered, build-IsNumbered}
use nulla_relay.Marketplace.{
  Config, State, Event, genesis, compute_ownership_commitment, list_asset, buy_privately,
  redeem_asset, xcm_record_purchase, redeem_rwa_ownership,
}
use nulla_relay.Marketplace.Calls.{Request, perform, run}
use nulla_relay.Marketplace.Sales.{count_sold, count_redeemed, sold_flag, sold_and_redeemed_once}
use nulla_relay.Marketplace.Lifecycle.{Move, status_of, perform-Move}
use nulla_relay.Marketplace.Ownership.{count_owned, recorded_purchase_redeems}

abbrev asset : Bool → RwaAsset
asset locked = record {
  asset_id = 0;
  name = [];
  description = [];
  category = AssetCategory.fleet;
  usd_value_cents = 100;
  owner = 5;
  is_locked = locked;
  is_sold = false;
  metadata = [];
}

abbrev is_root : Origin → Bool
is_root Origin.root = true
is_root Origin.unsigned = false
is_root (Origin.signed who) = false

-- The number that the hashed bytes stand for serves as their digest.
abbrev config : Config
config = record { ensure_admin = is_root; proof_hub_sovereign = 2000; blake3 = from_le_bytes }

abbrev two : Registry.State
two = build (asset true ∷ asset false ∷ []) none

two-IsNumbered : IsNumbered two
two-IsNumbered = build-IsNumbered (asset true ∷ asset false ∷ []) none (omega arith)

abbrev key : ℕ
key = compute_ownership_commitment config 0 99

-- A listing, two private purchases and two redemptions of it, and a ProofHub purchase that is
-- redeemed twice.
abbrev session : List (Origin × Request)
session =
    (Origin.root, Request.list 0 5 70)
    ∷ (Origin.signed 6, Request.buy 0 33)
    ∷ (Origin.signed 7, Request.buy 0 34)
    ∷ (Origin.signed 6, Request.redeem 0 11 none)
    ∷ (Origin.signed 6, Request.redeem 0 12 none)
    ∷ (Origin.signed 2000, Request.record_purchase 0 8 1 2 40 key)
    ∷ (Origin.signed 8, Request.redeem_ownership 40 99)
    ∷ (Origin.signed 9, Request.redeem_ownership 40 99)
    ∷ []

session_sales :
    let s = run config session (genesis two) in
    (count_sold 0 s.events ≡ 1) × (count_redeemed 0 s.events ≡ 1) × (count_owned 40 s.events ≡ 1)
unfolding run perform build build_assets list_asset buy_privately redeem_asset xcm_record_purchase
    redeem_rwa_ownership is_available_for_sale internal_mark_sold internal_release
    compute_ownership_commitment to_le_bytes from_le_bytes
session_sales = (refl, refl, refl)

sold_and_redeemed_once_example :
    let s = run config session (genesis two) in
    (count_redeemed 0 s.events ≤ count_sold 0 s.events)
    × (count_sold 0 s.events ≤ 1)
    × (count_sold 0 s.events ≤ once (sold_flag (s.registry.assets 0)))
sold_and_redeemed_once_example =
    sold_and_redeemed_once config 0 (omega arith) two session two-IsNumbered

perform-Move_example : Move (is_available_for_sale 0 two) (status_of ((genesis two).listings 0)) (
    status_of
      ((dispatch (perform config Origin.root (Request.list 0 5 70)) (genesis two)).listings 0))
perform-Move_example = perform-Move config 0 Origin.root (Request.list 0 5 70) (genesis two)

abbrev recorded_state : State
recorded_state =
    run config ((Origin.signed 2000, Request.record_purchase 0 8 1 2 40 key) ∷ []) (genesis two)

recorded_purchase_redeems_example :
    let recorded = xcm_record_purchase config (Origin.signed 2000) 0 8 1 2 40 key (genesis two) in
    let redeemed = redeem_rwa_ownership config (Origin.signed 9) 40 99 recorded.1 in
    (recorded.0 ≡ ok tt)
    × (redeemed.0 ≡ ok tt)
    × (redeemed.1.events ≡ Event.ownership_redeemed 40 0 9 ∷ recorded.1.events)
    × (redeemed.1.ownership_redeemed 40 ≡ true)
recorded_purchase_redeems_example =
    recorded_purchase_redeems config 0 8 1 2 40 99 9 (genesis two) (omega arith) refl refl

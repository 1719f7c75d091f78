-- ===== src/Marketplace.antt =====
-- The RWA marketplace pallet (rwa-parachain/pallets/rwa-marketplace/src/lib.rs) over the registry:
-- listings, private sales and redemptions, and the ownership notes that ProofHub records by XCM.
pub mod Calls
pub mod Sales
pub mod Lifecycle
pub mod Ownership
mod Tests
use nulla_relay.Prelude.{
  ℕ, ◌%◌, ◌^◌, Bool, true, false, not, Option, none, some, List, [], ◌∷◌, ◌++◌, ◌==◌, is_some,
  if◌then◌else◌, ascii, to_le_bytes,
}
use nulla_relay.Frame.{
  Origin, DispatchError, bad_origin, token, panicked, pallet, Result, ok, err, StorageMap, update,
  Exec, gets, ok_or, modify, ensure, ensure_origin, ensure_signed, ◌>>=◌, ◌>>◌,
}
use nulla_relay.Registry
use nulla_relay.Registry.{is_available_for_sale, internal_mark_sold, internal_release}

pub data ListingStatus : Type 0 where
  active sold_privately sold_publicly cancelled redeemed : ListingStatus

abbrev pub is_active : ListingStatus → Bool
is_active ListingStatus.active = true
is_active _ = false

abbrev pub is_sold_privately : ListingStatus → Bool
is_sold_privately ListingStatus.sold_privately = true
is_sold_privately _ = false

pub record Listing : Type 0 where
  pub seller : ℕ
  pub asset_id : ℕ
  pub price_hint : ℕ
  pub status : ListingStatus
  pub entry_commitment_hash : Option ℕ

pub record RedemptionClaim : Type 0 where
  pub asset_id : ℕ
  pub nullifier_hash : ℕ
  pub contact : Option (List ℕ)
  pub redeemer : ℕ

pub record ProofHubPurchaseRecord : Type 0 where
  pub rwa_id : ℕ
  pub buyer : ℕ
  pub spend_tag : ℕ
  pub nullifier : ℕ
  pub ownership_commitment : ℕ

-- The pallet's `Config`, with BLAKE3 as a function from the bytes hashed to the digest.
pub record Config : Type 0 where
  pub ensure_admin : Origin → Bool
  pub proof_hub_sovereign : ℕ
  pub blake3 : List ℕ → ℕ

pub data Event : Type 0 where
  asset_listed : (asset_id seller price_hint : ℕ) → Event
  listing_cancelled : (asset_id : ℕ) → Event
  asset_sold_privately : (asset_id buyer entry_commitment_hash : ℕ) → Event
  redemption_submitted : (asset_id nullifier_hash redeemer : ℕ) → Event
  asset_redeemed : (asset_id nullifier_hash : ℕ) → Event
  proof_hub_purchase_received :
      (tx_id asset_id buyer spend_tag nullifier ownership_commitment : ℕ) → Event
  ownership_redeemed : (tx_id asset_id redeemer : ℕ) → Event

-- The pallet's errors; `registry` is an error that a call of the registry returns.
pub data Error : Type 0 where
  listing_not_found not_seller not_active already_sold asset_not_available_for_sale : Error
  nullifier_already_used asset_not_sold_privately not_proof_hub_sovereign : Error
  purchase_already_recorded purchase_not_found ownership_already_redeemed : Error
  invalid_ownership_proof : Error
  registry : Registry.Error → Error

-- The storage of both pallets, which are in one runtime.
pub record State : Type 0 where
  pub registry : Registry.State
  pub listings : StorageMap (Option Listing)
  pub redemption_claims : StorageMap (Option RedemptionClaim)
  pub nullifier_used : StorageMap Bool
  pub proof_hub_purchases : StorageMap (Option ProofHubPurchaseRecord)
  pub ownership_redeemed : StorageMap Bool
  pub events : List Event

abbrev pub genesis : Registry.State → State
genesis r = record {
  registry = r;
  listings = λ _. none;
  redemption_claims = λ _. none;
  nullifier_used = λ _. false;
  proof_hub_purchases = λ _. none;
  ownership_redeemed = λ _. false;
  events = [];
}

abbrev pub Call : Type 0
Call = Exec State Error (Unit {0})

abbrev pub deposit_event : Event → Call
deposit_event e = modify (λ s. record s { events = e ∷ s.events })

abbrev pub registry_result :
    Result (DispatchError Registry.Error) (Unit {0}) → Result (DispatchError Error) (Unit {0})
registry_result (ok a) = ok a
registry_result (err bad_origin) = err bad_origin
registry_result (err panicked) = err panicked
registry_result (err token) = err token
registry_result (err (pallet e)) = err (pallet (Error.registry e))

-- A call of the registry, on its part of the storage.
abbrev pub in_registry : Registry.Call → Call
in_registry m s = let (r, g) = m s.registry in (registry_result r, record s { registry = g })

abbrev pub put_listing : ℕ → Listing → Call
put_listing asset_id l = modify (λ s. record s { listings = update asset_id (some l) s.listings })

abbrev pub get_listing : ℕ → Exec State Error Listing
get_listing asset_id = do ok_or (← gets (λ s. s.listings asset_id)) listing_not_found

-- `Listings::mutate` of `redeem_asset`
abbrev pub set_redeemed : Option Listing → Option Listing
set_redeemed none = none
set_redeemed (some l) = some (record l { status = ListingStatus.redeemed })

module _ (c : Config) where
  unfoldable pub compute_ownership_commitment : ℕ → ℕ → ℕ
  compute_ownership_commitment rwa_id blinding =
      c.blake3
        (ascii "nulla_rwa_ownership_v1" ++ (to_le_bytes 32 rwa_id ++ to_le_bytes 32 blinding))

  unfoldable pub list_asset : Origin → ℕ → ℕ → ℕ → Call
  unfolding is_available_for_sale
  list_asset origin asset_id seller price_hint = do
    ensure_origin (c.ensure_admin origin)
    available ← gets (λ s. is_available_for_sale asset_id s.registry)
    ensure available asset_not_available_for_sale
    let listing : Listing = record {
      seller = seller;
      asset_id = asset_id;
      price_hint = price_hint;
      status = ListingStatus.active;
      entry_commitment_hash = none;
    }
    put_listing asset_id listing
    deposit_event (Event.asset_listed asset_id seller price_hint)

  unfoldable pub cancel_listing : Origin → ℕ → Call
  unfolding internal_release
  cancel_listing origin asset_id = do
    ensure_origin (c.ensure_admin origin)
    listing ← get_listing asset_id
    ensure (is_active listing.status) not_active
    put_listing asset_id (record listing { status = ListingStatus.cancelled })
    in_registry (internal_release asset_id)
    deposit_event (Event.listing_cancelled asset_id)

  -- `try_mutate` writes the listing back after its closure has marked the asset as sold.
  unfoldable pub buy_privately : Origin → ℕ → ℕ → Call
  unfolding is_available_for_sale internal_mark_sold
  buy_privately origin asset_id entry_commitment_hash = do
    buyer ← ensure_signed origin
    listing ← get_listing asset_id
    ensure (is_active listing.status) not_active
    available ← gets (λ s. is_available_for_sale asset_id s.registry)
    ensure available asset_not_available_for_sale
    let sold : Listing = record listing {
      status = ListingStatus.sold_privately;
      entry_commitment_hash = some entry_commitment_hash;
    }
    in_registry (internal_mark_sold asset_id)
    put_listing asset_id sold
    deposit_event (Event.asset_sold_privately asset_id buyer entry_commitment_hash)

  unfoldable pub redeem_asset : Origin → ℕ → ℕ → Option (List ℕ) → Call
  unfolding internal_release
  redeem_asset origin asset_id nullifier_hash contact = do
    redeemer ← ensure_signed origin
    used ← gets (λ s. s.nullifier_used nullifier_hash)
    ensure (not used) nullifier_already_used
    listing ← get_listing asset_id
    ensure (is_sold_privately listing.status) asset_not_sold_privately
    modify (λ s. record s { nullifier_used = update nullifier_hash true s.nullifier_used })
    let claim : RedemptionClaim = record {
      asset_id = asset_id;
      nullifier_hash = nullifier_hash;
      contact = contact;
      redeemer = redeemer;
    }
    modify (λ s. record s {
      redemption_claims = update nullifier_hash (some claim) s.redemption_claims;
    })
    modify (λ s. record s {
      listings = update asset_id (set_redeemed (s.listings asset_id)) s.listings;
    })
    in_registry (internal_release asset_id)
    deposit_event (Event.redemption_submitted asset_id nullifier_hash redeemer)
    deposit_event (Event.asset_redeemed asset_id nullifier_hash)

  -- `rwa_id` holds the four bytes of the `u32` asset id and zeros.
  unfoldable pub xcm_record_purchase : Origin → ℕ → ℕ → ℕ → ℕ → ℕ → ℕ → Call
  xcm_record_purchase origin asset_id buyer spend_tag nullifier tx_id ownership_commitment = do
    caller ← ensure_signed origin
    ensure (caller == c.proof_hub_sovereign) not_proof_hub_sovereign
    recorded ← gets (λ s. is_some (s.proof_hub_purchases tx_id))
    ensure (not recorded) purchase_already_recorded
    let record' : ProofHubPurchaseRecord = record {
      rwa_id = asset_id % 2 ^ 32;
      buyer = buyer;
      spend_tag = spend_tag;
      nullifier = nullifier;
      ownership_commitment = ownership_commitment;
    }
    modify
        (λ s. record s { proof_hub_purchases = update tx_id (some record') s.proof_hub_purchases })
    deposit_event (
        Event.proof_hub_purchase_received tx_id asset_id buyer spend_tag nullifier
          ownership_commitment)

  -- The asset id of the event is read back from the first four bytes of `rwa_id`.
  unfoldable pub redeem_rwa_ownership : Origin → ℕ → ℕ → Call
  redeem_rwa_ownership origin tx_id blinding = do
    redeemer ← ensure_signed origin
    record' ← ok_or (← gets (λ s. s.proof_hub_purchases tx_id)) purchase_not_found
    spent ← gets (λ s. s.ownership_redeemed tx_id)
    ensure (not spent) ownership_already_redeemed
    ensure (compute_ownership_commitment record'.rwa_id blinding == record'.ownership_commitment)
        invalid_ownership_proof
    modify (λ s. record s { ownership_redeemed = update tx_id true s.ownership_redeemed })
    deposit_event (Event.ownership_redeemed tx_id (record'.rwa_id % 2 ^ 32) redeemer)

-- ===== src/Registry.antt =====
-- The RWA registry pallet (rwa-parachain/pallets/rwa-registry/src/lib.rs): the assets, who owns
-- them, whether they are locked for sale and whether they are sold. `ensure_admin` is the
-- configured `AdminOrigin`.
pub mod Numbering
mod Tests
use nulla_relay.Prelude.{
  ℕ, ◌+◌, ◌-◌, ◌^◌, Bool, true, false, not, ◌&&◌, Option, none, some, List, [], ◌∷◌, ◌==◌, ltb,
  if◌then◌else◌,
}
use nulla_relay.Frame.{
  Origin, StorageMap, update, Exec, gets, ok_or, modify, ensure, ensure_origin, ◌>>=◌, ◌>>◌,
}

pub data AssetCategory : Type 0 where
  real_estate fleet financial_instrument commodity intellectual_property : AssetCategory

pub record RwaAsset : Type 0 where
  pub asset_id : ℕ
  pub name : List ℕ
  pub description : List ℕ
  pub category : AssetCategory
  pub usd_value_cents : ℕ
  pub owner : ℕ
  pub is_locked : Bool
  pub is_sold : Bool
  pub metadata : List ℕ

pub record CompanyInfo : Type 0 where
  pub name : List ℕ
  pub disclaimer : List ℕ

pub data Event : Type 0 where
  asset_registered : (asset_id : ℕ) (name : List ℕ) → Event
  asset_locked asset_unlocked marked_sold : (asset_id : ℕ) → Event
  asset_transferred : (asset_id to : ℕ) → Event

pub data Error : Type 0 where
  asset_not_found already_sold already_locked not_locked unauthorized too_long : Error

pub record State : Type 0 where
  pub assets : StorageMap (Option RwaAsset)
  pub next_asset_id : ℕ
  pub company : Option CompanyInfo
  pub events : List Event

abbrev pub Call : Type 0
Call = Exec State Error (Unit {0})

abbrev pub u32_max : ℕ
u32_max = 4294967295

-- `saturating_add(1)` on a `u32`
abbrev pub saturating_inc : ℕ → ℕ
saturating_inc n = if ltb n u32_max then n + 1 else u32_max

abbrev pub deposit_event : Event → Call
deposit_event e = modify (λ s. record s { events = e ∷ s.events })

abbrev pub put_asset : ℕ → RwaAsset → Call
put_asset asset_id asset = modify (λ s. record s { assets = update asset_id (some asset) s.assets })

abbrev pub get_asset : ℕ → Exec State Error RwaAsset
get_asset asset_id = do ok_or (← gets (λ s. s.assets asset_id)) asset_not_found

module _ (ensure_admin : Origin → Bool) where
  unfoldable pub register_asset : Origin → ℕ → List ℕ → List ℕ → AssetCategory → ℕ → List ℕ → Call
  register_asset origin owner name description category usd_value_cents metadata = do
    ensure_origin (ensure_admin origin)
    asset_id ← gets (λ s. s.next_asset_id)
    let asset : RwaAsset = record {
      asset_id = asset_id;
      name = name;
      description = description;
      category = category;
      usd_value_cents = usd_value_cents;
      owner = owner;
      is_locked = false;
      is_sold = false;
      metadata = metadata;
    }
    put_asset asset_id asset
    modify (λ s. record s { next_asset_id = saturating_inc asset_id })
    deposit_event (Event.asset_registered asset_id name)

  unfoldable pub lock_for_sale : Origin → ℕ → Call
  lock_for_sale origin asset_id = do
    ensure_origin (ensure_admin origin)
    asset ← get_asset asset_id
    ensure (not asset.is_locked) already_locked
    put_asset asset_id (record asset { is_locked = true })
    deposit_event (Event.asset_locked asset_id)

  unfoldable pub mark_sold : Origin → ℕ → Call
  mark_sold origin asset_id = do
    ensure_origin (ensure_admin origin)
    asset ← get_asset asset_id
    ensure (not asset.is_sold) already_sold
    put_asset asset_id (record asset { is_sold = true })
    deposit_event (Event.marked_sold asset_id)

  unfoldable pub release_after_redemption : Origin → ℕ → Call
  release_after_redemption origin asset_id = do
    ensure_origin (ensure_admin origin)
    asset ← get_asset asset_id
    ensure asset.is_locked not_locked
    put_asset asset_id (record asset { is_locked = false })
    deposit_event (Event.asset_unlocked asset_id)

  unfoldable pub set_company_info : Origin → List ℕ → List ℕ → Call
  set_company_info origin name disclaimer = do
    ensure_origin (ensure_admin origin)
    modify (λ s. record s { company = some (record { name = name; disclaimer = disclaimer }) })

-- The loop of `GenesisConfig::build`, on the next id and the assets stored so far.
unfoldable pub build_assets :
    List RwaAsset → ℕ → StorageMap (Option RwaAsset) → ℕ × StorageMap (Option RwaAsset)
build_assets [] next_id m = (next_id, m)
build_assets (asset ∷ rest) next_id m =
    build_assets rest (saturating_inc next_id) (update next_id (some asset) m)

unfoldable pub build : List RwaAsset → Option CompanyInfo → State
unfolding build_assets
build assets company =
    let (next_id, m) = build_assets assets 0 (λ _. none) in
    record { assets = m; next_asset_id = next_id; company = company; events = [] }

abbrev pub locked_and_unsold : Option RwaAsset → Bool
locked_and_unsold none = false
locked_and_unsold (some a) = a.is_locked && not a.is_sold

unfoldable pub is_available_for_sale : ℕ → State → Bool
is_available_for_sale asset_id s = locked_and_unsold (s.assets asset_id)

unfoldable pub internal_mark_sold : ℕ → Call
internal_mark_sold asset_id = do
  asset ← get_asset asset_id
  ensure (not asset.is_sold) already_sold
  put_asset asset_id (record asset { is_sold = true })

unfoldable pub internal_release : ℕ → Call
internal_release asset_id = do
  asset ← get_asset asset_id
  put_asset asset_id (record asset { is_locked = false })

abbrev pub locked_flag : Option RwaAsset → Bool
locked_flag none = false
locked_flag (some a) = a.is_locked

unfoldable pub is_locked : ℕ → State → Bool
is_locked asset_id s = locked_flag (s.assets asset_id)

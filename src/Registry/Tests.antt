-- ===== src/Registry/Tests.antt =====
-- The registry (rwa-parachain/pallets/rwa-registry/src/lib.rs) with two assets, and its theorems
-- at inputs that meet their hypotheses.
use nulla_relay.Prelude.{ℕ, Bool, true, false, none, List, [], ◌∷◌, ◌≡◌, refl, arith}
use nulla_relay.Frame.{Origin}
use nulla_relay.Registry.{AssetCategory, RwaAsset, build, build_assets}
use nulla_relay.Registry.Numbering.{IsNumbered, build-IsNumbered}

abbrev asset : ℕ → Bool → RwaAsset
asset id locked = record {
  asset_id = id;
  name = [];
  description = [];
  category = AssetCategory.fleet;
  usd_value_cents = 100;
  owner = 5;
  is_locked = locked;
  is_sold = false;
  metadata = [];
}

abbrev two : List RwaAsset
two = asset 0 true ∷ asset 1 false ∷ []

abbrev is_root : Origin → Bool
is_root Origin.root = true
is_root Origin.unsigned = false
is_root (Origin.signed who) = false

two-IsNumbered : IsNumbered (build two none)
two-IsNumbered = build-IsNumbered two none (omega arith)

next_two : (build two none).next_asset_id ≡ 2
unfolding build build_assets
next_two = refl

-- ===== src/Registry/Numbering.antt =====
-- How the registry (rwa-parachain/pallets/rwa-registry/src/lib.rs) numbers its assets, at genesis
-- and when one is registered.
use nulla_relay.Prelude.{
  ℕ, zero, suc, ◌+◌, ◌≤◌, ◌<◌, Bool, true, false, ◌∙◌, Option, none, some, List, [], ◌∷◌, ◌≡◌, refl,
  arith, length, get_elem?,
}
use nulla_relay.Frame.{Origin, ok, StorageMap, update}
use nulla_relay.Registry.{
  State, AssetCategory, RwaAsset, CompanyInfo, build_assets, build, u32_max, saturating_inc,
  register_asset,
}

-- No asset is stored at or above the next id.
abbrev pub IsNumbered : State → Type 0
IsNumbered s = (i : ℕ) → s.next_asset_id ≤ i → s.assets i ≡ none

-- The loop leaves what lies below its first id alone.
build_assets_below :
    (xs : List RwaAsset) (next i : ℕ) (m : StorageMap (Option RwaAsset))
    → next + length xs ≤ u32_max
    → i < next
    → (build_assets xs next m).1 i ≡ m i
unfolding build_assets
build_assets_below [] next i m fits lt = refl
build_assets_below (a ∷ rest) next i m fits lt =
    ground (arith, build_assets_below rest (saturating_inc next) i (update next (some a) m))

build_assets_at :
    (xs : List RwaAsset) (next k : ℕ) (m : StorageMap (Option RwaAsset))
    → next + length xs ≤ u32_max
    → ((i : ℕ) → next ≤ i → m i ≡ none)
    → (build_assets xs next m).1 (next + k) ≡ get_elem? xs k
unfolding build_assets
build_assets_at [] next k m fits h = h (next + k) (omega arith)
build_assets_at (a ∷ rest) next zero m fits h =
    ground
      (arith, build_assets_below rest (saturating_inc next) (next + zero) (update next (some a) m))
build_assets_at (a ∷ rest) next (suc k) m fits h =
    ground (arith, build_assets_at rest (saturating_inc next) k (update next (some a) m), h)

next-build_assets :
    (xs : List RwaAsset) (next : ℕ) (m : StorageMap (Option RwaAsset))
    → next + length xs ≤ u32_max
    → (build_assets xs next m).0 ≡ next + length xs
unfolding build_assets
next-build_assets [] next m fits = omega arith
next-build_assets (a ∷ rest) next m fits =
    ground (arith, next-build_assets rest (saturating_inc next) (update next (some a) m))

-- The genesis state stores the configured assets in order under the ids 0, 1, 2, and so on, and
-- nothing else; the next id is their number. There must be less than 2^32 of them.
pub build_stores_in_order :
    (xs : List RwaAsset) (company : Option CompanyInfo)
    → length xs ≤ u32_max
    → ((i : ℕ) → (build xs company).assets i ≡ get_elem? xs i)
      × ((build xs company).next_asset_id ≡ length xs)
unfolding build
build_stores_in_order xs company fits = (
  (λ i.
      let e : 0 + i ≡ i = omega arith in
      rw e at (build_assets_at xs 0 i (λ _. none) (omega arith) (λ j le. refl))),
  omega (arith, next-build_assets xs 0 (λ _. none)),
)

get_elem?_past {ℓ} : {A : Type ℓ} (xs : List A) (i : ℕ) → length xs ≤ i → get_elem? xs i ≡ none
get_elem?_past [] i le = refl
get_elem?_past (x ∷ xs) zero le = absurd (omega arith)
get_elem?_past (x ∷ xs) (suc i) le = get_elem?_past xs i (omega arith)

pub build-IsNumbered :
    (xs : List RwaAsset) (company : Option CompanyInfo)
    → length xs ≤ u32_max
    → IsNumbered (build xs company)
build-IsNumbered xs company fits i le =
    let (stored, next) = build_stores_in_order xs company fits in
    stored i ∙ get_elem?_past xs i (omega (arith, next))

module _ (ensure_admin : Origin → Bool) where
  register_asset-IsNumbered :
      (o : Origin) (owner : ℕ) (name description : List ℕ) (cat : AssetCategory) (value : ℕ)
      (metadata : List ℕ) (s : State)
      → IsNumbered s
      → s.next_asset_id < u32_max
      → IsNumbered (register_asset ensure_admin o owner name description cat value metadata s).1
  unfolding register_asset
  register_asset-IsNumbered o owner name description cat value metadata s h room i le =
      ground (arith, h i)

  -- While there are ids left, an admin's registration succeeds. It stores an unlocked and unsold
  -- asset with that id, owner and value under the next id, which no asset had, changes no other
  -- asset, and moves the next id on by one.
  pub register_asset_fresh :
      (o : Origin) (owner : ℕ) (name description : List ℕ) (cat : AssetCategory) (value : ℕ)
      (metadata : List ℕ) (s : State)
      → IsNumbered s
      → s.next_asset_id < u32_max
      → ensure_admin o ≡ true
      → let (r, s') = register_asset ensure_admin o owner name description cat value metadata s in
        (r ≡ ok tt)
        × (s.assets s.next_asset_id ≡ none)
        × ((a : RwaAsset) × (s'.assets ≡ update s.next_asset_id (some a) s.assets)
            × (a.asset_id ≡ s.next_asset_id)
            × (a.owner ≡ owner)
            × (a.usd_value_cents ≡ value)
            × (a.is_locked ≡ false)
            × (a.is_sold ≡ false))
        × (s'.next_asset_id ≡ s.next_asset_id + 1)
  unfolding register_asset
  register_asset_fresh o owner name description cat value metadata s h room admin = (
    ground arith,
    h s.next_asset_id (omega arith),
    (
      record {
        asset_id = s.next_asset_id;
        name = name;
        description = description;
        category = cat;
        usd_value_cents = value;
        owner = owner;
        is_locked = false;
        is_sold = false;
        metadata = metadata;
      },
      rw admin refl,
      refl,
      refl,
      refl,
      refl,
      refl,
    ),
    ground arith,
  )

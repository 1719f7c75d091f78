-- ===== src/AuthGate.antt =====
-- The AuthGate access-key pallet (authgate-parachain/pallets/access-keys/src/lib.rs): apps are
-- registered by an admin, grants arrive from ProofHub by XCM, and a key is used once.
pub mod Calls
pub mod SingleUse
pub mod Grants
mod Tests
use nulla_relay.Prelude.{
  ℕ, Bool, true, false, not, ◌||◌, Option, none, some, List, [], ◌∷◌, ◌++◌, ◌==◌, is_some,
  if◌then◌else◌, ascii, to_le_bytes,
}
use nulla_relay.Frame.{
  Origin, StorageMap, update, Exec, gets, ok_or, modify, ensure, ensure_origin, ensure_signed,
  ◌>>=◌, ◌>>◌,
}

pub record AppSlot : Type 0 where
  pub name : List ℕ
  pub price : ℕ
  pub payment_account : ℕ
  pub active : Bool

pub record AccessGrant : Type 0 where
  pub app_id : ℕ
  pub nullifier : ℕ
  pub access_key_commitment : ℕ
  pub used : Bool

-- The pallet's `Config`, with BLAKE3 as a function from the bytes hashed to the digest.
pub record Config : Type 0 where
  pub ensure_admin : Origin → Bool
  pub proof_hub_sovereign : ℕ
  pub proof_hub_sovereign2 : ℕ
  pub blake3 : List ℕ → ℕ

pub data Event : Type 0 where
  app_slot_registered : (app_id price : ℕ) → Event
  app_slot_updated : (app_id : ℕ) → Event
  access_grant_received : (tx_id app_id nullifier access_key_commitment : ℕ) → Event
  access_key_used : (tx_id app_id : ℕ) → Event

pub data Error : Type 0 where
  app_not_found app_not_active not_proof_hub_sovereign grant_already_recorded : Error
  grant_not_found key_already_used invalid_blinding app_id_mismatch : Error

pub record State : Type 0 where
  pub app_registry : StorageMap (Option AppSlot)
  pub access_grants : StorageMap (Option AccessGrant)
  pub key_used : StorageMap Bool
  pub events : List Event

abbrev pub genesis : State
genesis = record {
  app_registry = λ _. none;
  access_grants = λ _. none;
  key_used = λ _. false;
  events = [];
}

abbrev pub Call : Type 0
Call = Exec State Error (Unit {0})

abbrev pub deposit_event : Event → Call
deposit_event e = modify (λ s. record s { events = e ∷ s.events })

abbrev pub get_or_keep : {A : Type 0} → Option A → A → A
get_or_keep none old = old
get_or_keep (some new) old = new

module _ (c : Config) where
  abbrev pub admin_only : Origin → Call
  admin_only o = ensure_origin (c.ensure_admin o)

  unfoldable pub compute_access_key_commitment : ℕ → ℕ → ℕ
  compute_access_key_commitment app_id blinding =
      c.blake3 (ascii "nulla_access_key_v1" ++ (to_le_bytes 32 app_id ++ to_le_bytes 32 blinding))

  unfoldable pub list_access_slot : Origin → ℕ → List ℕ → ℕ → ℕ → Call
  list_access_slot origin app_id name price payment_account = do
    admin_only origin
    let slot : AppSlot = record {
      name = name;
      price = price;
      payment_account = payment_account;
      active = true;
    }
    modify (λ s. record s { app_registry = update app_id (some slot) s.app_registry })
    deposit_event (Event.app_slot_registered app_id price)

  unfoldable pub update_access_slot :
      Origin → ℕ → Option (List ℕ) → Option ℕ → Option ℕ → Option Bool → Call
  update_access_slot origin app_id name price payment_account active = do
    admin_only origin
    slot ← ok_or (← gets (λ s. s.app_registry app_id)) app_not_found
    let slot' : AppSlot = record {
      name = get_or_keep name slot.name;
      price = get_or_keep price slot.price;
      payment_account = get_or_keep payment_account slot.payment_account;
      active = get_or_keep active slot.active;
    }
    modify (λ s. record s { app_registry = update app_id (some slot') s.app_registry })
    deposit_event (Event.app_slot_updated app_id)

  unfoldable pub xcm_record_access_grant : Origin → ℕ → ℕ → ℕ → ℕ → Call
  xcm_record_access_grant origin app_id nullifier tx_id access_key_commitment = do
    caller ← ensure_signed origin
    ensure (caller == c.proof_hub_sovereign || caller == c.proof_hub_sovereign2)
        not_proof_hub_sovereign
    slot ← ok_or (← gets (λ s. s.app_registry app_id)) app_not_found
    ensure slot.active app_not_active
    recorded ← gets (λ s. is_some (s.access_grants tx_id))
    ensure (not recorded) grant_already_recorded
    let grant : AccessGrant = record {
      app_id = app_id;
      nullifier = nullifier;
      access_key_commitment = access_key_commitment;
      used = false;
    }
    modify (λ s. record s { access_grants = update tx_id (some grant) s.access_grants })
    deposit_event (Event.access_grant_received tx_id app_id nullifier access_key_commitment)

  unfoldable pub use_access_key : Origin → ℕ → ℕ → Call
  use_access_key origin tx_id blinding = do
    ensure_signed origin
    used ← gets (λ s. s.key_used tx_id)
    ensure (not used) key_already_used
    grant ← ok_or (← gets (λ s. s.access_grants tx_id)) grant_not_found
    ensure (not grant.used) key_already_used
    ensure (compute_access_key_commitment grant.app_id blinding == grant.access_key_commitment)
        invalid_blinding
    let grant' : AccessGrant = record grant { used = true }
    modify (λ s. record s { access_grants = update tx_id (some grant') s.access_grants })
    modify (λ s. record s { key_used = update tx_id true s.key_used })
    deposit_event (Event.access_key_used tx_id grant.app_id)

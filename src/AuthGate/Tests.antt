-- ===== src/AuthGate/Tests.antt =====
-- The access-key pallet (authgate-parachain/pallets/access-keys/src/lib.rs) on a small chain, and
-- its theorems at inputs that meet their hypotheses.
use nulla_relay.Prelude.{
  ℕ, ◌≤◌, Bool, true, false, some, none, List, [], ◌∷◌, ◌≡◌, refl, ◌↔◌, from_le_bytes, to_le_bytes,
}
use nulla_relay.Frame.{Origin, ok}
use nulla_relay.AuthGate.{
  Config, State, AppSlot, Event, genesis, compute_access_key_commitment, list_access_slot,
  xcm_record_access_grant, use_access_key,
}
use nulla_relay.AuthGate.Calls.{Request, perform, run}
use nulla_relay.AuthGate.SingleUse.{
  IsConsistent, count_used, count_granted, single_use, run-IsConsistent,
}
use nulla_relay.AuthGate.Grants.{Opens, granted_key_opens, use_access_key_iff}

abbrev is_root : Origin → Bool
is_root Origin.root = true
is_root Origin.unsigned = false
is_root (Origin.signed who) = false

-- The number that the hashed bytes stand for serves as their digest.
abbrev config : Config
config = record {
  ensure_admin = is_root;
  proof_hub_sovereign = 2000;
  proof_hub_sovereign2 = 2002;
  blake3 = from_le_bytes;
}

abbrev key : ℕ
key = compute_access_key_commitment config 7 99

abbrev setup : List (Origin × Request)
setup =
    (Origin.root, Request.list_slot 7 [] 5 1)
    ∷ (Origin.signed 4, Request.record_grant 7 1 33 key)
    ∷ (Origin.signed 2000, Request.record_grant 7 1 33 key)
    ∷ []

abbrev granted : State
granted = run config setup genesis

abbrev session : List (Origin × Request)
session =
    (Origin.root, Request.list_slot 7 [] 5 1)
    ∷ (Origin.signed 2002, Request.record_grant 7 1 33 key)
    ∷ (Origin.signed 5, Request.use_key 33 98)
    ∷ (Origin.signed 5, Request.use_key 33 99)
    ∷ (Origin.signed 6, Request.use_key 33 99)
    ∷ []

session_uses : count_used 33 (run config session genesis).events ≡ 1
unfolding run perform list_access_slot xcm_record_access_grant use_access_key
    compute_access_key_commitment to_le_bytes from_le_bytes
session_uses = refl

single_use_example :
    (count_used 33 (run config session genesis).events
      ≤ count_granted 33 (run config session genesis).events)
    × (count_granted 33 (run config session genesis).events ≤ 1)
single_use_example = single_use config 33 session

abbrev strangers : List (Origin × Request)
strangers =
    (Origin.root, Request.list_slot 7 [] 5 1)
    ∷ (Origin.signed 4, Request.record_grant 7 1 33 key)
    ∷ []

granted-IsConsistent : IsConsistent 33 granted
granted-IsConsistent =
    run-IsConsistent config 33 setup genesis (record { agrees = refl; uses = refl; grants = refl })

use_access_key_iff_example :
    ((use_access_key config (Origin.signed 5) 33 99 granted).0 ≡ ok tt) ↔ Opens config 33 99 granted
use_access_key_iff_example = use_access_key_iff config 33 5 99 granted granted-IsConsistent

granted_key_works : (use_access_key config (Origin.signed 5) 33 99 granted).0 ≡ ok tt
unfolding run perform list_access_slot xcm_record_access_grant use_access_key
    compute_access_key_commitment to_le_bytes from_le_bytes
granted_key_works = refl

abbrev slot : AppSlot
slot = record { name = []; price = 5; payment_account = 1; active = true }

abbrev listed : State
listed = run config ((Origin.root, Request.list_slot 7 [] 5 1) ∷ []) genesis

slot_listed : listed.app_registry 7 ≡ some slot
unfolding run perform list_access_slot
slot_listed = refl

no_grant : listed.access_grants 33 ≡ none
unfolding run perform list_access_slot
no_grant = refl

not_used : listed.key_used 33 ≡ false
unfolding run perform list_access_slot
not_used = refl

granted_key_opens_example :
    let recorded = xcm_record_access_grant config (Origin.signed 2000) 7 1 33 key listed in
    let used = use_access_key config (Origin.signed 5) 33 99 recorded.1 in
    (recorded.0 ≡ ok tt)
    × (used.0 ≡ ok tt)
    × (used.1.events ≡ Event.access_key_used 33 7 ∷ recorded.1.events)
    × (used.1.key_used 33 ≡ true)
granted_key_opens_example =
    granted_key_opens config 7 1 33 99 5 slot listed slot_listed refl no_grant not_used

-- ===== src/AuthGate/Grants.antt =====
-- What a grant of the access-key pallet (authgate-parachain/pallets/access-keys/src/lib.rs) rests
-- on, how long it lasts, and when its key can be used.
use nulla_relay.Prelude.{
  ℕ, true, false, Option, none, some, List, [], ◌∷◌, ◌≡◌, ◌≢◌, refl, ◌↔◌, arith, Option-cases, inl,
  inr, once, ◌≤◌,
}
use nulla_relay.Frame.{Origin, ok, err, pallet, dispatch}
use nulla_relay.AuthGate.{
  Config, State, AppSlot, AccessGrant, Event, key_already_used, compute_access_key_commitment,
  list_access_slot, update_access_slot, xcm_record_access_grant, use_access_key,
}
use nulla_relay.AuthGate.Calls.{Request, perform, run}
use nulla_relay.AuthGate.SingleUse.{IsConsistent}

-- The later grant is the earlier one, except that its key may have been used since.
abbrev pub Continues : Option AccessGrant → Option AccessGrant → Type 0
Continues (some g) (some g') =
    (g'.app_id ≡ g.app_id)
    × (g'.nullifier ≡ g.nullifier)
    × (g'.access_key_commitment ≡ g.access_key_commitment)
    × (once g.used ≤ once g'.used)
Continues (some g) none = ⊥
Continues none o = Unit

Continues-refl : (o : Option AccessGrant) → Continues o o
Continues-refl none = tt
Continues-refl (some g) = (refl, refl, refl, omega arith)

Continues-trans : (o p q : Option AccessGrant) → Continues o p → Continues p q → Continues o q
Continues-trans none p q h k = tt
Continues-trans (some g) none q h k = absurd h
Continues-trans (some g) (some g') none h k = k
Continues-trans (some g) (some g') (some g'') h k = ground arith

module _ (c : Config) (tx : ℕ) where
  perform-Continues :
      (o : Origin) (r : Request) (s : State)
      → Continues (s.access_grants tx) ((dispatch (perform c o r) s).access_grants tx)
  unfolding perform list_access_slot update_access_slot xcm_record_access_grant use_access_key
  perform-Continues o (Request.list_slot a n p x) s =
      ground (arith, Continues-refl (s.access_grants tx))
  perform-Continues o (Request.update_slot a n p x b) s =
      ground (arith, Continues-refl (s.access_grants tx))
  perform-Continues o (Request.record_grant a n t k) s =
      ground (arith, Continues-refl (s.access_grants tx))
  perform-Continues o (Request.use_key t b) s = ground (arith, Continues-refl (s.access_grants tx))

  -- Whatever calls follow, a recorded grant stays recorded, with the app, the nullifier and the
  -- commitment that it arrived with, and a used one stays used.
  pub grant_lasts :
      (rs : List (Origin × Request)) (s : State)
      → Continues (s.access_grants tx) ((run c rs s).access_grants tx)
  unfolding run
  grant_lasts [] s = Continues-refl (s.access_grants tx)
  grant_lasts ((o, r) ∷ rs) s =
      Continues-trans _ _ _ (perform-Continues o r s) (grant_lasts rs (dispatch (perform c o r) s))

-- The origin is neither of the two ProofHub sovereign accounts.
abbrev pub IsForeign : Config → Origin → Type 0
IsForeign c o =
    (o ≢ Origin.signed c.proof_hub_sovereign) × (o ≢ Origin.signed c.proof_hub_sovereign2)

abbrev pub AllForeign : Config → List (Origin × Request) → Type 0
AllForeign c [] = Unit
AllForeign c ((o, r) ∷ rs) = IsForeign c o × AllForeign c rs

module _ (c : Config) (tx : ℕ) where
  perform_foreign :
      (o : Origin) (r : Request) (s : State)
      → IsForeign c o
      → s.access_grants tx ≡ none
      → (dispatch (perform c o r) s).access_grants tx ≡ none
  unfolding perform list_access_slot update_access_slot xcm_record_access_grant use_access_key
  perform_foreign o (Request.list_slot a n p x) s f h = ground arith
  perform_foreign o (Request.update_slot a n p x b) s f h = ground arith
  perform_foreign o (Request.record_grant a n t k) s f h = ground arith
  perform_foreign o (Request.use_key t b) s f h = ground arith

  -- As long as neither ProofHub sovereign account signs a call, root included, no grant appears
  -- under a transaction id that had none.
  pub grants_come_from_proof_hub :
      (rs : List (Origin × Request)) (s : State)
      → AllForeign c rs
      → s.access_grants tx ≡ none
      → (run c rs s).access_grants tx ≡ none
  unfolding run
  grants_come_from_proof_hub [] s f h = h
  grants_come_from_proof_hub ((o, r) ∷ rs) s f h =
      grants_come_from_proof_hub rs _ f.1 (perform_foreign o r s f.0 h)

  -- What it takes to use the key: a recorded and unused grant, and the blinding that opens its
  -- commitment together with the app of the grant.
  abbrev pub Opens : ℕ → State → Type 0
  Opens blinding s =
      (g : AccessGrant) × (s.access_grants tx ≡ some g)
      × (g.used ≡ false)
      × (compute_access_key_commitment c g.app_id blinding ≡ g.access_key_commitment)

  -- In a consistent state, a signed caller's use of a key succeeds exactly if the grant is
  -- recorded, unused and opened by the blinding; the caller does not matter.
  pub use_access_key_iff :
      (who blinding : ℕ) (s : State)
      → IsConsistent tx s
      → ((use_access_key c (Origin.signed who) tx blinding s).0 ≡ ok tt) ↔ Opens blinding s
  unfolding use_access_key
  use_access_key_iff who blinding s h = elim (Option-cases (s.access_grants tx)) [
    | inl e ↦ (λ r. ground arith, λ (g, eg, u, k). ground arith)
    | inr (g, e) ↦ (λ r. (g, e, ground arith, ground arith), λ (g', eg, u, k). ground arith)
  ]

  perform_keeps_used :
      (o : Origin) (r : Request) (s : State)
      → s.key_used tx ≡ true
      → (dispatch (perform c o r) s).key_used tx ≡ true
  unfolding perform list_access_slot update_access_slot xcm_record_access_grant use_access_key
  perform_keeps_used o (Request.list_slot a n p x) s h = ground arith
  perform_keeps_used o (Request.update_slot a n p x b) s h = ground arith
  perform_keeps_used o (Request.record_grant a n t k) s h = ground arith
  perform_keeps_used o (Request.use_key t b) s h = ground arith

  run_keeps_used :
      (rs : List (Origin × Request)) (s : State)
      → s.key_used tx ≡ true
      → (run c rs s).key_used tx ≡ true
  unfolding run
  run_keeps_used [] s h = h
  run_keeps_used ((o, r) ∷ rs) s h = run_keeps_used rs _ (perform_keeps_used o r s h)

  use_marks_used :
      (o : Origin) (b : ℕ) (s : State)
      → (use_access_key c o tx b s).0 ≡ ok tt
      → (use_access_key c o tx b s).1.key_used tx ≡ true
  unfolding use_access_key
  use_marks_used o b s h = ground arith

  used_key_is_refused :
      (who b : ℕ) (s : State)
      → s.key_used tx ≡ true
      → (use_access_key c (Origin.signed who) tx b s).0 ≡ err (pallet key_already_used)
  unfolding use_access_key
  used_key_is_refused who b s h = ground arith

  -- Once the key has been used, every later use fails with `KeyAlreadyUsed`, whoever signs it,
  -- whatever blinding is shown, and whatever calls were made in between.
  pub no_second_use :
      (who who' b b' : ℕ) (rs : List (Origin × Request)) (s : State)
      → (use_access_key c (Origin.signed who) tx b s).0 ≡ ok tt
      → (use_access_key c
          (Origin.signed who')
          tx
          b'
          (run c rs (use_access_key c (Origin.signed who) tx b s).1)).0
        ≡ err (pallet key_already_used)
  no_second_use who who' b b' rs s h =
      used_key_is_refused who' b' _ (run_keeps_used rs _ (use_marks_used (Origin.signed who) b s h))

module _ (c : Config) where
  -- When the first ProofHub account records a grant for an active application under a transaction
  -- id that is new, with the commitment to that application and a blinding, then whoever signs a
  -- use of the key with that blinding succeeds, and the event names the same application.
  pub granted_key_opens :
      (app nullifier tx blinding who : ℕ) (slot : AppSlot) (s : State)
      → s.app_registry app ≡ some slot
      → slot.active ≡ true
      → s.access_grants tx ≡ none
      → s.key_used tx ≡ false
      → let k = compute_access_key_commitment c app blinding in
        let recorded =
          xcm_record_access_grant c (Origin.signed c.proof_hub_sovereign) app nullifier tx k s in
        let used = use_access_key c (Origin.signed who) tx blinding recorded.1 in
        (recorded.0 ≡ ok tt)
        × (used.0 ≡ ok tt)
        × (used.1.events ≡ Event.access_key_used tx app ∷ recorded.1.events)
        × (used.1.key_used tx ≡ true)
  unfolding xcm_record_access_grant use_access_key
  granted_key_opens app nullifier tx blinding who slot s listed active fresh unused =
      (ground arith, ground arith, ground arith, ground arith)

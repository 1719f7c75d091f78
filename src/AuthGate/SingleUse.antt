-- ===== src/AuthGate/SingleUse.antt =====
-- How often an access key of the access-key pallet
-- (authgate-parachain/pallets/access-keys/src/lib.rs) is used, by the events of its calls.
use nulla_relay.Prelude.{
  ℕ, ◌+◌, ◌≤◌, Bool, false, Option, none, some, List, [], ◌∷◌, ◌≡◌, refl, arith, ◌==◌, is_some,
  once,
}
use nulla_relay.Frame.{Origin, dispatch}
use nulla_relay.AuthGate.{
  Config, State, Event, AccessGrant, genesis, list_access_slot, update_access_slot,
  xcm_record_access_grant, use_access_key,
}
use nulla_relay.AuthGate.Calls.{Request, perform, run}

-- How many events say that the key of `tx` was used.
abbrev pub count_used : ℕ → List Event → ℕ
count_used tx [] = 0
count_used tx (Event.access_key_used t a ∷ es) = once (t == tx) + count_used tx es
count_used tx (e ∷ es) = count_used tx es

-- How many events say that a grant for `tx` arrived.
abbrev pub count_granted : ℕ → List Event → ℕ
count_granted tx [] = 0
count_granted tx (Event.access_grant_received t a n k ∷ es) = once (t == tx) + count_granted tx es
count_granted tx (e ∷ es) = count_granted tx es

abbrev pub used_flag : Option AccessGrant → Bool
used_flag none = false
used_flag (some g) = g.used

-- The two records of use agree, and the events tell the storage's history.
pub record IsConsistent (tx : ℕ) (s : State) : Type 0 where
  pub agrees : used_flag (s.access_grants tx) ≡ s.key_used tx
  pub uses : count_used tx s.events ≡ once (s.key_used tx)
  pub grants : count_granted tx s.events ≡ once (is_some (s.access_grants tx))

module _ (c : Config) (tx : ℕ) where
  perform-IsConsistent :
      (o : Origin) (r : Request) (s : State)
      → IsConsistent tx s
      → IsConsistent tx (dispatch (perform c o r) s)
  unfolding perform list_access_slot update_access_slot xcm_record_access_grant use_access_key
  perform-IsConsistent o (Request.list_slot a n p x) s h = ground arith
  perform-IsConsistent o (Request.update_slot a n p x b) s h = ground arith
  perform-IsConsistent o (Request.record_grant a n t k) s h = ground arith
  perform-IsConsistent o (Request.use_key t b) s h = ground arith

  pub run-IsConsistent :
      (rs : List (Origin × Request)) (s : State) → IsConsistent tx s → IsConsistent tx (run c rs s)
  unfolding run
  run-IsConsistent [] s h = h
  run-IsConsistent ((o, r) ∷ rs) s h = run-IsConsistent rs _ (perform-IsConsistent o r s h)

  -- From the genesis state, whatever calls are made by whom, the key of a transaction id is used
  -- at most once, and not more often than a grant for that id was received, which happens at most
  -- once.
  pub single_use :
      (rs : List (Origin × Request))
      → (count_used tx (run c rs genesis).events ≤ count_granted tx (run c rs genesis).events)
        × (count_granted tx (run c rs genesis).events ≤ 1)
  single_use rs =
      let h = run-IsConsistent rs genesis (record { agrees = refl; uses = refl; grants = refl }) in
      ground (arith, h.agrees, h.uses, h.grants)

-- ===== src/Marketplace/Ownership.antt =====
-- The ownership notes of the marketplace (rwa-parachain/pallets/rwa-marketplace/src/lib.rs) that
-- ProofHub records, and their redemption.
use nulla_relay.Prelude.{
  ℕ, ◌+◌, ◌≤◌, ◌<◌, ◌^◌, ◌%◌, true, false, none, some, List, [], ◌∷◌, ◌≡◌, refl, ◌↔◌, inl, inr,
  arith, ◌==◌, is_some, once, Option-cases,
}
use nulla_relay.Frame.{Origin, ok, dispatch}
use nulla_relay.Registry
use nulla_relay.Marketplace.{
  Config, State, Event, ProofHubPurchaseRecord, genesis, compute_ownership_commitment, list_asset,
  cancel_listing, buy_privately, redeem_asset, xcm_record_purchase, redeem_rwa_ownership,
}
use nulla_relay.Marketplace.Calls.{Request, perform, run}

-- How many events say that the ownership note of `tx` was redeemed.
abbrev pub count_owned : ℕ → List Event → ℕ
count_owned tx [] = 0
count_owned tx (Event.ownership_redeemed t a r ∷ es) = once (t == tx) + count_owned tx es
count_owned tx (e ∷ es) = count_owned tx es

-- How many events say that a redemption spent the nullifier `n`.
abbrev pub count_spent : ℕ → List Event → ℕ
count_spent n [] = 0
count_spent n (Event.asset_redeemed a m ∷ es) = once (m == n) + count_spent n es
count_spent n (e ∷ es) = count_spent n es

-- The guards of one transaction id and one nullifier agree with the events.
pub record IsGuarded (tx n : ℕ) (s : State) : Type 0 where
  pub owned : count_owned tx s.events ≡ once (s.ownership_redeemed tx)
  pub recorded : s.ownership_redeemed tx ≡ true → is_some (s.proof_hub_purchases tx) ≡ true
  pub spent : count_spent n s.events ≡ once (s.nullifier_used n)
  pub claimed : s.nullifier_used n ≡ is_some (s.redemption_claims n)

module _ (c : Config) (tx n : ℕ) where
  perform-IsGuarded :
      (o : Origin) (r : Request) (s : State)
      → IsGuarded tx n s
      → IsGuarded tx n (dispatch (perform c o r) s)
  unfolding perform list_asset cancel_listing buy_privately redeem_asset xcm_record_purchase
      redeem_rwa_ownership
  perform-IsGuarded o (Request.register w n d cat v m) s h = ground arith
  perform-IsGuarded o r s h = ground arith

  run-IsGuarded :
      (rs : List (Origin × Request)) (s : State) → IsGuarded tx n s → IsGuarded tx n (run c rs s)
  unfolding run
  run-IsGuarded [] s h = h
  run-IsGuarded ((o, r) ∷ rs) s h = run-IsGuarded rs _ (perform-IsGuarded o r s h)

  -- From a genesis state, whatever calls are made by whom: the ownership note of a transaction id
  -- is redeemed at most once, and only if ProofHub's purchase is on record under that id; and a
  -- nullifier redeems at most one asset, and exactly if a claim is stored under it.
  pub redeemed_once :
      (g : Registry.State) (rs : List (Origin × Request))
      → let s = run c rs (genesis g) in
        (count_owned tx s.events ≤ once (is_some (s.proof_hub_purchases tx)))
        × (count_spent n s.events ≡ once (is_some (s.redemption_claims n)))
  redeemed_once g rs =
      let h =
        run-IsGuarded rs (genesis g)
          (record { owned = refl; recorded = λ e. ground arith; spent = refl; claimed = refl }) in
      (ground (arith, h.owned, h.recorded), ground (arith, h.spent, h.claimed))

module _ (c : Config) where
  -- What it takes to redeem an ownership note: a recorded purchase that was not redeemed, and the
  -- blinding that opens its commitment together with its asset.
  abbrev pub Owns : ℕ → ℕ → State → Type 0
  Owns tx blinding s =
      (p : ProofHubPurchaseRecord) × (s.proof_hub_purchases tx ≡ some p)
      × (s.ownership_redeemed tx ≡ false)
      × (compute_ownership_commitment c p.rwa_id blinding ≡ p.ownership_commitment)

  -- A signed redemption succeeds exactly if the caller shows what opens the recorded note and the
  -- note has not been redeemed; who signs does not matter.
  pub redeem_rwa_ownership_iff :
      (who tx blinding : ℕ) (s : State)
      → ((redeem_rwa_ownership c (Origin.signed who) tx blinding s).0 ≡ ok tt) ↔ Owns tx blinding s
  unfolding redeem_rwa_ownership
  redeem_rwa_ownership_iff who tx blinding s = elim (Option-cases (s.proof_hub_purchases tx)) [
    | inl e ↦ (λ r. ground arith, λ (p, ep, u, k). ground arith)
    | inr (p, e) ↦ (λ r. (p, e, ground arith, ground arith), λ (p', ep, u, k). ground arith)
  ]

  -- When ProofHub's account records a purchase of a `u32` asset under a new transaction id, with
  -- the commitment to that asset and a blinding, then whoever signs a redemption with that
  -- blinding succeeds, and the event names the same asset.
  pub recorded_purchase_redeems :
      (asset_id buyer tag nullifier tx blinding who : ℕ) (s : State)
      → asset_id < 2 ^ 32
      → s.proof_hub_purchases tx ≡ none
      → s.ownership_redeemed tx ≡ false
      → let k = compute_ownership_commitment c asset_id blinding in
        let recorded =
          xcm_record_purchase c
            (Origin.signed c.proof_hub_sovereign)
            asset_id
            buyer
            tag
            nullifier
            tx
            k
            s in
        let redeemed = redeem_rwa_ownership c (Origin.signed who) tx blinding recorded.1 in
        (recorded.0 ≡ ok tt)
        × (redeemed.0 ≡ ok tt)
        × (redeemed.1.events ≡ Event.ownership_redeemed tx asset_id who ∷ recorded.1.events)
        × (redeemed.1.ownership_redeemed tx ≡ true)
  unfolding xcm_record_purchase redeem_rwa_ownership
  recorded_purchase_redeems a buyer tag n tx b who s small fresh closed =
      let e : a % 2 ^ 32 ≡ a = omega arith in
      (ground arith, ground arith, ground arith, ground arith)

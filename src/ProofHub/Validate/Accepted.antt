-- ===== src/ProofHub/Validate/Accepted.antt =====
-- The pool's checks of a call without a signature against the checks of the call itself
-- (proofhub/pallets/proofs/src/lib.rs).
use nulla_relay.Prelude.{Bool, true, false, ◌≡◌, refl, ◌⊎◌, inl, inr}
use nulla_relay.Frame.{Origin, dispatch}
use nulla_relay.ProofHub.Types.{Config}
use nulla_relay.ProofHub.Storage.{State}
use nulla_relay.ProofHub.Legacy.{deposit_public}
use nulla_relay.ProofHub.Spend.{set_rwa_price, set_access_config, deposit_v2}
use nulla_relay.ProofHub.Calls.{Request, perform}
use nulla_relay.ProofHub.Validate.{Validity, valid, stale, invalid_call, validate_unsigned}
use nulla_relay.ProofHub.Effects.Membership.{
  purchase_rwa_v2_rule, withdraw_v2_rule, purchase_access_v2_rule,
}
use nulla_relay.ProofHub.Effects.Tags.{
  purchase_rwa_rule, withdraw_private_rule, purchase_access_rule,
}
use nulla_relay.ProofHub.Effects.Resale.{relist_private_rule}

abbrev pub is_accepted : Validity → Bool
is_accepted (valid t) = true
is_accepted stale = false
is_accepted invalid_call = false

module _ (c : Config) (s : State) where
  abbrev Accounted : Request → State → Type 0
  Accounted r s' = (s' ≡ s) ⊎ (is_accepted (validate_unsigned c r s) ≡ true)

  -- A call without a signature that changes anything is one that the transaction pool accepts in
  -- the same state.
  pub changes_only_accepted :
      (r : Request)
      → (dispatch (perform c Origin.unsigned r) s ≡ s)
        ⊎ (is_accepted (validate_unsigned c r s) ≡ true)
  unfolding perform validate_unsigned deposit_public set_rwa_price set_access_config deposit_v2
  changes_only_accepted (Request.deposit_legacy k p rp t h) = inl refl
  changes_only_accepted (Request.price r p) = inl refl
  changes_only_accepted (Request.app a p x) = inl refl
  changes_only_accepted (Request.deposit l a p h) = inl refl
  changes_only_accepted (Request.purchase p i) =
      purchase_rwa_rule c (Accounted (Request.purchase p i)) s (inl refl) Origin.unsigned p i
        λ x rp stored e decoded priced opened.
          inr (rw (decoded, opened.known, opened.unspent, opened.fresh) refl)
  changes_only_accepted (Request.withdraw p i) =
      withdraw_private_rule c (Accounted (Request.withdraw p i)) s (inl refl) Origin.unsigned p i
        λ x stored dest b e decoded unspent known signed opened sized account paid.
          inr (rw (decoded, known, unspent) refl)
  changes_only_accepted (Request.access p i) =
      purchase_access_rule c (Accounted (Request.access p i)) s (inl refl) Origin.unsigned p i
        λ x cfg rp stored dest b e decoded listed priced opened account paid.
          inr (rw (decoded, opened.known, opened.unspent, opened.fresh) refl)
  changes_only_accepted (Request.relist x) =
      relist_private_rule c (Accounted (Request.relist x)) s (inl refl) Origin.unsigned x
        λ owned bought e shown.
          inr (rw (shown.recorded, shown.unsold, shown.known, shown.unspent) refl)
  changes_only_accepted (Request.purchase_v2 a i p) =
      purchase_rwa_v2_rule c (Accounted (Request.purchase_v2 a i p)) s (inl refl) Origin.unsigned a
        i p
        λ x g e decoded priced signed shown grows.
          inr (rw (decoded, shown.fresh, shown.anchored) refl)
  changes_only_accepted (Request.withdraw_note_v2 a i p) =
      withdraw_v2_rule c (Accounted (Request.withdraw_note_v2 a i p)) s (inl refl) Origin.unsigned a
        i p
        λ x dest b e decoded signed shown account paid.
          inr (rw (decoded, shown.fresh, shown.anchored) refl)
  changes_only_accepted (Request.access_v2 a i p) =
      purchase_access_v2_rule c (Accounted (Request.access_v2 a i p)) s (inl refl) Origin.unsigned a
        i p
        λ x cfg g dest b e decoded listed priced signed shown grows account paid.
          inr (rw (decoded, shown.fresh, shown.anchored) refl)

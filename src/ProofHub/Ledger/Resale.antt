-- ===== src/ProofHub/Ledger/Resale.antt =====
-- The value that changes hands in a private resale on the ProofHub pallet
-- (proofhub/pallets/proofs/src/lib.rs, `relist_private`).
use nulla_relay.Prelude.{ℕ, ◌+◌, ◌-◌, true, some, ◌≡◌, refl, ◌⊎◌, inl, inr, arith, leb→le}
use nulla_relay.Frame.{Origin, dispatch}
use nulla_relay.ProofHub.Types.{Config, RelistInputs}
use nulla_relay.ProofHub.Storage.{State}
use nulla_relay.ProofHub.Relist.{relist_private}
use nulla_relay.ProofHub.Effects.Resale.{ChangeFits, relist_private_rule}

-- The buyer's note is worth the price and the change, and the commitments of the payment note and
-- of the change note open to these amounts; there is no change note if there is no change.
abbrev pub Conserves : Config → State → RelistInputs → Type 0
Conserves c s x =
    (bought change : ℕ) × (s.spend_tag_commitments x.new_buyer_spend_tag ≡ some bought)
    × (c.verify_commitment x.buyer_value x.buyer_blinding bought ≡ true)
    × (x.buyer_value ≡ x.price + change)
    × (c.verify_commitment x.price x.payment_blinding x.payment_commitment ≡ true)
    × ((change ≡ 0)
        ⊎ ((k b : ℕ) × (x.change_commitment ≡ some k) × (c.verify_commitment change b k ≡ true)))

change_fits :
    (c : Config) (amount : ℕ) (x : RelistInputs)
    → ChangeFits c amount x
    → (amount ≡ 0)
      ⊎ ((k b : ℕ) × (x.change_commitment ≡ some k) × (c.verify_commitment amount b k ≡ true))
change_fits c amount x (inl e) = inl (ground arith)
change_fits c amount x (inr (k, t, b, named, tagged, valued, blinded, opens)) =
    inr (k, b, named, opens)

-- A private resale either changes nothing, or the value of the buyer's note, which is in the
-- storage, is the price plus the change, the payment note opens to the price, and the change note
-- opens to the change if there is any.
pub relist_private-Conserves :
    (c : Config) (s : State) (o : Origin) (x : RelistInputs)
    → (dispatch (relist_private c o x) s ≡ s) ⊎ Conserves c s x
relist_private-Conserves c s o x =
    relist_private_rule c (λ s'. (s' ≡ s) ⊎ Conserves c s x) s (inl refl) o x
      λ owned bought e shown.
        let enough = leb→le x.price x.buyer_value shown.funded in
        inr (
          bought,
          x.buyer_value - x.price,
          shown.known,
          shown.opened,
          omega arith,
          shown.payment,
          change_fits c (x.buyer_value - x.price) x shown.fits,
        )

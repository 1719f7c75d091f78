-- ===== src/ProofHub/Effects/Resale.antt =====
-- The rule for a property `P` of the storage and the private resale of the ProofHub pallet
-- (proofhub/pallets/proofs/src/lib.rs, `relist_private`), and the states on its way.
use nulla_relay.Prelude.{
  ℕ, ◌-◌, true, false, Option, none, some, List, [], ◌∷◌, ◌++◌, ◌≡◌, refl, ◌⊎◌, inl, inr, ◌==◌,
  length, sym, ltb, leb, if◌then◌else◌, ==_iff, by_true, by_some,
}
use nulla_relay.Frame.{Origin, pallet, ok, err, update, dispatch}
use nulla_relay.ProofHub.Types.{
  Config, RelistInputs, Event, Message, Error, missing_change_output, proof_verification_failed,
}
use nulla_relay.ProofHub.Storage.{State}
use nulla_relay.ProofHub.Notes.{
  leaf_hash, compute_merkle_root, compute_ownership_commitment, do_insert_note, commit_merkle,
}
use nulla_relay.ProofHub.Relist.{
  check_fields, check_change, change_outputs, insert_outputs, relist_private,
}
use nulla_relay.ProofHub.Effects.{
  spend_tag, own, announce, transmit, register, committed, do_insert_note_cases,
}

-- The change output: none is needed, or its fields are there and open its commitment to the
-- amount.
abbrev pub ChangeFits : Config → ℕ → RelistInputs → Type 0
ChangeFits c amount x =
    (ltb 0 amount ≡ false)
    ⊎ ((k t b : ℕ) × (x.change_commitment ≡ some k)
        × (x.change_spend_tag ≡ some t)
        × (x.change_value ≡ some amount)
        × (x.change_blinding ≡ some b)
        × (c.verify_commitment amount b k ≡ true))

-- The last root and the storage after the leaves are committed, with the change note if its
-- commitment is new.
abbrev pub settled : Config → ℕ → List ℕ → Option ℕ → Option ℕ → State → ℕ × State
settled c root leaves (some k) (some t) s =
    let grown = leaves ++ leaf_hash c k ∷ [] in
    let last = compute_merkle_root c grown in
    elim (s.commitment_index k) [
      | none ↦ (
        last,
        announce (Event.change_note_created k t last)
            (committed grown last (register k t (length leaves) s)),
      )
      | some i ↦ (root, committed leaves root s)
    ]
settled c root leaves (some k) none s = (root, committed leaves root s)
settled c root leaves none t s = (root, committed leaves root s)

abbrev pub outputs : Config → (amount root : ℕ) → List ℕ → RelistInputs → State → ℕ × State
outputs c amount root leaves x s =
    if ltb 0 amount
    then settled c root leaves x.change_commitment x.change_spend_tag s
    else (root, committed leaves root s)

module _ (c : Config) where
  change_outputs_lem :
      (root : ℕ) (leaves : List ℕ) (k t : Option ℕ) (s : State)
      → change_outputs c root leaves k t s
        ≡ (ok (settled c root leaves k t s).0, (settled c root leaves k t s).1)
  unfolding do_insert_note commit_merkle
  change_outputs_lem root leaves (some k) (some t) s =
      by_some (s.commitment_index k) (λ e. rw (e, settled, change_outputs) refl)
        (λ i e. rw (e, settled, change_outputs) refl)
  change_outputs_lem root leaves (some k) none s = refl
  change_outputs_lem root leaves none t s = refl

  insert_outputs_lem :
      (amount root : ℕ) (leaves : List ℕ) (x : RelistInputs) (s : State)
      → insert_outputs c amount root leaves x s
        ≡ (ok (outputs c amount root leaves x s).0, (outputs c amount root leaves x s).1)
  unfolding insert_outputs commit_merkle
  insert_outputs_lem amount root leaves x s =
      by_true (ltb 0 amount) (λ e. rw e refl)
        λ e. rw e (change_outputs_lem root leaves x.change_commitment x.change_spend_tag s)

  check_fields_cases :
      (amount : ℕ) (k t v b : Option ℕ) (s : State)
      → ((e : Error) × (check_fields c amount k t v b s ≡ (err (pallet e), s)))
        ⊎ (((k' t' b' : ℕ) × (k ≡ some k')
              × (t ≡ some t')
              × (v ≡ some amount)
              × (b ≡ some b')
              × (c.verify_commitment amount b' k' ≡ true))
            × (check_fields c amount k t v b s ≡ (ok tt, s)))
  check_fields_cases amount (some k) (some t) (some v) (some b) s =
      by_true (v == amount) (λ e. inl (proof_verification_failed, rw e refl))
        λ same.
          by_true (c.verify_commitment v b k)
            (λ e. inl (proof_verification_failed, rw (same, e) refl))
            λ opens.
              let v≡amount = (==_iff v amount).0 same in
              inr (
                (k, t, b, refl, refl, rw v≡amount refl, refl, rw (sym v≡amount) opens),
                rw (same, opens) refl,
              )
  check_fields_cases amount (some k) (some t) (some v) none s = inl (missing_change_output, refl)
  check_fields_cases amount (some k) (some t) none b s = inl (missing_change_output, refl)
  check_fields_cases amount (some k) none v b s = inl (missing_change_output, refl)
  check_fields_cases amount none t v b s = inl (missing_change_output, refl)

  check_change_cases :
      (amount : ℕ) (x : RelistInputs) (s : State)
      → ((e : Error) × (check_change c amount x s ≡ (err (pallet e), s)))
        ⊎ (ChangeFits c amount x × (check_change c amount x s ≡ (ok tt, s)))
  unfolding check_change
  check_change_cases amount x s =
      by_true (ltb 0 amount) (λ e. inr (inl e, rw e refl))
        λ e.
          elim (check_fields_cases amount x.change_commitment x.change_spend_tag x.change_value
            x.change_blinding s) [
              | inl (f, e') ↦ inl (f, rw (e, e') refl)
              | inr (fits, e') ↦ inr (inr fits, rw (e, e') refl)
            ]

-- What a private resale shows: an ownership record that was not resold before and that the secret
-- opens, and the buyer's note under an unused tag, opened to a value that covers the price.
pub record Resold (c : Config) (s : State) (x : RelistInputs) (owned bought : ℕ) : Type 0 where
  pub recorded : s.ownership_commitments x.old_tx_id ≡ some owned
  pub unsold : s.ownership_used x.old_tx_id ≡ false
  pub owner : (compute_ownership_commitment c x.rwa_id x.ownership_blinding == owned) ≡ true
  pub known : s.spend_tag_commitments x.new_buyer_spend_tag ≡ some bought
  pub unspent : s.spend_tag_used x.new_buyer_spend_tag ≡ false
  pub opened : c.verify_commitment x.buyer_value x.buyer_blinding bought ≡ true
  pub funded : leb x.price x.buyer_value ≡ true
  pub fits : ChangeFits c (x.buyer_value - x.price) x
  pub payment : c.verify_commitment x.price x.payment_blinding x.payment_commitment ≡ true
  pub new : s.commitment_index x.payment_commitment ≡ none

-- The storage after a resale uses up the ownership record and the buyer's note.
abbrev pub sold : RelistInputs → State → State
sold x s =
    spend_tag x.new_buyer_spend_tag
      (record s { ownership_used = update x.old_tx_id true s.ownership_used })

-- The last root and the storage after the payment note and the change note are in the tree.
abbrev pub paid_out : Config → RelistInputs → State → ℕ × State
paid_out c x s =
    let grown = s.leaves ++ leaf_hash c x.payment_commitment ∷ [] in
    outputs c (x.buyer_value - x.price) (compute_merkle_root c grown) grown x
      (register x.payment_commitment x.payment_spend_tag (length s.leaves) (sold x s))

-- The storage after a resale.
abbrev pub resold : Config → RelistInputs → State → State
resold c x s =
    let done = paid_out c x s in
    transmit (Message.rwa_transfer x.old_tx_id x.new_ownership_commitment x.new_tx_id) (
      announce (Event.relist_initiated x.old_tx_id x.new_tx_id x.rwa_id) (
        announce (Event.payment_note_created x.payment_commitment x.payment_spend_tag done.0)
          (own x.new_tx_id x.new_ownership_commitment done.1)))

module _ (c : Config) (P : State → Type 0) (s : State) (h : P s) where
  pub relist_private_rule :
      (o : Origin) (x : RelistInputs)
      → ((owned bought : ℕ) → o ≡ Origin.unsigned → Resold c s x owned bought → P (resold c x s))
      → P (dispatch (relist_private c o x) s)
  unfolding relist_private
  relist_private_rule Origin.root x k = h
  relist_private_rule (Origin.signed w) x k = h
  relist_private_rule Origin.unsigned x k =
      by_some (s.ownership_commitments x.old_tx_id) (λ e. rw e h)
        λ owned recorded. rw recorded (
          by_true (s.ownership_used x.old_tx_id)
            (λ unsold. rw unsold (
              by_true (compute_ownership_commitment c x.rwa_id x.ownership_blinding == owned)
                (λ e. rw e h)
                λ owner. rw owner (
                  by_some (s.spend_tag_commitments x.new_buyer_spend_tag) (λ e. rw e h)
                    λ bought known. rw known (
                      by_true (s.spend_tag_used x.new_buyer_spend_tag)
                        (λ unspent.
                          rw (unspent, known)
                            (by_true (c.verify_commitment x.buyer_value x.buyer_blinding bought)
                              (λ e. rw e h)
                              λ opened. rw opened (
                                by_true (leb x.price x.buyer_value) (λ e. rw e h)
                                  λ funded.
                                    rw funded
                                      (elim (check_change_cases c (x.buyer_value - x.price) x s) [
                                        | inl (f, e) ↦ rw e h
                                        | inr (fits, e) ↦ rw e (
                                            by_true
                                              (c.verify_commitment x.price x.payment_blinding
                                                x.payment_commitment)
                                              (λ e. rw e h)
                                              λ payment.
                                                rw payment
                                                  (elim (do_insert_note_cases c x.payment_commitment
                                                    x.payment_spend_tag s.leaves (sold x s)) [
                                                      | inl e' ↦ rw e' h
                                                      | inr (new, e') ↦ rw e' (
                                                          rw
                                                            (insert_outputs_lem c
                                                            (x.buyer_value - x.price)
                                                            (compute_merkle_root c (
                                                            s.leaves
                                                            ++ leaf_hash c x.payment_commitment
                                                            ∷ []))
                                                            (s.leaves
                                                            ++ leaf_hash c x.payment_commitment
                                                            ∷ [])
                                                            x
                                                            (register x.payment_commitment
                                                            x.payment_spend_tag (length s.leaves)
                                                            (sold x s)))
                                                            (k owned bought refl (record {
                                                            recorded = recorded;
                                                            unsold = unsold;
                                                            owner = owner;
                                                            known = known;
                                                            unspent = unspent;
                                                            opened = opened;
                                                            funded = funded;
                                                            fits = fits;
                                                            payment = payment;
                                                            new = new;
                                                            })))
                                                    ]))
                                      ]))))
                        (λ used. rw used h)))))
            (λ used. rw used h))

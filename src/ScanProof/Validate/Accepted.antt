-- ===== src/ScanProof/Validate/Accepted.antt =====
-- What the transaction pool's checks promise of a purchase or a withdrawal with a Pedersen note
-- (scanproof/pallets/proofs/src/lib.rs): what it accepts goes through.
use nulla_relay.Prelude.{
  ℕ, Bool, true, false, not, ◌&&◌, Option, none, some, List, ◌≡◌, refl, sym, arith, ◌==◌, ltb,
  is_some, length, from_le_bytes, by_true, by_some, ap, subst,
}
use nulla_relay.Frame.{Origin, is_ok}
use nulla_relay.ScanProof.Types.{Config, Balances}
use nulla_relay.ScanProof.Storage.{State}
use nulla_relay.ScanProof.Notes.{max_leaves, append_note, advance_root}
use nulla_relay.ScanProof.Pedersen.{
  binding, withdraw_binding, effective, insert_change, purchase_rwa, withdraw_private,
}
use nulla_relay.ScanProof.Calls.{Request}
use nulla_relay.ScanProof.Validate.{
  Validity, valid, stale, invalid_call, bad_mandatory, bad_proof, exhausts_resources,
  validate_unsigned, validate_purchase, opened_commitment,
}

abbrev pub is_accepted : Validity → Bool
is_accepted (valid t) = true
is_accepted stale = false
is_accepted invalid_call = false
is_accepted bad_mandatory = false
is_accepted bad_proof = false
is_accepted exhausts_resources = false

-- The change note, if there is one, is new, and the tree has room for it.
abbrev pub can_insert : Option ℕ → State → Bool
can_insert none s = true
can_insert (some k) s = not (is_some (s.commitment_index k)) && ltb (length s.leaves) max_leaves

-- What an accepted purchase has shown.
record Shown (c : Config) (s : State) (price input : ℕ) (proof : List ℕ) (n id tx : ℕ)
    (change : Option ℕ) : Type 0 where
  fresh : s.nullifier_used n ≡ false
  known : is_some (s.commitment_index input) ≡ true
  priced : ltb 0 price ≡ true
  sized : (length proof == 64) ≡ true
  opened : ℕ
  opens : opened_commitment c s input change ≡ some opened
  proved : c.verify_opening_knowledge price opened proof (binding n id tx change) ≡ true

module _ (c : Config) (s : State) where
  accepted-Shown :
      (prefix : _) (price input : ℕ) (proof : List ℕ) (n id tx : ℕ) (change : Option ℕ)
      → is_accepted (validate_purchase c s prefix price input proof n id tx change) ≡ true
      → Shown c s price input proof n id tx change
  accepted-Shown prefix price input proof n id tx change accepted =
      by_true (s.nullifier_used n)
        (λ fresh.
          by_true (is_some (s.commitment_index input)) (λ e. absurd (ground arith))
            λ known.
              by_true (price == 0)
                (λ priced.
                  by_true (length proof == 64) (λ e. absurd (ground arith))
                    λ sized.
                      by_some (opened_commitment c s input change) (λ e. absurd (ground arith))
                        λ opened opens.
                          by_true
                            (c.verify_opening_knowledge price opened proof (binding n id tx change))
                            (λ e. absurd (ground arith))
                            λ proved. record {
                              fresh = fresh;
                              known = known;
                              priced = ground arith;
                              sized = sized;
                              opened = opened;
                              opens = opens;
                              proved = proved;
                            })
                (λ e. absurd (ground arith)))
        (λ e. absurd (ground arith))

  Shown-Ok :
      (input : ℕ) (proof : List ℕ) (n rwa tx own : ℕ) (change : Option ℕ)
      → Shown c s (s.rwa_prices rwa) input proof n rwa tx change
      → can_insert change s ≡ true
      → is_ok (purchase_rwa c Origin.unsigned input proof n rwa tx own change s).0 ≡ true
  unfolding purchase_rwa effective insert_change append_note advance_root
  Shown-Ok input proof n rwa tx own none v free =
      let same : v.opened ≡ input = sym (ap (λ o. elim o [ none ↦ input | some k ↦ k ]) v.opens) in
      let proved =
        subst
          (λ k.
            c.verify_opening_knowledge (s.rwa_prices rwa) k proof (binding n rwa tx none) ≡ true)
          same v.proved in
      rw (v.fresh, v.known, v.priced, v.sized, proved) refl
  Shown-Ok input proof n rwa tx own (some k) v free =
      by_some (s.commitment_index k)
        (λ new.
          let room : ltb (length s.leaves) max_leaves ≡ true = rw new at free in
          rw (v.fresh, v.known, v.priced, new, v.opens, v.sized, v.proved, room) refl)
        (λ i old. absurd (ground arith))

  -- A purchase of an asset that the transaction pool accepts goes through in that state, if its change
  -- note is new and the tree has room for it, or if it has no change note.
  pub accepted_purchase_succeeds :
      (input : ℕ) (proof : List ℕ) (n rwa tx own : ℕ) (change : Option ℕ)
      → is_accepted (validate_unsigned c (Request.purchase input proof n rwa tx own change) s)
        ≡ true
      → can_insert change s ≡ true
      → is_ok (purchase_rwa c Origin.unsigned input proof n rwa tx own change s).0 ≡ true
  unfolding validate_unsigned
  accepted_purchase_succeeds input proof n rwa tx own change accepted free =
      Shown-Ok input proof n rwa tx own change
        (accepted-Shown "ScanRwaPurchase" (s.rwa_prices rwa) input proof n rwa tx change accepted)
        free

  -- A withdrawal that the transaction pool accepts goes through in that state, if its destination is
  -- 32 bytes that decode to an account, and the transfer out of the pool succeeds.
  pub accepted_withdrawal_succeeds :
      (commitment n : ℕ) (proof destination : List ℕ) (value dest : ℕ) (b : Balances)
      → is_accepted (validate_unsigned c (Request.withdraw commitment n proof destination value) s)
        ≡ true
      → (length destination == 32) ≡ true
      → c.decode_account (from_le_bytes destination) ≡ some dest
      → c.transfer s.balances c.pool_account dest value false ≡ some b
      → is_ok (withdraw_private c Origin.unsigned commitment n proof destination value s).0 ≡ true
  unfolding validate_unsigned withdraw_private
  accepted_withdrawal_succeeds k n p d v dest b accepted sized account paid =
      by_true (s.nullifier_used n)
        (λ fresh.
          by_true (is_some (s.commitment_index k)) (λ e. absurd (ground arith))
            λ known.
              by_true (c.verify_opening_knowledge v k p (withdraw_binding n k))
                (λ e. absurd (ground arith))
                (λ proved. rw (known, fresh, proved, sized, account, paid) refl))
        (λ e. absurd (ground arith))

-- ===== src/ScanProof/Effects/Openings.antt =====
-- Rules for a property `P` of the storage and the calls of the ScanProof pallet
-- (scanproof/pallets/proofs/src/lib.rs) on Pedersen notes: where a call stops early, and where all
-- of its checks pass.
use nulla_relay.Prelude.{
  ℕ, true, false, Option, none, some, List, [], ◌∷◌, ◌++◌, ◌≡◌, refl, inl, inr, ◌==◌, length, ltb,
  is_some, from_le_bytes, by_true, by_some, leb, slice, get_or, ◌+◌, ◌%◌, ◌^◌,
}
use nulla_relay.Frame.{Origin, DispatchError, pallet, panicked, ok, err, dispatch}
use nulla_relay.ScanProof.Types.{
  Config, AppConfig, Balances, Event, Message, Error, proof_verification_failed,
}
use nulla_relay.ScanProof.Storage.{State}
use nulla_relay.ScanProof.Notes.{max_leaves, leaf_hash, compute_merkle_root}
use nulla_relay.ScanProof.Pedersen.{
  binding, withdraw_binding, Wire, wire_end, read_wire, deposit_public, purchase_rwa,
  withdraw_private, purchase_access,
}
use nulla_relay.ScanProof.Effects.{
  spend, pay, announce, transmit, appended, with_change, Fits, Opens, transfer_cases,
  append_note_cases, insert_change_cases, effective_cases,
}

-- What a purchase shows of a note: a fresh nullifier, a commitment of the tree, and that the
-- commitment, less its change, opens to the price.
pub record Opened (c : Config) (s : State) (input nullifier id tx_id price opened : ℕ)
    (proof : List ℕ) (change : Option ℕ) : Type 0 where
  pub fresh : s.nullifier_used nullifier ≡ false
  pub known : is_some (s.commitment_index input) ≡ true
  pub priced : ltb 0 price ≡ true
  pub opens : Opens c s input change opened
  pub sized : (length proof == 64) ≡ true
  pub proved :
      c.verify_opening_knowledge price opened proof (binding nullifier id tx_id change) ≡ true

-- A deposit's wire format is read without a look at the storage.
pub read_wire_cases {ℓ} :
    {R : Type ℓ} (rp : List ℕ) (s : State)
    → ((e : DispatchError Error) → read_wire rp s ≡ (err e, s) → R)
    → ((w : Wire) → read_wire rp s ≡ (ok w, s) → R)
    → R
unfolding read_wire
read_wire_cases rp s stop go =
    let failed = pallet proof_verification_failed in
    by_true (leb 13 (length rp)) (λ e. stop failed (rw e refl))
      λ long.
        by_true (get_or rp 0 0 == 1) (λ e. stop failed (rw (long, e) refl))
          λ single.
            by_true (leb ((wire_end rp + 8) % 2 ^ 32) (length rp))
              (λ e. stop failed (rw (long, single, e) refl))
              λ enough.
                by_some (slice 5 (wire_end rp) rp)
                  (λ e. stop panicked (rw (long, single, enough, e) refl))
                  λ proof read.
                    by_some (slice (wire_end rp) (wire_end rp + 8) rp)
                      (λ e. stop panicked (rw (long, single, enough, read, e) refl))
                      λ amount e.
                        go (proof, from_le_bytes amount) (rw (long, single, enough, read, e) refl)

module _ (c : Config) (P : State → Type 0) (s : State) (h : P s) where
  pub purchase_rwa_rule :
      (o : Origin) (input : ℕ) (proof : List ℕ) (n rwa tx own : ℕ) (change : Option ℕ)
      → ((opened : ℕ)
          → o ≡ Origin.unsigned
          → Opened c s input n rwa tx (s.rwa_prices rwa) opened proof change
          → Fits change s.leaves
          → P (
              transmit (Message.rwa_purchase rwa n 0 (s.rwa_prices rwa) tx own) (
                announce
                  (Event.rwa_purchase_authorized rwa tx)
                  (with_change c change (spend n s)))))
      → P (dispatch (purchase_rwa c o input proof n rwa tx own change) s)
  unfolding purchase_rwa
  purchase_rwa_rule Origin.root input proof n rwa tx own change k = h
  purchase_rwa_rule (Origin.signed w) input proof n rwa tx own change k = h
  purchase_rwa_rule Origin.unsigned input proof n rwa tx own change k =
      by_true (s.nullifier_used n)
        (λ fresh. rw fresh (
          by_true (is_some (s.commitment_index input)) (λ e. rw e h)
            λ known. rw known (
              by_true (ltb 0 (s.rwa_prices rwa)) (λ e. rw e h)
                λ priced. rw priced (elim (effective_cases c input change s) [
                  | inl e ↦ rw e h
                  | inr (opened, opens, e) ↦ rw e (
                      by_true (length proof == 64) (λ e. rw e h)
                        λ sized. rw sized (
                          by_true
                            (c.verify_opening_knowledge (s.rwa_prices rwa) opened proof
                              (binding n rwa tx change))
                            (λ e. rw e h)
                            λ proved. rw proved (elim (insert_change_cases c change (spend n s)) [
                              | inl e ↦ rw e h
                              | inr (fits, e) ↦ rw e (
                                  k opened refl
                                    (record {
                                      fresh = fresh;
                                      known = known;
                                      priced = priced;
                                      opens = opens;
                                      sized = sized;
                                      proved = proved;
                                    })
                                    fits)
                            ])))
                ]))))
        (λ used. rw used h)

  pub withdraw_private_rule :
      (o : Origin) (commitment n : ℕ) (proof destination : List ℕ) (value : ℕ)
      → ((dest : ℕ) (b : Balances)
          → o ≡ Origin.unsigned
          → is_some (s.commitment_index commitment) ≡ true
          → s.nullifier_used n ≡ false
          → c.verify_opening_knowledge value commitment proof (withdraw_binding n commitment) ≡ true
          → (length destination == 32) ≡ true
          → c.decode_account (from_le_bytes destination) ≡ some dest
          → c.transfer s.balances c.pool_account dest value false ≡ some b
          → P (announce (Event.withdraw_completed n destination value) (spend n (pay b s))))
      → P (dispatch (withdraw_private c o commitment n proof destination value) s)
  unfolding withdraw_private
  withdraw_private_rule Origin.root x n p d v k = h
  withdraw_private_rule (Origin.signed w) x n p d v k = h
  withdraw_private_rule Origin.unsigned x n p d v k =
      by_true (is_some (s.commitment_index x)) (λ e. rw e h)
        λ known. rw known (
          by_true (s.nullifier_used n)
            (λ fresh. rw fresh (
              by_true (c.verify_opening_knowledge v x p (withdraw_binding n x)) (λ e. rw e h)
                λ proved. rw proved (
                  by_true (length d == 32) (λ e. rw e h)
                    λ sized. rw sized (
                      by_some (c.decode_account (from_le_bytes d)) (λ e. rw e h)
                        λ dest account.
                          rw account (elim (transfer_cases c c.pool_account dest v false s) [
                            | inl e ↦ rw e h
                            | inr (b, paid, e) ↦
                                rw e (k dest b refl known fresh proved sized account paid)
                          ])))))
            (λ used. rw used h))

  pub purchase_access_rule :
      (o : Origin) (input : ℕ) (proof : List ℕ) (n app tx key : ℕ) (change : Option ℕ)
      → ((cfg : AppConfig) (opened dest : ℕ) (b : Balances)
          → o ≡ Origin.unsigned
          → s.access_key_configs app ≡ some cfg
          → Opened c s input n app tx cfg.price opened proof change
          → c.decode_account cfg.payment_account ≡ some dest
          → c.transfer s.balances c.pool_account dest cfg.price false ≡ some b
          → Fits change s.leaves
          → P (
              transmit (Message.access_grant app n tx key) (
                announce
                  (Event.access_purchase_authorized app tx)
                  (with_change c change (pay b (spend n s))))))
      → P (dispatch (purchase_access c o input proof n app tx key change) s)
  unfolding purchase_access
  purchase_access_rule Origin.root input proof n app tx key change k = h
  purchase_access_rule (Origin.signed w) input proof n app tx key change k = h
  purchase_access_rule Origin.unsigned input proof n app tx key change k =
      by_true (s.nullifier_used n)
        (λ fresh. rw fresh (
          by_true (is_some (s.commitment_index input)) (λ e. rw e h)
            λ known. rw known (
              by_some (s.access_key_configs app) (λ e. rw e h)
                λ cfg listed. rw listed (
                  by_true (ltb 0 cfg.price) (λ e. rw e h)
                    λ priced. rw priced (elim (effective_cases c input change s) [
                      | inl e ↦ rw e h
                      | inr (opened, opens, e) ↦ rw e (
                          by_true (length proof == 64) (λ e. rw e h)
                            λ sized. rw sized (
                              by_true
                                (c.verify_opening_knowledge cfg.price opened proof
                                  (binding n app tx change))
                                (λ e. rw e h)
                                λ proved. rw proved (
                                  by_some (c.decode_account cfg.payment_account) (λ e. rw e h)
                                    λ dest account.
                                      rw account
                                        (elim (transfer_cases c c.pool_account dest cfg.price false
                                          (spend n s)) [
                                            | inl e ↦ rw e h
                                            | inr (b, paid, e) ↦
                                                rw e
                                                  (elim (insert_change_cases c change
                                                    (pay b (spend n s))) [
                                                      | inl e ↦ rw e h
                                                      | inr (fits, e) ↦ rw e (
                                                          k cfg opened dest b refl listed
                                                            (record {
                                                            fresh = fresh;
                                                            known = known;
                                                            priced = priced;
                                                            opens = opens;
                                                            sized = sized;
                                                            proved = proved;
                                                            })
                                                            account paid fits)
                                                    ])
                                          ]))))
                    ])))))
        (λ used. rw used h)

  pub deposit_public_rule :
      (o : Origin) (commitment range_proof hints : List ℕ)
      → ((who : ℕ) (w : Wire) (b : Balances)
          → o ≡ Origin.signed who
          → (length commitment == 32) ≡ true
          → read_wire range_proof s ≡ (ok w, s)
          → c.verify_range_proof w.0 (from_le_bytes commitment ∷ []) [] 64 ≡ true
          → c.transfer s.balances who c.pool_account w.1 true ≡ some b
          → s.commitment_index (from_le_bytes commitment) ≡ none
          → ltb (length s.leaves) max_leaves ≡ true
          → P (
              announce
                (Event.deposit_accepted
                  (from_le_bytes commitment)
                  (compute_merkle_root c (s.leaves ++ leaf_hash c (from_le_bytes commitment) ∷ []))
                  hints)
                (appended c (from_le_bytes commitment) (pay b s))))
      → P (dispatch (deposit_public c o commitment range_proof hints) s)
  unfolding deposit_public
  deposit_public_rule Origin.root x rp hints k = h
  deposit_public_rule Origin.unsigned x rp hints k = h
  deposit_public_rule (Origin.signed who) x rp hints k =
      let commitment = from_le_bytes x in
      by_true (length x == 32) (λ e. rw e h)
        λ sized. rw sized (
          read_wire_cases rp s (λ failed e. rw e h)
            λ w read. rw read (
              by_true (c.verify_range_proof w.0 (commitment ∷ []) [] 64) (λ e. rw e h)
                λ proved. rw proved (elim (transfer_cases c who c.pool_account w.1 true s) [
                  | inl e ↦ rw e h
                  | inr (b, paid, e) ↦ rw e (
                      by_some (s.commitment_index commitment)
                        (λ new. rw new (elim (append_note_cases c commitment (pay b s)) [
                          | inl e ↦ rw e h
                          | inr (room, e) ↦ rw e (k who w b refl sized read proved paid new room)
                        ]))
                        (λ i old. rw old h))
                ])))

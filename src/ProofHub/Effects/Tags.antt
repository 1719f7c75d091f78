-- ===== src/ProofHub/Effects/Tags.antt =====
-- Rules for a property `P` of the storage and the v1 calls of the ProofHub pallet
-- (proofhub/pallets/proofs/src/lib.rs): where a call stops early, and where all of its checks pass.
use nulla_relay.Prelude.{
  ℕ, true, false, some, List, ◌≡◌, refl, inl, inr, ◌==◌, length, ltb, is_some, from_le_bytes,
  by_true, by_some,
}
use nulla_relay.Frame.{Origin, dispatch}
use nulla_relay.ProofHub.Types.{
  Config, AppConfig, Balances, RwaPurchaseInputs, WithdrawInputs, Event, Message,
}
use nulla_relay.ProofHub.Storage.{State}
use nulla_relay.ProofHub.Legacy.{purchase_rwa, withdraw_private}
use nulla_relay.ProofHub.Access.{purchase_access}
use nulla_relay.ProofHub.Effects.{
  spend, spend_tag, own, pay, announce, transmit, changed, Resolves, transfer_cases,
  insert_change_lem, resolve_change_rp_cases,
}

-- What a v1 purchase shows: a fresh nullifier, a note under an unused tag, a proof about the price
-- and the registered values of the note and of its change, and a signature.
pub record Opened (c : Config) (s : State) (x : RwaPurchaseInputs) (proof inputs : List ℕ)
    (price rp stored : ℕ) : Type 0 where
  pub fresh : s.nullifier_used x.nullifier ≡ false
  pub known : is_some (s.spend_tag_commitments x.spend_tag) ≡ true
  pub unspent : s.spend_tag_used x.spend_tag ≡ false
  pub resolves : Resolves s x.change_spend_tag rp
  pub registered : s.spend_tag_rp_commitments x.spend_tag ≡ some stored
  pub proved : c.verify_purchase_proof x.purchase_proof stored rp price ≡ true
  pub signed : c.verify_purchase proof inputs ≡ true

module _ (c : Config) (P : State → Type 0) (s : State) (h : P s) where
  pub purchase_rwa_rule :
      (o : Origin) (p i : List ℕ)
      → ((x : RwaPurchaseInputs) (rp stored : ℕ)
          → o ≡ Origin.unsigned
          → c.decode_purchase i ≡ some x
          → ltb 0 (s.rwa_prices x.rwa_id) ≡ true
          → Opened c s x p i (s.rwa_prices x.rwa_id) rp stored
          → P (
              transmit
                (Message.rwa_purchase x.rwa_id x.nullifier x.spend_tag
                  (s.rwa_prices x.rwa_id)
                  x.tx_id
                  x.ownership_commitment)
                (announce (Event.rwa_purchase_authorized x.rwa_id x.tx_id) (
                  changed c x.change_commitment x.change_spend_tag rp (
                    own x.tx_id x.ownership_commitment
                      (spend_tag x.spend_tag (spend x.nullifier s)))))))
      → P (dispatch (purchase_rwa c o p i) s)
  unfolding purchase_rwa
  purchase_rwa_rule Origin.root p i k = h
  purchase_rwa_rule (Origin.signed w) p i k = h
  purchase_rwa_rule Origin.unsigned p i k =
      by_some (c.decode_purchase i) (λ e. rw e h)
        λ x decoded. rw decoded (
          by_true (s.nullifier_used x.nullifier)
            (λ fresh. rw fresh (
              by_true (is_some (s.spend_tag_commitments x.spend_tag)) (λ e. rw e h)
                λ known. rw known (
                  by_true (s.spend_tag_used x.spend_tag)
                    (λ unspent. rw unspent (
                      by_true (ltb 0 (s.rwa_prices x.rwa_id)) (λ e. rw e h)
                        λ priced. rw priced (elim (resolve_change_rp_cases x.change_spend_tag s) [
                          | inl e ↦ rw e h
                          | inr (rp, resolves, e) ↦ rw e (
                              by_some (s.spend_tag_rp_commitments x.spend_tag) (λ e. rw e h)
                                λ stored registered. rw registered (
                                  by_true
                                    (c.verify_purchase_proof x.purchase_proof stored rp
                                      (s.rwa_prices x.rwa_id))
                                    (λ e. rw e h)
                                    λ proved. rw proved (
                                      by_true (c.verify_purchase p i) (λ e. rw e h)
                                        λ signed. rw signed (
                                          rw
                                            (insert_change_lem c x.change_commitment
                                              x.change_spend_tag rp
                                              (own x.tx_id x.ownership_commitment
                                                (spend_tag x.spend_tag (spend x.nullifier s))))
                                            (k x rp stored refl decoded priced (record {
                                              fresh = fresh;
                                              known = known;
                                              unspent = unspent;
                                              resolves = resolves;
                                              registered = registered;
                                              proved = proved;
                                              signed = signed;
                                            }))))))
                        ])))
                    (λ used. rw used h))))
            (λ used. rw used h))

  pub withdraw_private_rule :
      (o : Origin) (p i : List ℕ)
      → ((x : WithdrawInputs) (stored dest : ℕ) (b : Balances)
          → o ≡ Origin.unsigned
          → c.decode_withdraw i ≡ some x
          → s.spend_tag_used x.spend_tag ≡ false
          → s.spend_tag_commitments x.spend_tag ≡ some stored
          → c.verify_withdrawal p i ≡ true
          → c.verify_commitment x.note_value x.note_blinding stored ≡ true
          → (length x.destination == 32) ≡ true
          → c.decode_account (from_le_bytes x.destination) ≡ some dest
          → c.transfer s.balances c.pool_account dest x.note_value false ≡ some b
          → P (
              announce
                (Event.withdraw_completed x.spend_tag x.tx_id)
                (pay b (spend_tag x.spend_tag s))))
      → P (dispatch (withdraw_private c o p i) s)
  unfolding withdraw_private
  withdraw_private_rule Origin.root p i k = h
  withdraw_private_rule (Origin.signed w) p i k = h
  withdraw_private_rule Origin.unsigned p i k =
      by_some (c.decode_withdraw i) (λ e. rw e h)
        λ x decoded. rw decoded (
          by_some (s.spend_tag_commitments x.spend_tag) (λ e. rw e h)
            λ stored known. rw known (
              by_true (s.spend_tag_used x.spend_tag)
                (λ unspent. rw unspent (
                  by_true (c.verify_withdrawal p i) (λ e. rw e h)
                    λ signed.
                      rw (signed, known)
                        (by_true (c.verify_commitment x.note_value x.note_blinding stored)
                          (λ e. rw e h)
                          λ opened. rw opened (
                            by_true (length x.destination == 32) (λ e. rw e h)
                              λ sized. rw sized (
                                by_some (c.decode_account (from_le_bytes x.destination))
                                  (λ e. rw e h)
                                  λ dest account.
                                    rw account
                                      (elim (transfer_cases c c.pool_account dest x.note_value false
                                        (spend_tag x.spend_tag s)) [
                                          | inl e ↦ rw e h
                                          | inr (b, paid, e) ↦ rw e (
                                              k x stored dest b refl decoded unspent known signed
                                                opened sized account paid)
                                        ]))))))
                (λ used. rw used h)))

  pub purchase_access_rule :
      (o : Origin) (p i : List ℕ)
      → ((x : RwaPurchaseInputs) (cfg : AppConfig) (rp stored dest : ℕ) (b : Balances)
          → o ≡ Origin.unsigned
          → c.decode_purchase i ≡ some x
          → s.access_key_configs x.rwa_id ≡ some cfg
          → ltb 0 cfg.price ≡ true
          → Opened c s x p i cfg.price rp stored
          → c.decode_account cfg.payment_account ≡ some dest
          → c.transfer
              (changed c x.change_commitment x.change_spend_tag rp
                (spend_tag x.spend_tag (spend x.nullifier s))).balances
              c.pool_account
              dest
              cfg.price
              false
            ≡ some b
          → P (
              transmit (Message.access_grant x.rwa_id x.nullifier x.tx_id x.ownership_commitment) (
                announce (Event.access_purchase_authorized x.rwa_id x.tx_id) (
                  pay b (
                    changed c x.change_commitment x.change_spend_tag rp
                      (spend_tag x.spend_tag (spend x.nullifier s)))))))
      → P (dispatch (purchase_access c o p i) s)
  unfolding purchase_access
  purchase_access_rule Origin.root p i k = h
  purchase_access_rule (Origin.signed w) p i k = h
  purchase_access_rule Origin.unsigned p i k =
      by_some (c.decode_purchase i) (λ e. rw e h)
        λ x decoded. rw decoded (
          by_true (s.nullifier_used x.nullifier)
            (λ fresh. rw fresh (
              by_true (is_some (s.spend_tag_commitments x.spend_tag)) (λ e. rw e h)
                λ known. rw known (
                  by_true (s.spend_tag_used x.spend_tag)
                    (λ unspent. rw unspent (
                      by_some (s.access_key_configs x.rwa_id) (λ e. rw e h)
                        λ cfg listed. rw listed (
                          by_true (ltb 0 cfg.price) (λ e. rw e h)
                            λ priced.
                              rw priced (elim (resolve_change_rp_cases x.change_spend_tag s) [
                                | inl e ↦ rw e h
                                | inr (rp, resolves, e) ↦ rw e (
                                    by_some (s.spend_tag_rp_commitments x.spend_tag) (λ e. rw e h)
                                      λ stored registered. rw registered (
                                        by_true
                                          (c.verify_purchase_proof x.purchase_proof stored rp
                                            cfg.price)
                                          (λ e. rw e h)
                                          λ proved. rw proved (
                                            by_true (c.verify_purchase p i) (λ e. rw e h)
                                              λ signed. rw signed (
                                                rw
                                                  (insert_change_lem c x.change_commitment
                                                    x.change_spend_tag rp
                                                    (spend_tag x.spend_tag (spend x.nullifier s)))
                                                  (by_some (c.decode_account cfg.payment_account)
                                                    (λ e. rw e h)
                                                    λ dest account.
                                                      rw account
                                                        (elim (transfer_cases c c.pool_account dest
                                                          cfg.price false
                                                          (changed c x.change_commitment
                                                            x.change_spend_tag rp
                                                            (spend_tag x.spend_tag
                                                            (spend x.nullifier s)))) [
                                                              | inl e ↦ rw e h
                                                              | inr (b, paid, e) ↦ rw e (
                                                                k x cfg rp stored dest b refl
                                                                decoded listed priced
                                                                (record {
                                                                fresh = fresh;
                                                                known = known;
                                                                unspent = unspent;
                                                                resolves = resolves;
                                                                registered = registered;
                                                                proved = proved;
                                                                signed = signed;
                                                                })
                                                                account paid)
                                                            ]))))))
                              ]))))
                    (λ used. rw used h))))
            (λ used. rw used h))

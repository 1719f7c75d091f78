-- ===== src/ProofHub/Effects/Membership.antt =====
-- Rules for a property `P` of the storage and the v2 calls of the ProofHub pallet
-- (proofhub/pallets/proofs/src/lib.rs): where a call stops early, and where all of its checks pass.
use nulla_relay.Prelude.{
  ℕ, Bool, true, false, none, some, List, ◌≡◌, refl, inl, inr, length, take, ltb, leb, by_true,
  by_some,
}
use nulla_relay.Frame.{Origin, dispatch}
use nulla_relay.ProofHub.Types.{
  Config, AppConfig, Balances, SpendPublicV2, WithdrawPublicV2, Event, Message,
}
use nulla_relay.ProofHub.Storage.{State}
use nulla_relay.ProofHub.Notes.{compute_pk_digest}
use nulla_relay.ProofHub.Tree.{v2_root_anchored}
use nulla_relay.ProofHub.Spend.{deposit_v2, purchase_rwa_v2, withdraw_v2}
use nulla_relay.ProofHub.Access.{purchase_access_v2}
use nulla_relay.ProofHub.Effects.{
  spend, own, pay, announce, transmit, grow, v2_insert_cases, transfer_cases,
}

-- What a spend of a v2 note shows: a fresh nullifier, a known root, an authorisation and a proof.
-- The proof is about the price or the amount, and about the change leaf and its key.
pub record Shown (c : Config) (s : State) (root nullifier : ℕ) (auth inputs proof : List ℕ)
    (amount leaf pkd : ℕ) (purchase : Bool) : Type 0 where
  pub fresh : s.nullifier_used nullifier ≡ false
  pub anchored : v2_root_anchored root s ≡ true
  pub long : leb 1312 (length auth) ≡ true
  pub proved :
      c.verify_spend_v2 proof root nullifier
        (compute_pk_digest c (take 1312 auth))
        amount
        leaf
        pkd
        purchase
      ≡ true

-- A leaf that was not in the tree, and the tree that the verifier grows by it.
pub record Grows (c : Config) (s : State) (leaf : ℕ) (g : List ℕ × ℕ × ℕ) : Type 0 where
  pub new : s.leaf_index_v2 leaf ≡ none
  pub grown : c.v2_insert_leaf s.frontier_nodes_v2 s.leaf_count_v2 leaf ≡ some g

module _ (c : Config) (P : State → Type 0) (s : State) (h : P s) where
  pub deposit_v2_rule :
      (o : Origin) (leaf amount : ℕ) (proof hints : List ℕ)
      → ((who : ℕ) (b : Balances) (g : List ℕ × ℕ × ℕ)
          → o ≡ Origin.signed who
          → c.verify_deposit_v2 proof amount leaf ≡ true
          → c.transfer s.balances who c.pool_account amount true ≡ some b
          → Grows c s leaf g
          → P (
              announce
                (Event.deposit_v2_accepted leaf s.leaf_count_v2 g.2 hints)
                (grow leaf g (pay b s))))
      → P (dispatch (deposit_v2 c o leaf amount proof hints) s)
  unfolding deposit_v2
  deposit_v2_rule Origin.root leaf amount proof hints k = h
  deposit_v2_rule Origin.unsigned leaf amount proof hints k = h
  deposit_v2_rule (Origin.signed who) leaf amount proof hints k =
      by_true (c.verify_deposit_v2 proof amount leaf) (λ e. rw e h)
        λ proved. rw proved (elim (transfer_cases c who c.pool_account amount true s) [
          | inl e ↦ rw e h
          | inr (b, paid, e) ↦ rw e (elim (v2_insert_cases c leaf (pay b s)) [
            | inl e ↦ rw e h
            | inr (inl e) ↦ rw e h
            | inr (inr (g, new, grown, e)) ↦
                rw e (k who b g refl proved paid (record { new = new; grown = grown }))
          ])
        ])

  pub purchase_rwa_v2_rule :
      (o : Origin) (a i p : List ℕ)
      → ((x : SpendPublicV2) (g : List ℕ × ℕ × ℕ)
          → o ≡ Origin.unsigned
          → c.decode_spend_v2 i ≡ some x
          → ltb 0 (s.rwa_prices x.rwa_id) ≡ true
          → c.verify_spend_auth_v2 a i false ≡ true
          → Shown c s x.merkle_root x.nullifier a i p
              (s.rwa_prices x.rwa_id)
              x.change_leaf
              x.change_pkd
              true
          → Grows c s x.change_leaf g
          → P (
              transmit
                (Message.rwa_purchase x.rwa_id x.nullifier x.nullifier
                  (s.rwa_prices x.rwa_id)
                  x.tx_id
                  x.ownership_commitment)
                (announce
                  (Event.purchase_v2_authorized x.rwa_id x.tx_id x.change_leaf s.leaf_count_v2 g.2)
                  (own x.tx_id x.ownership_commitment
                    (grow x.change_leaf g (spend x.nullifier s))))))
      → P (dispatch (purchase_rwa_v2 c o a i p) s)
  unfolding purchase_rwa_v2
  purchase_rwa_v2_rule Origin.root a i p k = h
  purchase_rwa_v2_rule (Origin.signed w) a i p k = h
  purchase_rwa_v2_rule Origin.unsigned a i p k =
      by_some (c.decode_spend_v2 i) (λ e. rw e h)
        λ x decoded. rw decoded (
          by_true (s.nullifier_used x.nullifier)
            (λ fresh. rw fresh (
              by_true (v2_root_anchored x.merkle_root s) (λ e. rw e h)
                λ anchored. rw anchored (
                  by_true (ltb 0 (s.rwa_prices x.rwa_id)) (λ e. rw e h)
                    λ priced. rw priced (
                      by_true (c.verify_spend_auth_v2 a i false) (λ e. rw e h)
                        λ signed. rw signed (
                          by_true (leb 1312 (length a)) (λ e. rw e h)
                            λ long. rw long (
                              by_true
                                (c.verify_spend_v2 p x.merkle_root x.nullifier
                                  (compute_pk_digest c (take 1312 a)) (s.rwa_prices x.rwa_id)
                                  x.change_leaf x.change_pkd true)
                                (λ e. rw e h)
                                λ proved.
                                  rw proved
                                    (elim (v2_insert_cases c x.change_leaf (spend x.nullifier s)) [
                                      | inl e ↦ rw e h
                                      | inr (inl e) ↦ rw e h
                                      | inr (inr (g, new, grown, e)) ↦ rw e (
                                          k x g refl decoded priced signed
                                            (record {
                                              fresh = fresh;
                                              anchored = anchored;
                                              long = long;
                                              proved = proved;
                                            })
                                            (record { new = new; grown = grown }))
                                    ])))))))
            (λ used. rw used h))

  pub withdraw_v2_rule :
      (o : Origin) (a i p : List ℕ)
      → ((x : WithdrawPublicV2) (dest : ℕ) (b : Balances)
          → o ≡ Origin.unsigned
          → c.decode_withdraw_v2 i ≡ some x
          → c.verify_spend_auth_v2 a i true ≡ true
          → Shown c s x.merkle_root x.nullifier a i p x.amount c.v2_zero_change_leaf 0 false
          → c.decode_account x.destination ≡ some dest
          → c.transfer s.balances c.pool_account dest x.amount false ≡ some b
          → P (announce (Event.withdraw_v2_completed x.tx_id) (pay b (spend x.nullifier s))))
      → P (dispatch (withdraw_v2 c o a i p) s)
  unfolding withdraw_v2
  withdraw_v2_rule Origin.root a i p k = h
  withdraw_v2_rule (Origin.signed w) a i p k = h
  withdraw_v2_rule Origin.unsigned a i p k =
      by_some (c.decode_withdraw_v2 i) (λ e. rw e h)
        λ x decoded. rw decoded (
          by_true (s.nullifier_used x.nullifier)
            (λ fresh. rw fresh (
              by_true (v2_root_anchored x.merkle_root s) (λ e. rw e h)
                λ anchored. rw anchored (
                  by_true (c.verify_spend_auth_v2 a i true) (λ e. rw e h)
                    λ signed. rw signed (
                      by_true (leb 1312 (length a)) (λ e. rw e h)
                        λ long. rw long (
                          by_true
                            (c.verify_spend_v2 p x.merkle_root x.nullifier
                              (compute_pk_digest c (take 1312 a)) x.amount c.v2_zero_change_leaf 0
                              false)
                            (λ e. rw e h)
                            λ proved. rw proved (
                              by_some (c.decode_account x.destination) (λ e. rw e h)
                                λ dest account.
                                  rw account
                                    (elim (transfer_cases c c.pool_account dest x.amount false
                                      (spend x.nullifier s)) [
                                        | inl e ↦ rw e h
                                        | inr (b, paid, e) ↦ rw e (
                                            k x dest b refl decoded signed
                                              (record {
                                                fresh = fresh;
                                                anchored = anchored;
                                                long = long;
                                                proved = proved;
                                              })
                                              account paid)
                                      ])))))))
            (λ used. rw used h))

  pub purchase_access_v2_rule :
      (o : Origin) (a i p : List ℕ)
      → ((x : SpendPublicV2) (cfg : AppConfig) (g : List ℕ × ℕ × ℕ) (dest : ℕ) (b : Balances)
          → o ≡ Origin.unsigned
          → c.decode_spend_v2 i ≡ some x
          → s.access_key_configs x.rwa_id ≡ some cfg
          → ltb 0 cfg.price ≡ true
          → c.verify_spend_auth_v2 a i false ≡ true
          → Shown c s x.merkle_root x.nullifier a i p cfg.price x.change_leaf x.change_pkd true
          → Grows c s x.change_leaf g
          → c.decode_account cfg.payment_account ≡ some dest
          → c.transfer s.balances c.pool_account dest cfg.price false ≡ some b
          → P (
              transmit (Message.access_grant x.rwa_id x.nullifier x.tx_id x.ownership_commitment) (
                announce
                  (Event.access_purchase_v2_authorized x.rwa_id x.tx_id)
                  (pay b (grow x.change_leaf g (spend x.nullifier s))))))
      → P (dispatch (purchase_access_v2 c o a i p) s)
  unfolding purchase_access_v2
  purchase_access_v2_rule Origin.root a i p k = h
  purchase_access_v2_rule (Origin.signed w) a i p k = h
  purchase_access_v2_rule Origin.unsigned a i p k =
      by_some (c.decode_spend_v2 i) (λ e. rw e h)
        λ x decoded. rw decoded (
          by_true (s.nullifier_used x.nullifier)
            (λ fresh. rw fresh (
              by_true (v2_root_anchored x.merkle_root s) (λ e. rw e h)
                λ anchored. rw anchored (
                  by_some (s.access_key_configs x.rwa_id) (λ e. rw e h)
                    λ cfg listed. rw listed (
                      by_true (ltb 0 cfg.price) (λ e. rw e h)
                        λ priced. rw priced (
                          by_true (c.verify_spend_auth_v2 a i false) (λ e. rw e h)
                            λ signed. rw signed (
                              by_true (leb 1312 (length a)) (λ e. rw e h)
                                λ long. rw long (
                                  by_true
                                    (c.verify_spend_v2 p x.merkle_root x.nullifier
                                      (compute_pk_digest c (take 1312 a)) cfg.price x.change_leaf
                                      x.change_pkd true)
                                    (λ e. rw e h)
                                    λ proved.
                                      rw proved
                                        (elim (v2_insert_cases c x.change_leaf
                                          (spend x.nullifier s)) [
                                            | inl e ↦ rw e h
                                            | inr (inl e) ↦ rw e h
                                            | inr (inr (g, new, grown, e)) ↦ rw e (
                                                by_some (c.decode_account cfg.payment_account)
                                                  (λ e'. rw e' h)
                                                  λ dest account.
                                                    rw account
                                                      (elim (transfer_cases c c.pool_account dest
                                                        cfg.price false
                                                        (grow x.change_leaf g
                                                          (spend x.nullifier s))) [
                                                            | inl e' ↦ rw e' h
                                                            | inr (b, paid, e') ↦ rw e' (
                                                              k x cfg g dest b refl decoded listed
                                                              priced signed
                                                              (record {
                                                              fresh = fresh;
                                                              anchored = anchored;
                                                              long = long;
                                                              proved = proved;
                                                              })
                                                              (record { new = new; grown = grown })
                                                              account paid)
                                                          ]))
                                          ]))))))))
            (λ used. rw used h))

-- ===== src/ProofHub/Ledger/Purchase.antt =====
-- What a purchase of the second version brings about on the ProofHub pallet
-- (proofhub/pallets/proofs/src/lib.rs, `purchase_rwa_v2` and `purchase_access_v2`).
use nulla_relay.Prelude.{
  ℕ, ◌<◌, true, false, some, List, ◌∷◌, ◌≡◌, refl, ◌⊎◌, inl, inr, take, ltb→lt, equal_refl,
}
use nulla_relay.Frame.{Origin, dispatch}
use nulla_relay.ProofHub.Types.{Config, AppConfig, SpendPublicV2, Message}
use nulla_relay.ProofHub.Storage.{State}
use nulla_relay.ProofHub.Notes.{compute_pk_digest}
use nulla_relay.ProofHub.Spend.{purchase_rwa_v2}
use nulla_relay.ProofHub.Access.{purchase_access_v2}
use nulla_relay.ProofHub.Effects.Membership.{purchase_rwa_v2_rule, purchase_access_v2_rule}

-- A spend proof is accepted that binds the nullifier, the key of the authorisation, the amount and
-- the change leaf, and the authorisation is accepted for the inputs.
abbrev pub Authorised : Config → SpendPublicV2 → ℕ → (auth inputs proof : List ℕ) → Type 0
Authorised c x amount auth inputs proof =
    (0 < amount)
    × (c.verify_spend_v2 proof x.merkle_root x.nullifier (compute_pk_digest c (take 1312 auth))
          amount x.change_leaf x.change_pkd true
        ≡ true)
    × (c.verify_spend_auth_v2 auth inputs false ≡ true)

-- The nullifier becomes used, the change leaf takes the next index, and one message goes out.
abbrev pub Spent : SpendPublicV2 → Message → State → State → Type 0
Spent x m s s' =
    (s.nullifier_used x.nullifier ≡ false)
    × (s'.nullifier_used x.nullifier ≡ true)
    × (s'.leaf_index_v2 x.change_leaf ≡ some s.leaf_count_v2)
    × (s'.outbox ≡ m ∷ s.outbox)

-- What is so after an RWA purchase of the second version that goes through.
abbrev pub RwaBought : Config → (auth inputs proof : List ℕ) → State → State → Type 0
RwaBought c a i p s s' =
    (x : SpendPublicV2) × (c.decode_spend_v2 i ≡ some x)
    × Authorised c x (s.rwa_prices x.rwa_id) a i p
    × Spent x
        (Message.rwa_purchase x.rwa_id x.nullifier x.nullifier (s.rwa_prices x.rwa_id) x.tx_id
          x.ownership_commitment)
        s s'
    × (s'.ownership_commitments x.tx_id ≡ some x.ownership_commitment)

-- What is so after an access purchase of the second version that goes through.
abbrev pub AccessBought : Config → (auth inputs proof : List ℕ) → State → State → Type 0
AccessBought c a i p s s' =
    (x : SpendPublicV2) × (cfg : AppConfig) × (dest : ℕ) × (c.decode_spend_v2 i ≡ some x)
    × (s.access_key_configs x.rwa_id ≡ some cfg)
    × Authorised c x cfg.price a i p
    × Spent x (Message.access_grant x.rwa_id x.nullifier x.tx_id x.ownership_commitment) s s'
    × (c.decode_account cfg.payment_account ≡ some dest)
    × (c.transfer s.balances c.pool_account dest cfg.price false ≡ some s'.balances)

module _ (c : Config) (s : State) (o : Origin) (a i p : List ℕ) where
  -- An RWA purchase of the second version either changes nothing, or its spend of the listed price
  -- of the RWA is authorised, the nullifier and the change leaf are recorded, the ownership
  -- commitment is stored for the transaction, and the marketplace is told of a payment of that
  -- price.
  pub purchase_rwa_v2_outcome :
      let s' = dispatch (purchase_rwa_v2 c o a i p) s in (s' ≡ s) ⊎ RwaBought c a i p s s'
  purchase_rwa_v2_outcome =
      purchase_rwa_v2_rule c (λ s'. (s' ≡ s) ⊎ RwaBought c a i p s s') s (inl refl) o a i p
        λ x g e decoded priced signed shown grows. inr (
          x,
          decoded,
          (ltb→lt 0 (s.rwa_prices x.rwa_id) priced, shown.proved, signed),
          (shown.fresh, rw (equal_refl x.nullifier) refl, rw (equal_refl x.change_leaf) refl, refl),
          rw (equal_refl x.tx_id) refl,
        )

  -- An access purchase of the second version either changes nothing, or its spend of the price that
  -- is configured for the application is authorised, the nullifier and the change leaf are
  -- recorded, the pool has paid that price to the configured account, and AuthGate is told to
  -- record the grant.
  pub purchase_access_v2_outcome :
      let s' = dispatch (purchase_access_v2 c o a i p) s in (s' ≡ s) ⊎ AccessBought c a i p s s'
  purchase_access_v2_outcome =
      purchase_access_v2_rule c (λ s'. (s' ≡ s) ⊎ AccessBought c a i p s s') s (inl refl) o a i p
        λ x cfg g dest b e decoded listed priced signed shown grows account paid. inr (
          x,
          cfg,
          dest,
          decoded,
          listed,
          (ltb→lt 0 cfg.price priced, shown.proved, signed),
          (shown.fresh, rw (equal_refl x.nullifier) refl, rw (equal_refl x.change_leaf) refl, refl),
          account,
          paid,
        )

-- ===== src/ProofHub/Ledger/Transfers.antt =====
-- What a deposit and a withdrawal of the second version bring about on the ProofHub pallet
-- (proofhub/pallets/proofs/src/lib.rs, `deposit_v2` and `withdraw_v2`).
use nulla_relay.Prelude.{
  equal_refl, ℕ, true, false, none, some, List, ◌≡◌, refl, ap, ◌⊎◌, inl, inr, take,
}
use nulla_relay.Frame.{Origin, dispatch}
use nulla_relay.ProofHub.Types.{Config, WithdrawPublicV2}
use nulla_relay.ProofHub.Storage.{State}
use nulla_relay.ProofHub.Notes.{compute_pk_digest}
use nulla_relay.ProofHub.Spend.{deposit_v2, withdraw_v2}
use nulla_relay.ProofHub.Effects.Membership.{deposit_v2_rule, withdraw_v2_rule}

-- What is so after a deposit that goes through.
abbrev pub Deposited : Config → (who leaf amount : ℕ) (proof : List ℕ) → State → State → Type 0
Deposited c who leaf amount proof s s' =
    (c.verify_deposit_v2 proof amount leaf ≡ true)
    × (c.transfer s.balances who c.pool_account amount true ≡ some s'.balances)
    × (s.leaf_index_v2 leaf ≡ none)
    × (s'.leaf_index_v2 leaf ≡ some s.leaf_count_v2)
    × (s'.outbox ≡ s.outbox)

-- What is so after a withdrawal of the second version that goes through.
abbrev pub Withdrawn : Config → (auth inputs proof : List ℕ) → State → State → Type 0
Withdrawn c a i p s s' =
    (x : WithdrawPublicV2) × (dest : ℕ) × (c.decode_withdraw_v2 i ≡ some x)
    × (c.verify_spend_v2 p x.merkle_root x.nullifier (compute_pk_digest c (take 1312 a)) x.amount
          c.v2_zero_change_leaf 0 false
        ≡ true)
    × (c.verify_spend_auth_v2 a i true ≡ true)
    × (s.nullifier_used x.nullifier ≡ false)
    × (s'.nullifier_used x.nullifier ≡ true)
    × (c.decode_account x.destination ≡ some dest)
    × (c.transfer s.balances c.pool_account dest x.amount false ≡ some s'.balances)
    × (s'.outbox ≡ s.outbox)

signer : (d who payer : ℕ) → Origin.signed who ≡ Origin.signed payer → who ≡ payer
signer d who payer e =
    ap (λ o. elim o [ Origin.root ↦ d | Origin.unsigned ↦ d | Origin.signed w ↦ w ]) e

module _ (c : Config) (s : State) where
  -- A signed deposit either changes nothing, or its proof is accepted for the amount and the leaf,
  -- the signer has paid the amount into the pool, the leaf is new and takes the next index, and no
  -- message goes out.
  pub deposit_v2_outcome :
      (who leaf amount : ℕ) (proof hints : List ℕ)
      → let s' = dispatch (deposit_v2 c (Origin.signed who) leaf amount proof hints) s in
        (s' ≡ s) ⊎ Deposited c who leaf amount proof s s'
  deposit_v2_outcome who leaf amount proof hints =
      deposit_v2_rule c (λ s'. (s' ≡ s) ⊎ Deposited c who leaf amount proof s s') s (inl refl)
        (Origin.signed who) leaf amount proof hints
        λ payer b g e proved paid grows.
          inr (proved, rw (signer who who payer e) paid, grows.new, rw (equal_refl leaf) refl, refl)

  -- A withdrawal of the second version either changes nothing, or its spend of the amount is
  -- authorised in withdrawal mode, the nullifier becomes used, the pool has paid the amount to the
  -- destination of the public inputs, and no message goes out.
  pub withdraw_v2_outcome :
      (o : Origin) (a i p : List ℕ)
      → let s' = dispatch (withdraw_v2 c o a i p) s in (s' ≡ s) ⊎ Withdrawn c a i p s s'
  withdraw_v2_outcome o a i p =
      withdraw_v2_rule c (λ s'. (s' ≡ s) ⊎ Withdrawn c a i p s s') s (inl refl) o a i p
        λ x dest b e decoded signed shown account paid. inr (
          x,
          dest,
          decoded,
          shown.proved,
          signed,
          shown.fresh,
          rw (equal_refl x.nullifier) refl,
          account,
          paid,
          refl,
        )

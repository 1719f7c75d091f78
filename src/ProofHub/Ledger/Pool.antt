-- ===== src/ProofHub/Ledger/Pool.antt =====
-- The money in the pool account of the ProofHub pallet (proofhub/pallets/proofs/src/lib.rs).
use nulla_relay.Prelude.{ℕ, ◌≤◌, ◌<◌, true, false, some, ◌≡◌, ◌⊎◌, inl, inr, ap, arith}
use nulla_relay.Frame.{Origin, dispatch}
use nulla_relay.ProofHub.Types.{Config, Balances}
use nulla_relay.ProofHub.Storage.{State}
use nulla_relay.ProofHub.Calls.{Request, perform}
use nulla_relay.ProofHub.Ledger.{
  Effect, kept, received, bought, granted, withdrawn, bought_by_tag, granted_by_tag,
  withdrawn_by_tag, resold_by_tag, perform-Effect,
}

-- What `Currency::transfer` documents: a transfer into the pool does not lower the pool.
abbrev pub FillsPool : Config → Type 0
FillsPool c =
    (b : Balances) (who amount : ℕ) (b' : Balances)
    → c.transfer b who c.pool_account amount true ≡ some b'
    → b c.pool_account ≤ b' c.pool_account

-- Something that was not spent before is spent after.
abbrev pub Spends : State → State → Type 0
Spends s s' =
    ((n : ℕ) × (s.nullifier_used n ≡ false) × (s'.nullifier_used n ≡ true))
    ⊎ ((t : ℕ) × (s.spend_tag_used t ≡ false) × (s'.spend_tag_used t ≡ true))

module _ (c : Config) (fills : FillsPool c) where
  Effect-Spends :
      {s s' : State}
      → Effect c s s'
      → s'.balances c.pool_account < s.balances c.pool_account
      → Spends s s'
  Effect-Spends (kept k) falls =
      let same = ap (λ b. b c.pool_account) k.same_balances in ground arith
  Effect-Spends {s = s} (received who a b e k) falls =
      let same = ap (λ b'. b' c.pool_account) k.same_balances in
      let more = fills s.balances who a b e in ground arith
  Effect-Spends (bought m msg fresh paid k) falls =
      inl (m, fresh, rw k.same_nullifiers (ground arith))
  Effect-Spends (granted m dest a b msg fresh e paid k) falls =
      inl (m, fresh, rw k.same_nullifiers (ground arith))
  Effect-Spends (withdrawn m dest a b fresh e k) falls =
      inl (m, fresh, rw k.same_nullifiers (ground arith))
  Effect-Spends (bought_by_tag m t msg fresh unspent paid k) falls =
      inl (m, fresh, rw k.same_nullifiers (ground arith))
  Effect-Spends (granted_by_tag m t dest a b msg fresh unspent e paid k) falls =
      inl (m, fresh, rw k.same_nullifiers (ground arith))
  Effect-Spends (withdrawn_by_tag t dest a b unspent e k) falls =
      inr (t, unspent, rw k.same_tags (ground arith))
  Effect-Spends (resold_by_tag x unspent unsold k) falls =
      inr (x.new_buyer_spend_tag, unspent, rw k.same_tags (ground arith))

  -- If a transfer into the pool does not lower it, then a call that lowers the pool's balance uses
  -- up a nullifier or a spend tag that was not used before.
  pub pool_falls_by_spending :
      (o : Origin) (r : Request) (s : State)
      → (dispatch (perform c o r) s).balances c.pool_account < s.balances c.pool_account
      → Spends s (dispatch (perform c o r) s)
  pool_falls_by_spending o r s = Effect-Spends (perform-Effect c o r s)

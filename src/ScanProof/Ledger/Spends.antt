-- ===== src/ScanProof/Ledger/Spends.antt =====
-- What the nullifiers and the serials of the ScanProof pallet (scanproof/pallets/proofs/src/lib.rs)
-- pay for: the messages that go out, and the money that leaves the pool.
use nulla_relay.Prelude.{
  ℕ, ◌+◌, ◌≤◌, ◌<◌, Bool, true, false, some, List, [], ◌∷◌, ◌≡◌, refl, arith, ◌==◌, once, by_true,
}
use nulla_relay.Frame.{Origin, StorageMap, dispatch}
use nulla_relay.ScanProof.Types.{Config, Balances, Message}
use nulla_relay.ScanProof.Storage.{State, build}
use nulla_relay.ScanProof.Submit.{mark_all}
use nulla_relay.ScanProof.Calls.{Request, perform, run}
use nulla_relay.ScanProof.Ledger.{
  Spending, spending, Key, nullifier, serial, is_used, carried, SpendEffect, settled, received,
  transferred, bought, granted, withdrawn,
}
use nulla_relay.ScanProof.Ledger.Requests.{perform-Effect}

-- How many messages carry a number.
abbrev pub count_carried : ℕ → List Message → ℕ
count_carried n [] = 0
count_carried n (m ∷ ms) = once (carried m == n) + count_carried n ms

mark_all_keeps :
    (ns : List ℕ) (used : StorageMap Bool) (n : ℕ) → used n ≡ true → mark_all ns used n ≡ true
mark_all_keeps [] used n e = e
mark_all_keeps (m ∷ ns) used n e =
    mark_all_keeps ns _ n (by_true (n == m) (λ f. rw f e) λ f. rw f refl)

mark_all_grows :
    (ns : List ℕ) (used : StorageMap Bool) (n : ℕ) → once (used n) ≤ once (mark_all ns used n)
mark_all_grows ns used n =
    by_true (used n) (λ e. rw e (ground arith))
      (λ e. rw (e, mark_all_keeps ns used n e) (ground arith))

abbrev IsBacked : ℕ → Spending → Type 0
IsBacked n x = count_carried n x.outbox ≤ once (x.nullifier_used n) + once (x.serial_used n)

module _ (c : Config) (n : ℕ) where
  SpendEffect-IsBacked : {x y : Spending} → SpendEffect c x y → IsBacked n x → IsBacked n y
  SpendEffect-IsBacked settled h = h
  SpendEffect-IsBacked (received who a b e) h = h
  SpendEffect-IsBacked {x = x} (transferred ns fresh) h =
      let more = mark_all_grows ns x.nullifier_used n in omega arith
  SpendEffect-IsBacked (bought (nullifier k) m fresh e) h = rw e (ground arith)
  SpendEffect-IsBacked (bought (serial k) m fresh e) h = rw e (ground arith)
  SpendEffect-IsBacked (granted (nullifier k) m d a b fresh e paid) h = rw e (ground arith)
  SpendEffect-IsBacked (granted (serial k) m d a b fresh e paid) h = rw e (ground arith)
  SpendEffect-IsBacked (withdrawn (nullifier k) d a b fresh paid) h = ground arith
  SpendEffect-IsBacked (withdrawn (serial k) d a b fresh paid) h = ground arith

  run-IsBacked :
      (rs : List (Origin × Request)) (s : State)
      → IsBacked n (spending s)
      → IsBacked n (spending (run c rs s))
  unfolding run
  run-IsBacked [] s h = h
  run-IsBacked ((o, r) ∷ rs) s h =
      run-IsBacked rs (dispatch (perform c o r) s)
        (SpendEffect-IsBacked (perform-Effect c o r s).on_spending h)

-- On a chain that starts from `GenesisConfig::build` and runs any calls of the pallet, the messages
-- that carry a number are at most one for its use as a nullifier and one for its use as a serial:
-- none if it is unused in both roles.
pub messages_backed :
    (c : Config) (balances : Balances) (rs : List (Origin × Request)) (n : ℕ)
    → let s = run c rs (build balances) in
      count_carried n s.outbox ≤ once (s.nullifier_used n) + once (s.serial_used n)
unfolding build
messages_backed c balances rs n = run-IsBacked c n rs (build balances) (ground arith)

-- What `Currency::transfer` documents: a transfer into the pool does not lower the pool.
abbrev pub FillsPool : Config → Type 0
FillsPool c =
    (b : Balances) (who amount : ℕ) (b' : Balances)
    → c.transfer b who c.pool_account amount true ≡ some b'
    → b c.pool_account ≤ b' c.pool_account

-- A nullifier or a serial that was unused before is used after.
abbrev pub UsesUp : Spending → Spending → Type 0
UsesUp x y = (k : Key) × (is_used k x ≡ false) × (is_used k y ≡ true)

module _ (c : Config) (fills : FillsPool c) where
  SpendEffect-UsesUp :
      {x y : Spending}
      → SpendEffect c x y
      → y.balances c.pool_account < x.balances c.pool_account
      → UsesUp x y
  SpendEffect-UsesUp settled falls = ground arith
  SpendEffect-UsesUp {x = x} (received who a b e) falls =
      let more = fills x.balances who a b e in ground arith
  SpendEffect-UsesUp (transferred ns fresh) falls = ground arith
  SpendEffect-UsesUp (bought (nullifier k) m fresh e) falls = ground arith
  SpendEffect-UsesUp (bought (serial k) m fresh e) falls = ground arith
  SpendEffect-UsesUp (granted (nullifier k) m d a b fresh e paid) falls =
      (nullifier k, fresh, ground arith)
  SpendEffect-UsesUp (granted (serial k) m d a b fresh e paid) falls =
      (serial k, fresh, ground arith)
  SpendEffect-UsesUp (withdrawn (nullifier k) d a b fresh paid) falls =
      (nullifier k, fresh, ground arith)
  SpendEffect-UsesUp (withdrawn (serial k) d a b fresh paid) falls = (serial k, fresh, ground arith)

  -- If a transfer into the pool does not lower it, then a call of the pallet that lowers the pool's
  -- balance uses up a nullifier or a serial that was unused before.
  pub payouts_use_up :
      (o : Origin) (r : Request) (s : State)
      → let s' = dispatch (perform c o r) s in
        s'.balances c.pool_account < s.balances c.pool_account → UsesUp (spending s) (spending s')
  payouts_use_up o r s = SpendEffect-UsesUp (perform-Effect c o r s).on_spending

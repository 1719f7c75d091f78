-- ===== src/ProofHub/Ledger/Nullifiers.antt =====
-- What a nullifier and an ownership record can pay for on the ProofHub pallet
-- (proofhub/pallets/proofs/src/lib.rs), over the messages that the pallet sends.
use nulla_relay.Prelude.{
  ℕ, ◌+◌, ◌≤◌, Bool, true, false, Option, none, some, List, [], ◌∷◌, ◌≡◌, refl, arith, ◌==◌, once,
}
use nulla_relay.Frame.{Origin, dispatch}
use nulla_relay.ProofHub.Types.{Config, Balances, Message}
use nulla_relay.ProofHub.Storage.{State, build}
use nulla_relay.ProofHub.Calls.{Request, perform, run}
use nulla_relay.ProofHub.Ledger.{
  paid_by, Effect, kept, received, bought, granted, withdrawn, bought_by_tag, granted_by_tag,
  withdrawn_by_tag, resold_by_tag, perform-Effect,
}

abbrev names : ℕ → Option ℕ → ℕ
names n none = 0
names n (some m) = once (m == n)

-- How many messages a nullifier has paid for.
abbrev pub count_paid : ℕ → List Message → ℕ
count_paid n [] = 0
count_paid n (m ∷ ms) = names n (paid_by m) + count_paid n ms

abbrev moved : ℕ → Message → ℕ
moved tx (Message.rwa_transfer old k new) = once (old == tx)
moved tx (Message.rwa_purchase r n t v tx' k) = 0
moved tx (Message.access_grant a n tx' k) = 0

-- How many times the ownership recorded for a transaction has been handed on.
abbrev pub count_moved : ℕ → List Message → ℕ
count_moved tx [] = 0
count_moved tx (m ∷ ms) = moved tx m + count_moved tx ms

abbrev IsPaid : ℕ → State → Type 0
IsPaid n s = count_paid n s.outbox ≤ once (s.nullifier_used n)

-- The hand-overs beyond `sent` are as many as the flag of the ownership is above `flag`.
abbrev IsMoved : (sent flag tx : ℕ) → State → Type 0
IsMoved sent flag tx s =
    (count_moved tx s.outbox + flag ≡ sent + once (s.ownership_used tx))
    × (flag ≤ once (s.ownership_used tx))

module _ (c : Config) (n : ℕ) where
  Effect-IsPaid : {s s' : State} → Effect c s s' → IsPaid n s → IsPaid n s'
  Effect-IsPaid (kept k) h = rw (k.same_outbox, k.same_nullifiers) h
  Effect-IsPaid (received who a b e k) h = rw (k.same_outbox, k.same_nullifiers) h
  Effect-IsPaid (bought m msg fresh paid k) h =
      rw (k.same_outbox, k.same_nullifiers, paid) (ground arith)
  Effect-IsPaid (granted m dest a b msg fresh e paid k) h =
      rw (k.same_outbox, k.same_nullifiers, paid) (ground arith)
  Effect-IsPaid (withdrawn m dest a b fresh e k) h =
      rw (k.same_outbox, k.same_nullifiers) (ground arith)
  Effect-IsPaid (bought_by_tag m t msg fresh unspent paid k) h =
      rw (k.same_outbox, k.same_nullifiers, paid) (ground arith)
  Effect-IsPaid (granted_by_tag m t dest a b msg fresh unspent e paid k) h =
      rw (k.same_outbox, k.same_nullifiers, paid) (ground arith)
  Effect-IsPaid (withdrawn_by_tag t dest a b unspent e k) h =
      rw (k.same_outbox, k.same_nullifiers) h
  Effect-IsPaid (resold_by_tag x unspent unsold k) h =
      rw (k.same_outbox, k.same_nullifiers) (ground arith)

  run-IsPaid : (rs : List (Origin × Request)) (s : State) → IsPaid n s → IsPaid n (run c rs s)
  unfolding run
  run-IsPaid [] s h = h
  run-IsPaid ((o, r) ∷ rs) s h =
      run-IsPaid rs (dispatch (perform c o r) s) (Effect-IsPaid (perform-Effect c o r s) h)

moved_paid : (tx n : ℕ) (m : Message) → paid_by m ≡ some n → moved tx m ≡ 0
moved_paid tx n (Message.rwa_purchase r m t v tx' k) e = refl
moved_paid tx n (Message.access_grant a m tx' k) e = refl
moved_paid tx n (Message.rwa_transfer old k new) e = ground arith

module _ (c : Config) (sent flag tx : ℕ) where
  Effect-IsMoved : {s s' : State} → Effect c s s' → IsMoved sent flag tx s → IsMoved sent flag tx s'
  Effect-IsMoved (kept k) h = rw (k.same_outbox, k.same_resold) h
  Effect-IsMoved (received who a b e k) h = rw (k.same_outbox, k.same_resold) h
  Effect-IsMoved (bought m msg fresh paid k) h =
      rw (k.same_outbox, k.same_resold, moved_paid tx m msg paid) (ground arith)
  Effect-IsMoved (granted m dest a b msg fresh e paid k) h =
      rw (k.same_outbox, k.same_resold, moved_paid tx m msg paid) (ground arith)
  Effect-IsMoved (withdrawn m dest a b fresh e k) h = rw (k.same_outbox, k.same_resold) h
  Effect-IsMoved (bought_by_tag m t msg fresh unspent paid k) h =
      rw (k.same_outbox, k.same_resold, moved_paid tx m msg paid) (ground arith)
  Effect-IsMoved (granted_by_tag m t dest a b msg fresh unspent e paid k) h =
      rw (k.same_outbox, k.same_resold, moved_paid tx m msg paid) (ground arith)
  Effect-IsMoved (withdrawn_by_tag t dest a b unspent e k) h = rw (k.same_outbox, k.same_resold) h
  Effect-IsMoved (resold_by_tag x unspent unsold k) h =
      rw (k.same_outbox, k.same_resold) (ground arith)

  run-IsMoved :
      (rs : List (Origin × Request)) (s : State)
      → IsMoved sent flag tx s
      → IsMoved sent flag tx (run c rs s)
  unfolding run
  run-IsMoved [] s h = h
  run-IsMoved ((o, r) ∷ rs) s h =
      run-IsMoved rs (dispatch (perform c o r) s) (Effect-IsMoved (perform-Effect c o r s) h)

-- What spending has settled: a used nullifier stays used and pays for no further message.
abbrev Settled : ℕ → ℕ → State → Type 0
Settled n paid s = (s.nullifier_used n ≡ true) × (count_paid n s.outbox ≡ paid)

module _ (c : Config) (n paid : ℕ) where
  Effect-Settled : {s s' : State} → Effect c s s' → Settled n paid s → Settled n paid s'
  Effect-Settled (kept k) h = rw (k.same_outbox, k.same_nullifiers) h
  Effect-Settled (received who a b e k) h = rw (k.same_outbox, k.same_nullifiers) h
  Effect-Settled (bought m msg fresh p k) h =
      rw (k.same_outbox, k.same_nullifiers, p) (ground arith)
  Effect-Settled (granted m dest a b msg fresh e p k) h =
      rw (k.same_outbox, k.same_nullifiers, p) (ground arith)
  Effect-Settled (withdrawn m dest a b fresh e k) h =
      rw (k.same_outbox, k.same_nullifiers) (ground arith)
  Effect-Settled (bought_by_tag m t msg fresh unspent p k) h =
      rw (k.same_outbox, k.same_nullifiers, p) (ground arith)
  Effect-Settled (granted_by_tag m t dest a b msg fresh unspent e p k) h =
      rw (k.same_outbox, k.same_nullifiers, p) (ground arith)
  Effect-Settled (withdrawn_by_tag t dest a b unspent e k) h =
      rw (k.same_outbox, k.same_nullifiers) h
  Effect-Settled (resold_by_tag x unspent unsold k) h =
      rw (k.same_outbox, k.same_nullifiers) (ground arith)

  run-Settled :
      (rs : List (Origin × Request)) (s : State) → Settled n paid s → Settled n paid (run c rs s)
  unfolding run
  run-Settled [] s h = h
  run-Settled ((o, r) ∷ rs) s h =
      run-Settled rs (dispatch (perform c o r) s) (Effect-Settled (perform-Effect c o r s) h)

once_most : (b : Bool) → once b ≤ 1
once_most true = ground arith
once_most false = ground arith

module _ (c : Config) (balances : Balances) (rs : List (Origin × Request)) where
  -- On a chain that starts from `GenesisConfig::build` and runs any calls of the pallet, in any
  -- order and from any origins, a nullifier pays for at most one message: the purchases of both
  -- versions and the access grants of both versions together.
  pub nullifier_pays_once : (n : ℕ) → count_paid n (run c rs (build balances)).outbox ≤ 1
  unfolding build
  nullifier_pays_once n =
      let paid = run-IsPaid c n rs (build balances) (ground arith) in
      let most = once_most ((run c rs (build balances)).nullifier_used n) in omega arith

-- From any state of the pallet, over any calls in any order: the messages that hand on the ownership
-- recorded for a transaction grow by one if `OwnershipUsed` becomes set for the transaction, and by none
-- if it does not; and once it is set, it stays set, so that the ownership is not handed on again.
pub ownership_moves_once :
    (c : Config) (rs : List (Origin × Request)) (s : State) (tx : ℕ)
    → let s' = run c rs s in
      (count_moved tx s'.outbox + once (s.ownership_used tx)
        ≡ count_moved tx s.outbox + once (s'.ownership_used tx))
      × (once (s.ownership_used tx) ≤ once (s'.ownership_used tx))
ownership_moves_once c rs s tx =
    run-IsMoved c (count_moved tx s.outbox) (once (s.ownership_used tx)) tx rs s (refl, omega arith)

-- A nullifier that is used, for a purchase, an access grant or a withdrawal, stays used whatever
-- calls follow, and the pallet sends no further message for it.
pub spent_nullifier_pays_nothing :
    (c : Config) (rs : List (Origin × Request)) (s : State) (n : ℕ)
    → s.nullifier_used n ≡ true
    → ((run c rs s).nullifier_used n ≡ true)
      × (count_paid n (run c rs s).outbox ≡ count_paid n s.outbox)
spent_nullifier_pays_nothing c rs s n used =
    run-Settled c n (count_paid n s.outbox) rs s (used, refl)

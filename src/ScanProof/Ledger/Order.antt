-- ===== src/ScanProof/Ledger/Order.antt =====
-- The order in which the coin groups of the ScanProof pallet (scanproof/pallets/proofs/src/lib.rs)
-- fill: one after the other, each to its capacity.
use nulla_relay.Prelude.{
  ℕ, ◌+◌, ◌%◌, ◌^◌, ◌≤◌, ◌<◌, true, false, List, [], ◌∷◌, ◌≡◌, refl, sym, ap, ◌∙◌, arith, ◌==◌,
  length, length-append, ltb, leb, ltb→lt, leb→le, if◌then◌else◌, by_true, ==_iff, ◌⊎◌, inl, inr,
  subst, equal_refl,
}
use nulla_relay.Frame.{Origin, dispatch}
use nulla_relay.ScanProof.Types.{Config, Balances}
use nulla_relay.ScanProof.Storage.{State, build}
use nulla_relay.ScanProof.Coins.{group_capacity, group_of}
use nulla_relay.ScanProof.Calls.{Request, perform, run}
use nulla_relay.ScanProof.Ledger.{
  Groups, groups, group_in, open_group, placed, CoinEffect, coins_kept, coin_placed,
}
use nulla_relay.ScanProof.Ledger.Requests.{perform-Effect}
use nulla_relay.ScanProof.Ledger.Places.{group_here, group_there}

-- The size of a group if groups fill in order: the groups before the current one are full, and those
-- after it are empty.
abbrev pub size_in_order : (gid current size : ℕ) → ℕ
size_in_order gid current size =
    if ltb gid current then group_capacity else (if gid == current then size else 0)

-- At most `k` groups are full.
record IsInOrder (k : ℕ) (x : Groups) : Type 0 where
  reached : x.current_group ≤ k
  fits : length (group_in x.current_group x) ≤ group_capacity
  in_order :
      (gid : ℕ)
      → length (group_in gid x)
        ≡ size_in_order gid x.current_group (length (group_in x.current_group x))

size_at_current : (gid size : ℕ) → size_in_order gid gid size ≡ size
size_at_current gid size = ground arith

size_elsewhere :
    (gid current a b : ℕ)
    → (gid == current) ≡ false
    → size_in_order gid current a ≡ size_in_order gid current b
size_elsewhere gid current a b other = ground arith

size_when_full :
    (gid current b : ℕ)
    → (gid == current + 1) ≡ false
    → size_in_order gid current group_capacity ≡ size_in_order gid (current + 1) b
size_when_full gid current b other = ground arith

-- The open group is the current one with room, or the next one if that is full.
open_group_cases :
    (k : ℕ) (x : Groups)
    → k + 1 < 2 ^ 32
    → IsInOrder k x
    → (open_group x ≡ x.current_group)
      ⊎ ((open_group x ≡ x.current_group + 1)
          × (length (group_in x.current_group x) ≡ group_capacity))
open_group_cases k x few v =
    let most = v.fits in
    let r = v.reached in
    by_true (leb group_capacity (length (group_in x.current_group x)))
      (λ room. inl (rw (room, open_group) refl))
      λ full.
        let least = leb→le group_capacity (length (group_in x.current_group x)) full in
        let small : (x.current_group + 1) % 2 ^ 32 ≡ x.current_group + 1 = omega arith in
        inr (rw (full, open_group) small, omega arith)

module _ (k : ℕ) (x : Groups) (coin : ℕ) (few : k + 1 < 2 ^ 32) (v : IsInOrder k x) where
  others_in_order :
      (gid size : ℕ)
      → (gid == open_group x) ≡ false
      → length (group_in gid x) ≡ size_in_order gid (open_group x) size
  others_in_order gid size other = elim (open_group_cases k x few v) [
    | inl same ↦
        let away : (gid == x.current_group) ≡ false = subst (λ g. (gid == g) ≡ false) same other in
        subst (λ g. length (group_in gid x) ≡ size_in_order gid g size) (sym same)
          (v.in_order gid ∙ size_elsewhere gid x.current_group _ size away)
    | inr (next, full) ↦
        let away : (gid == x.current_group + 1) ≡ false =
          subst (λ g. (gid == g) ≡ false) next other in
        subst (λ g. length (group_in gid x) ≡ size_in_order gid g size) (sym next)
          (v.in_order gid
            ∙ (ap (size_in_order gid x.current_group) full
                ∙ size_when_full gid x.current_group size away))
  ]

  placed-IsInOrder :
      ltb (length (group_in (open_group x) x)) group_capacity ≡ true
      → IsInOrder (k + 1) (placed coin x)
  placed-IsInOrder room =
      let here = group_here x coin (open_group x) (equal_refl (open_group x)) in
      let longer = length-append (group_in (open_group x) x) (coin ∷ []) in
      let below = ltb→lt (length (group_in (open_group x) x)) group_capacity room in
      let r = v.reached in
      record {
        reached = elim (open_group_cases k x few v) [
          | inl same ↦ omega arith
          | inr (next, full) ↦ omega arith
        ];
        fits = rw here (omega arith);
        in_order = λ gid.
            let size = length (group_in (open_group x) (placed coin x)) in
            by_true (gid == open_group x)
              (λ other. rw (group_there x coin gid other) (others_in_order gid size other))
              λ same.
                subst
                  (λ g. length (group_in g (placed coin x)) ≡ size_in_order g (open_group x) size)
                  (sym ((==_iff gid (open_group x)).0 same))
                  (sym (size_at_current (open_group x) size));
      }

CoinEffect-IsInOrder :
    (k : ℕ) {x y : Groups} → k + 1 < 2 ^ 32 → CoinEffect x y → IsInOrder k x → IsInOrder (k + 1) y
CoinEffect-IsInOrder k few coins_kept v =
    let r = v.reached in record { reached = omega arith; fits = v.fits; in_order = v.in_order }
CoinEffect-IsInOrder k {x = x} few (coin_placed coin new room) v =
    placed-IsInOrder k x coin few v room

run-IsInOrder :
    (c : Config) (rs : List (Origin × Request)) (k : ℕ) (s : State)
    → k + length rs < 2 ^ 32
    → IsInOrder k (groups s)
    → (n : ℕ) × IsInOrder n (groups (run c rs s))
unfolding run
run-IsInOrder c [] k s few v = (k, v)
run-IsInOrder c ((o, r) ∷ rs) k s few v =
    run-IsInOrder c rs (k + 1) (dispatch (perform c o r) s) (omega arith)
      (CoinEffect-IsInOrder k (omega arith) (perform-Effect c o r s).on_coins v)

build-IsInOrder : (balances : Balances) → IsInOrder 0 (groups (build balances))
unfolding build
build-IsInOrder balances = record {
  reached = ground arith;
  fits = ground arith;
  in_order = λ gid. ground arith;
}

-- On a chain that starts from `GenesisConfig::build` and runs fewer than 2^32 calls of the pallet, the
-- coin groups fill in order: each group before the current one holds exactly 1024 coins, and each
-- group after it is empty.
pub groups_fill_in_order :
    (c : Config) (balances : Balances) (rs : List (Origin × Request))
    → length rs < 2 ^ 32
    → (gid : ℕ)
    → let s = run c rs (build balances) in
      length (group_of gid s)
      ≡ size_in_order gid s.current_group (length (group_of s.current_group s))
groups_fill_in_order c balances rs few gid =
    (run-IsInOrder c rs 0 (build balances) (omega arith) (build-IsInOrder balances)).1.in_order gid

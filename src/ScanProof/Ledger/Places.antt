-- ===== src/ScanProof/Ledger/Places.antt =====
-- The coin groups of the ScanProof pallet (scanproof/pallets/proofs/src/lib.rs): where `CoinLocation`
-- finds a coin, and the order in which the groups fill.
use nulla_relay.Prelude.{
  ℕ, ◌≤◌, true, false, Option, none, some, List, [], ◌∷◌, ◌++◌, ◌≡◌, refl, sym, ap, ◌∙◌, arith,
  ◌==◌, ◌↔◌, inl, inr, length, length-append, ltb, ltb→lt, get_elem?, get_elem?-append,
  get_elem?_last, append_cases, by_true, ==_iff, equal_refl, subst,
}
use nulla_relay.Frame.{Origin, dispatch}
use nulla_relay.ScanProof.Types.{Config, Balances}
use nulla_relay.ScanProof.Storage.{State, build}
use nulla_relay.ScanProof.Coins.{group_capacity, group_of}
use nulla_relay.ScanProof.Calls.{Request, perform, run}
use nulla_relay.ScanProof.Ledger.{
  Groups, groups, group_in, open_group, placed, CoinEffect, coins_kept, coin_placed,
}
use nulla_relay.ScanProof.Ledger.Requests.{perform-Effect}

-- `CoinLocation` finds every coin of a group at its place, and no other coin.
record IsPlaced (x : Groups) : Type 0 where
  found :
      (coin gid i : ℕ)
      → x.coin_location coin ≡ some (gid, i)
      → get_elem? (group_in gid x) i ≡ some coin
  listed :
      (coin gid i : ℕ)
      → get_elem? (group_in gid x) i ≡ some coin
      → x.coin_location coin ≡ some (gid, i)
  sized : (gid : ℕ) → length (group_in gid x) ≤ group_capacity

abbrev first : Option (ℕ × ℕ) → ℕ
first none = 0
first (some p) = p.0

abbrev second : Option (ℕ × ℕ) → ℕ
second none = 0
second (some p) = p.1

-- The groups with the coin: only the open one has changed.
module _ (x : Groups) (coin gid : ℕ) where
  pub group_here :
      (gid == open_group x) ≡ true
      → group_in gid (placed coin x) ≡ group_in (open_group x) x ++ coin ∷ []
  group_here same = rw (same, group_in) refl

  pub group_there : (gid == open_group x) ≡ false → group_in gid (placed coin x) ≡ group_in gid x
  group_there other = rw (other, group_in) refl

module _ (x : Groups) (coin : ℕ) (new : x.coin_location coin ≡ none) (v : IsPlaced x) where
  -- The group that the coin goes into, with the coin, at what stood in it before.
  in_open_group :
      (k gid i : ℕ)
      → get_elem? (group_in gid x) i ≡ some k
      → get_elem? (group_in gid (placed coin x)) i ≡ some k
  in_open_group k gid i e =
      by_true (gid == open_group x) (λ other. rw (group_there x coin gid other) e)
        λ same.
          let here : gid ≡ open_group x = (==_iff gid (open_group x)).0 same in
          let there = subst (λ g. get_elem? (group_in g x) i ≡ some k) here e in
          rw (group_here x coin gid same)
            (get_elem?-append (group_in (open_group x) x) coin k i there)

  placed_found :
      (k gid i : ℕ)
      → (placed coin x).coin_location k ≡ some (gid, i)
      → get_elem? (group_in gid (placed coin x)) i ≡ some k
  placed_found k gid i e =
      by_true (k == coin) (λ other. in_open_group k gid i (v.found k gid i (rw other at e)))
        λ same.
          let e' = rw same at e in
          let last : get_elem? (group_in (open_group x) (placed coin x))
                (length (group_in (open_group x) x))
              ≡ some coin =
            rw (group_here x coin (open_group x) (equal_refl (open_group x)))
              (get_elem?_last (group_in (open_group x) x) coin) in
          rw (← ap first e', ← ap second e', (==_iff k coin).0 same) last

  -- The coin is not in any group yet.
  absent_before : (k gid i : ℕ) → get_elem? (group_in gid x) i ≡ some k → (k == coin) ≡ false
  absent_before k gid i e =
      by_true (k == coin) (λ other. other)
        λ same.
          let here = v.listed k gid i e in
          let gone = subst (λ j. x.coin_location j ≡ none) (sym ((==_iff k coin).0 same)) new in
          let impossible : none ≡ some (gid, i) = sym gone ∙ here in ground arith

  placed_listed :
      (k gid i : ℕ)
      → get_elem? (group_in gid (placed coin x)) i ≡ some k
      → (placed coin x).coin_location k ≡ some (gid, i)
  placed_listed k gid i e =
      by_true (gid == open_group x)
        (λ other.
          let e' = rw (group_there x coin gid other) at e in
          rw (absent_before k gid i e') (v.listed k gid i e'))
        λ same.
          let here : gid ≡ open_group x = (==_iff gid (open_group x)).0 same in
          let e' = rw (group_here x coin gid same) at e in
          rw here (elim (append_cases (group_in (open_group x) x) coin k i e') [
            | inl old ↦ rw (absent_before k (open_group x) i old) (v.listed k (open_group x) i old)
            | inr (last, same') ↦ rw (← same', equal_refl coin, last) refl
          ])

placed-IsPlaced :
    (x : Groups) (coin : ℕ)
    → x.coin_location coin ≡ none
    → ltb (length (group_in (open_group x) x)) group_capacity ≡ true
    → IsPlaced x
    → IsPlaced (placed coin x)
placed-IsPlaced x coin new room v = record {
  found = placed_found x coin new v;
  listed = placed_listed x coin new v;
  sized = λ gid.
      let longer = length-append (group_in (open_group x) x) (coin ∷ []) in
      let below = ltb→lt (length (group_in (open_group x) x)) group_capacity room in
      let old = v.sized gid in
      by_true (gid == open_group x) (λ other. rw (group_there x coin gid other) old)
        (λ same. rw (group_here x coin gid same) (omega arith));
}

CoinEffect-IsPlaced : {x y : Groups} → CoinEffect x y → IsPlaced x → IsPlaced y
CoinEffect-IsPlaced coins_kept v = v
CoinEffect-IsPlaced {x = x} (coin_placed coin new room) v = placed-IsPlaced x coin new room v

run-IsPlaced :
    (c : Config) (rs : List (Origin × Request)) (s : State)
    → IsPlaced (groups s)
    → IsPlaced (groups (run c rs s))
unfolding run
run-IsPlaced c [] s v = v
run-IsPlaced c ((o, r) ∷ rs) s v =
    run-IsPlaced c rs (dispatch (perform c o r) s)
      (CoinEffect-IsPlaced (perform-Effect c o r s).on_coins v)

build-IsPlaced : (balances : Balances) → IsPlaced (groups (build balances))
unfolding build
build-IsPlaced balances = record {
  found = λ coin gid i e. ground arith;
  listed = λ coin gid i e. ground arith;
  sized = λ gid. ground arith;
}

-- On a chain that starts from `GenesisConfig::build` and runs any calls of the pallet, a group holds
-- at most 1024 coins, and `CoinLocation` of a coin is a place exactly if the coin stands there: each
-- coin has one place in one group.
pub coin_location_iff :
    (c : Config) (balances : Balances) (rs : List (Origin × Request)) (coin gid i : ℕ)
    → let s = run c rs (build balances) in
      ((s.coin_location coin ≡ some (gid, i)) ↔ (get_elem? (group_of gid s) i ≡ some coin))
      × (length (group_of gid s) ≤ group_capacity)
coin_location_iff c balances rs coin gid i =
    let v = run-IsPlaced c rs (build balances) (build-IsPlaced balances) in
    ((v.found coin gid i, v.listed coin gid i), v.sized gid)

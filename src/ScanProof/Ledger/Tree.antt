-- ===== src/ScanProof/Ledger/Tree.antt =====
-- The note tree of the ScanProof pallet (scanproof/pallets/proofs/src/lib.rs): what
-- `CommitmentIndex` says of the leaves, and what the roots say of them.
use nulla_relay.Prelude.{
  ℕ, ◌+◌, ◌-◌, ◌%◌, ◌^◌, ◌≤◌, ◌<◌, true, false, Option, none, some, List, [], ◌∷◌, ◌++◌, ◌≡◌, refl,
  sym, ap, ◌∙◌, subst, arith, ◌==◌, length, length-append, append_assoc, append-nil, get_elem?,
  get_elem?-append, get_elem?_last, get_elem?-length, by_true, by_some, ==_iff, equal_refl,
}
use nulla_relay.Frame.{Origin, StorageMap, update, dispatch}
use nulla_relay.ProofHub.Tree.{any_equal}
use nulla_relay.ScanProof.Types.{Config, Balances}
use nulla_relay.ScanProof.Storage.{State, build}
use nulla_relay.ScanProof.Notes.{max_leaves, leaf_hash, compute_merkle_root}
use nulla_relay.ScanProof.Submit.{outputs_fresh}
use nulla_relay.ScanProof.Calls.{Request, perform, run}
use nulla_relay.ScanProof.Effects.Outputs.{leaf_hashes, index_outputs}
use nulla_relay.ScanProof.Ledger.{Notes, notes, NoteEffect, notes_kept, notes_added}
use nulla_relay.ScanProof.Ledger.Requests.{perform-Effect}

abbrev Index : Type 0
Index = StorageMap (Option ℕ)

-- What is not among `seen` is not among `seen'` either, and is not `k`.
abbrev Without : (k : ℕ) (seen seen' : List ℕ) → Type 0
Without k seen seen' =
    (j : ℕ) → any_equal j seen ≡ false → (any_equal j seen' ≡ false) × ((j == k) ≡ false)

Without-cons :
    (k i : ℕ) (seen seen' : List ℕ) → Without k seen seen' → Without k (i ∷ seen) (i ∷ seen')
Without-cons k i seen seen' w j h =
    by_true (i == j) (λ other. rw other (w j (rw other at h))) λ same. absurd (ground arith)

-- Commitments that are new after `k` stay so when `k` has its index.
outputs_fresh-update :
    (k n : ℕ) (ks seen seen' : List ℕ) (index : Index)
    → Without k seen seen'
    → outputs_fresh index seen ks ≡ true
    → outputs_fresh (update k (some n) index) seen' ks ≡ true
outputs_fresh-update k n [] seen seen' index w h = refl
outputs_fresh-update k n (j ∷ js) seen seen' index w h =
    by_true (any_equal j seen)
      (λ apart.
        by_some (index j)
          (λ new.
            let rest : outputs_fresh index (j ∷ seen) js ≡ true = rw (apart, new) at h in
            let (apart', other) = w j apart in
            rw (apart', other, new)
              (outputs_fresh-update k n js (j ∷ seen) (j ∷ seen') index
                (Without-cons k j seen seen' w) rest))
          (λ i old. absurd (ground arith)))
      (λ twice. absurd (ground arith))

-- Each commitment of the index has its leaf at that place, and its place to itself.
record IsIndexed (c : Config) (leaves : List ℕ) (index : Index) : Type 0 where
  found : (k i : ℕ) → index k ≡ some i → get_elem? leaves i ≡ some (leaf_hash c k)
  single : (k j i : ℕ) → index k ≡ some i → index j ≡ some i → k ≡ j
  within : length leaves ≤ max_leaves

abbrev value : Option ℕ → ℕ
value none = 0
value (some i) = i

module _ (c : Config) where
  module _ (k : ℕ) (leaves : List ℕ) (index : Index) (v : IsIndexed c leaves index) where
    push_found :
        (j i : ℕ)
        → update k (some (length leaves)) index j ≡ some i
        → get_elem? (leaves ++ leaf_hash c k ∷ []) i ≡ some (leaf_hash c j)
    push_found j i e =
        by_true (j == k)
          (λ other. get_elem?-append leaves (leaf_hash c k) _ i (v.found j i (rw other at e)))
          λ same.
            let last : length leaves ≡ i = ap value (rw same at e) in
            rw (← last, (==_iff j k).0 same) (get_elem?_last leaves (leaf_hash c k))

    -- The index of the new leaf is not taken.
    free : (j i : ℕ) → index j ≡ some i → (i == length leaves) ≡ false
    free j i e =
        by_true (i == length leaves) (λ other. other)
          λ same.
            let here = v.found j i e in
            let at_end =
              subst (λ i. get_elem? leaves i ≡ some (leaf_hash c j))
                ((==_iff i (length leaves)).0 same) here in
            let impossible : none ≡ some (leaf_hash c j) = sym (get_elem?-length leaves) ∙ at_end in
            ground arith

    push_single :
        (j j' i : ℕ)
        → update k (some (length leaves)) index j ≡ some i
        → update k (some (length leaves)) index j' ≡ some i
        → j ≡ j'
    push_single j j' i e e' =
        by_true (j == k)
          (λ other.
            let old = rw other at e in
            by_true (j' == k) (λ other'. v.single j j' i old (rw other' at e'))
              λ same'.
                let last : length leaves ≡ i = ap value (rw same' at e') in
                let taken = free j i old in ground arith)
          λ same.
            let last : length leaves ≡ i = ap value (rw same at e) in
            by_true (j' == k) (λ other'. let taken = free j' i (rw other' at e') in ground arith)
              (λ same'. (==_iff j k).0 same ∙ sym ((==_iff j' k).0 same'))

    push-IsIndexed :
        length leaves < max_leaves
        → IsIndexed c (leaves ++ leaf_hash c k ∷ []) (update k (some (length leaves)) index)
    push-IsIndexed room =
        let longer = length-append leaves (leaf_hash c k ∷ []) in
        record { found = push_found; single = push_single; within = omega arith }

  outputs-IsIndexed :
      (ks leaves : List ℕ) (n : ℕ) (index : Index)
      → n ≡ length leaves
      → outputs_fresh index [] ks ≡ true
      → length ks ≤ max_leaves - length leaves
      → IsIndexed c leaves index
      → IsIndexed c (leaves ++ leaf_hashes c ks) (index_outputs ks n index)
  outputs-IsIndexed [] leaves n index same fresh room v = rw (append-nil leaves) v
  outputs-IsIndexed (k ∷ ks) leaves n index same fresh room v =
      by_some (index k)
        (λ new.
          let longer = length-append leaves (leaf_hash c k ∷ []) in
          let rest : outputs_fresh index (k ∷ []) ks ≡ true = rw new at fresh in
          let small : n % 2 ^ 32 ≡ length leaves = omega arith in
          let fresh' =
            outputs_fresh-update k (length leaves) ks (k ∷ []) [] index
              (λ j h. (refl, ground arith)) rest in
          let more =
            outputs-IsIndexed ks (leaves ++ leaf_hash c k ∷ []) (n + 1)
              (update k (some (length leaves)) index) (omega arith) fresh' (omega arith)
              (push-IsIndexed k leaves index v (omega arith)) in
          rw (small, ← append_assoc leaves (leaf_hash c k ∷ []) (leaf_hashes c ks)) more)
        (λ i old. absurd (ground arith))

-- The roots are those of the leaves, and their number is stored under the current root.
record IsTree (c : Config) (x : Notes) : Type 0 where
  indexed : IsIndexed c x.leaves x.commitment_index
  current : x.current_root ≡ compute_merkle_root c x.leaves
  merkle : x.merkle_root ≡ x.current_root
  counted : x.root_leaf_count x.current_root ≡ length x.leaves

module _ (c : Config) where
  NoteEffect-IsTree : {x y : Notes} → NoteEffect c x y → IsTree c x → IsTree c y
  NoteEffect-IsTree notes_kept v = v
  NoteEffect-IsTree {x = x} (notes_added ks fresh room) v =
      let grown = x.leaves ++ leaf_hashes c ks in
      let after =
        outputs-IsIndexed c ks x.leaves (length x.leaves) x.commitment_index refl fresh room
          v.indexed in
      let most = after.within in
      let small : length grown % 2 ^ 32 ≡ length grown = omega arith in
      record {
        indexed = after;
        current = refl;
        merkle = refl;
        counted = rw (equal_refl (compute_merkle_root c grown)) small;
      }

  run-IsTree :
      (rs : List (Origin × Request)) (s : State)
      → IsTree c (notes s)
      → IsTree c (notes (run c rs s))
  unfolding run
  run-IsTree [] s v = v
  run-IsTree ((o, r) ∷ rs) s v =
      run-IsTree rs (dispatch (perform c o r) s)
        (NoteEffect-IsTree (perform-Effect c o r s).on_notes v)

  build-IsTree : (balances : Balances) → IsTree c (notes (build balances))
  unfolding build compute_merkle_root
  build-IsTree balances = record {
    indexed = record {
      found = λ k i e. ground arith;
      single = λ k j i e e'. ground arith;
      within = ground arith;
    };
    current = refl;
    merkle = refl;
    counted = refl;
  }

  module _ (balances : Balances) (rs : List (Origin × Request)) where
    -- On a chain that starts from `GenesisConfig::build` and runs any calls of the pallet, both stored
    -- roots are the Merkle root of the leaves, the number of leaves is stored under that root, and
    -- there are at most 2^20 leaves.
    pub roots_are_current :
        let s = run c rs (build balances) in
        (s.current_root ≡ compute_merkle_root c s.leaves)
        × (s.merkle_root ≡ s.current_root)
        × (s.root_leaf_count s.current_root ≡ length s.leaves)
        × (length s.leaves ≤ max_leaves)
    roots_are_current =
        let v = run-IsTree rs (build balances) (build-IsTree balances) in
        (v.current, v.merkle, v.counted, v.indexed.within)

    -- On such a chain, a commitment that has an index has its leaf at that place, and another
    -- commitment with the same index is the same commitment.
    pub commitment_index_finds :
        (k j i : ℕ)
        → let s = run c rs (build balances) in
          s.commitment_index k ≡ some i
          → s.commitment_index j ≡ some i
          → (get_elem? s.leaves i ≡ some (leaf_hash c k)) × (k ≡ j)
    commitment_index_finds k j i e e' =
        let v = run-IsTree rs (build balances) (build-IsTree balances) in
        (v.indexed.found k i e, v.indexed.single k j i e e')

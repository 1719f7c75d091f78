-- ===== src/ScanProof/Effects/Inputs.antt =====
-- What `submit_proof` of the ScanProof pallet (scanproof/pallets/proofs/src/lib.rs) checks of the
-- inputs of a private transfer, one by one.
use nulla_relay.Prelude.{
  ℕ, zero, suc, ◌+◌, ◌/◌, ◌%◌, ◌<◌, true, false, some, List, [], ◌∷◌, ◌≡◌, refl, subst, arith, ◌==◌,
  ltb, length, get_or, get_elem?, by_true, by_some, ==_iff, ltb→lt,
}
use nulla_relay.ScanProof.Types.{Config, ProofPublicInputs}
use nulla_relay.ScanProof.Storage.{State}
use nulla_relay.ScanProof.Notes.{hash2, leaf_hash}
use nulla_relay.ScanProof.Submit.{is_empty, below, fold_path, input_included, inputs_included}

-- Up a tree from a node to a root, along the siblings of a path: at an even index the node is the
-- left one of the two, at an odd index the right one.
pub data Leads (c : Config) (root : ℕ) : (node idx : ℕ) (path : List ℕ) → Type 0 where
  arrived : {idx : ℕ} → Leads c root root idx []
  as_left :
      {node idx sib : ℕ} {path : List ℕ}
      → idx % 2 ≡ 0
      → Leads c root (hash2 c node sib) (idx / 2) path
      → Leads c root node idx (sib ∷ path)
  as_right :
      {node idx sib : ℕ} {path : List ℕ}
      → idx % 2 ≡ 1
      → Leads c root (hash2 c sib node) (idx / 2) path
      → Leads c root node idx (sib ∷ path)

-- What is shown of the input at a place: its leaf leads to the anchor along the path that is given for
-- it, or its commitment has an index below the number of leaves that the anchor had.
pub data InputShown (c : Config) (s : State) (x : ProofPublicInputs) (i k : ℕ) : Type 0 where
  by_path :
      (path : List ℕ) (idx : ℕ)
      → get_elem? x.input_paths i ≡ some path
      → is_empty path ≡ false
      → get_elem? x.input_indices i ≡ some idx
      → Leads c x.merkle_root (leaf_hash c k) idx path
      → InputShown c s x i k
  by_index :
      (j : ℕ)
      → s.commitment_index k ≡ some j
      → j < s.root_leaf_count x.merkle_root
      → InputShown c s x i k

-- The same of all inputs from a place on.
pub data InputsShown (c : Config) (s : State) (x : ProofPublicInputs) : ℕ → List ℕ → Type 0 where
  no_more : {i : ℕ} → InputsShown c s x i []
  shown_next :
      {i k : ℕ} {ks : List ℕ}
      → InputShown c s x i k
      → InputsShown c s x (i + 1) ks
      → InputsShown c s x i (k ∷ ks)

get_elem?-get_or :
    {A : Type 0} (xs : List A) (i : ℕ) (d : A)
    → i < length xs
    → get_elem? xs i ≡ some (get_or xs i d)
get_elem?-get_or [] i d inside = absurd (omega arith)
get_elem?-get_or (x ∷ xs) zero d inside = refl
get_elem?-get_or (x ∷ xs) (suc i) d inside = get_elem?-get_or xs i d (omega arith)

module _ (c : Config) where
  fold_path-Leads :
      (root node idx : ℕ) (path : List ℕ)
      → fold_path c node idx path ≡ root
      → Leads c root node idx path
  unfolding fold_path
  fold_path-Leads root node idx [] same = subst (λ r. Leads c r node idx []) same arrived
  fold_path-Leads root node idx (sib ∷ path) same =
      by_true (idx % 2 == 0)
        (λ odd.
          as_right (ground arith)
            (fold_path-Leads root (hash2 c sib node) (idx / 2) path (rw odd at same)))
        λ even.
          as_left (ground arith)
            (fold_path-Leads root (hash2 c node sib) (idx / 2) path (rw even at same))

  module _ (s : State) (x : ProofPublicInputs) where
    abbrev anchor_count : ℕ
    anchor_count = s.root_leaf_count x.merkle_root

    indexed_input :
        (i k : ℕ) → below (s.commitment_index k) anchor_count ≡ true → InputShown c s x i k
    indexed_input i k known =
        by_some (s.commitment_index k) (λ new. absurd (ground arith))
          λ j found. by_index j found (ltb→lt j anchor_count (rw found at known))

    input_included-InputShown :
        (i k : ℕ)
        → input_included c x s.commitment_index anchor_count i k ≡ true
        → InputShown c s x i k
    input_included-InputShown i k included =
        let path = get_or x.input_paths i [] in
        let idx = get_or x.input_indices i 0 in
        by_true (ltb i (length x.input_paths)) (λ e. indexed_input i k (rw e at included))
          λ listed.
            by_true (is_empty path)
              (λ filled.
                by_true (ltb i (length x.input_indices))
                  (λ e. indexed_input i k (rw (listed, filled, e) at included))
                  λ numbered.
                    by_path path idx
                      (get_elem?-get_or x.input_paths i [] (ltb→lt i (length x.input_paths) listed))
                      filled
                      (get_elem?-get_or x.input_indices i 0
                        (ltb→lt i (length x.input_indices) numbered))
                      (fold_path-Leads x.merkle_root (leaf_hash c k) idx path (
                        (==_iff (fold_path c (leaf_hash c k) idx path) x.merkle_root).0
                          (rw (listed, filled, numbered) at included))))
              λ empty. indexed_input i k (rw (listed, empty) at included)

    pub inputs_included-InputsShown :
        (i : ℕ) (ks : List ℕ)
        → inputs_included c x s.commitment_index anchor_count i ks ≡ true
        → InputsShown c s x i ks
    unfolding inputs_included
    inputs_included-InputsShown i [] included = no_more
    inputs_included-InputsShown i (k ∷ ks) included =
        by_true (input_included c x s.commitment_index anchor_count i k)
          (λ e. absurd (ground arith))
          λ here.
            shown_next (input_included-InputShown i k here)
              (inputs_included-InputsShown (i + 1) ks (rw here at included))

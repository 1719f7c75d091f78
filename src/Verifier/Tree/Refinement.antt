-- ===== src/Verifier/Tree/Refinement.antt =====
-- A frontier and the leaves that it took in (proofhub/verifier/src/lib.rs, `Frontier` and
-- `reference_root`).
use native.Mathlib.Nat.{pow-succ'}
use nulla_relay.Prelude.{
  ℕ, zero, suc, ◌+◌, ◌/◌, ◌%◌, ◌^◌, ◌<◌, ◌≤◌, Option, none, some, List, [], ◌∷◌, ◌++◌, ◌≡◌, refl,
  sym, ◌∙◌, append-nil, append_assoc, arith, length, get_or, length-append, lt→ltb,
}
use nulla_relay.Verifier.Tree.{
  Frontier, zeros_from, insert_nodes, insert, fold_root, root, level_up, levels, reference_root,
  zero_subtrees, default_frontier, merkle_depth,
}
use nulla_relay.Verifier.Tree.Reference.{
  Holds, insert_nodes-Holds, length-insert_nodes, first_zero, levels_step, levels_start,
  fold_root-reference,
}

module _ (hash2 : ℕ → ℕ → ℕ) where
  Holds-none : (nodes : List ℕ) → Holds hash2 nodes []
  Holds-none [] = tt
  Holds-none (n ∷ nodes) = (tt, Holds-none nodes)

  -- What a frontier is, after it took in the leaves.
  pub record Represents (f : Frontier) (leaves : List ℕ) : Type 0 where
    pub depth : length f.nodes ≡ merkle_depth
    pub count : f.leaf_count ≡ length leaves
    pub holds : Holds hash2 f.nodes leaves

  pub default-Represents : Represents default_frontier []
  unfolding default_frontier
  default-Represents = record {
    depth = refl;
    count = refl;
    holds = Holds-none default_frontier.nodes;
  }

  pub insert-Represents :
      (f : Frontier) (leaves : List ℕ) (leaf : ℕ)
      → Represents f leaves
      → length leaves < 2 ^ merkle_depth
      → (f' : Frontier) × (insert hash2 f leaf ≡ some f') × Represents f' (leaves ++ leaf ∷ [])
  unfolding insert
  insert-Represents f leaves leaf h l = (
    record {
      nodes = insert_nodes hash2 f.nodes f.leaf_count leaf;
      leaf_count = (f.leaf_count + 1) % 2 ^ 32;
    },
    rw (lt→ltb f.leaf_count (2 ^ merkle_depth) (rw h.count l)) refl,
    record {
      depth = length-insert_nodes hash2 f.nodes f.leaf_count leaf ∙ h.depth;
      count = omega (arith, h.count, length-append leaves (leaf ∷ []));
      holds = rw h.count (insert_nodes-Holds hash2 f.nodes leaves leaf h.holds);
    },
  )

  pub root-reference :
      (f : Frontier) (leaves : List ℕ)
      → Represents f leaves
      → length leaves < 2 ^ merkle_depth
      → root hash2 f ≡ reference_root hash2 leaves
  unfolding root reference_root zero_subtrees
  root-reference f leaves h l =
      rw h.count (fold_root-reference hash2 merkle_depth f.nodes leaves h.depth l h.holds)

  -- The leaves go in one after the other.
  abbrev pub insert_all : List ℕ → Frontier → Option Frontier
  insert_all [] f = some f
  insert_all (leaf ∷ leaves) f = elim (insert hash2 f leaf) [
    | none ↦ none
    | some f' ↦ insert_all leaves f'
  ]

  insert_all-Represents :
      (f : Frontier) (before leaves : List ℕ)
      → Represents f before
      → length before + length leaves ≤ 2 ^ merkle_depth
      → (f' : Frontier) × (insert_all leaves f ≡ some f') × Represents f' (before ++ leaves)
  insert_all-Represents f before [] h l = (f, refl, rw (append-nil before) h)
  insert_all-Represents f before (leaf ∷ leaves) h l =
      let (f1, inserted, h1) = insert-Represents f before leaf h (omega arith) in
      let longer = length-append before (leaf ∷ []) in
      let (f2, all, h2) = insert_all-Represents f1 (before ++ leaf ∷ []) leaves h1 (omega arith) in
      (f2, rw (inserted, insert_all) all, rw (sym (append_assoc before (leaf ∷ []) leaves)) h2)

  -- Up to 2 ^ 20 - 1 leaves can be inserted one after the other, and the root that the frontier
  -- then gives is that of the whole tree over these leaves.
  pub root_refines :
      (leaves : List ℕ)
      → length leaves < 2 ^ merkle_depth
      → (f : Frontier) × (insert_all leaves default_frontier ≡ some f)
        × (root hash2 f ≡ reference_root hash2 leaves)
  root_refines leaves l =
      let (f, all, h) =
        insert_all-Represents default_frontier [] leaves default-Represents (omega arith) in
      (f, all, root-reference f leaves h l)

  fold_root-full :
      (k z : ℕ) (nodes : List ℕ)
      → length nodes ≡ k
      → fold_root hash2 nodes (zeros_from hash2 k z) (2 ^ k) z
        ≡ get_or (levels hash2 (zeros_from hash2 k z) (z ∷ [])) 0 0
  unfolding fold_root zeros_from levels level_up
  fold_root-full zero z [] n = refl
  fold_root-full zero z (x ∷ nodes) n = omega arith
  fold_root-full (suc k) z [] n = omega arith
  fold_root-full (suc k) z (x ∷ nodes) n =
      let double = pow-succ' 2 k in
      let even : 2 ^ suc k % 2 ≡ 0 = omega arith in
      let half : 2 ^ suc k / 2 ≡ 2 ^ k = omega arith in
      rw (even, half, levels_step hash2 k z (hash2 z z) (z ∷ []))
        (fold_root-full k (hash2 z z) nodes (omega arith))

  fold_root-empty :
      (k : ℕ) (nodes : List ℕ)
      → length nodes ≡ k
      → fold_root hash2 nodes (zeros_from hash2 k 0) (2 ^ k) (get_or (zeros_from hash2 k 0) 0 0)
        ≡ get_or (levels hash2 (zeros_from hash2 k 0) []) 0 0
  fold_root-empty k nodes n =
      rw (first_zero hash2 k 0) (fold_root-full k 0 nodes n ∙ levels_start hash2 k [])

  -- The 2 ^ 20 leaves that the tree has room for can all be inserted, and the root that the
  -- frontier then gives is that of the empty tree.
  pub full_tree_root :
      (leaves : List ℕ)
      → length leaves ≡ 2 ^ merkle_depth
      → (f : Frontier) × (insert_all leaves default_frontier ≡ some f)
        × (root hash2 f ≡ reference_root hash2 [])
  unfolding root reference_root zero_subtrees
  full_tree_root leaves l =
      let (f, all, h) =
        insert_all-Represents default_frontier [] leaves default-Represents (omega arith) in
      (f, all, rw (h.count, l) (fold_root-empty merkle_depth f.nodes h.depth))

-- ===== src/Verifier/Tree/Paths.antt =====
-- Merkle paths against the tree of all leaves (proofhub/verifier/src/lib.rs,
-- `verify_merkle_path` and `reference_root`).
use native.Mathlib.Nat.{pow-succ'}
use nulla_relay.Prelude.{
  ℕ, zero, suc, ◌+◌, ◌-◌, ◌*◌, ◌/◌, ◌%◌, ◌^◌, ◌<◌, true, false, none, some, List, [], ◌∷◌, ◌≡◌,
  refl, sym, ap, ◌∙◌, ◌⊎◌, inl, inr, arith, ◌&&◌, ◌==◌, ==_iff, if◌then◌else◌, length, get_or,
  get_elem?, by_true,
}
use nulla_relay.Verifier.Tree.{
  zeros_from, zero_subtrees, or_zero, level_up, levels, reference_root, fold_path,
  verify_merkle_path, merkle_depth,
}
use nulla_relay.Verifier.Tree.Reference.{levels_step}

-- The index of the sibling.
abbrev pub flip : ℕ → ℕ
flip idx = if idx % 2 == 0 then idx + 1 else idx - 1

module _ (hash2 : ℕ → ℕ → ℕ) where
  -- The siblings of the node at an index of a level, up to the root; `z` stands where no node is.
  abbrev pub siblings : (steps z : ℕ) (level : List ℕ) (idx : ℕ) → List ℕ
  siblings zero z level idx = []
  siblings (suc steps) z level idx =
      get_or level (flip idx) z
      ∷ siblings steps (hash2 z z) (or_zero (hash2 z z) (level_up hash2 z level)) (idx / 2)

  get_or-level_up :
      (z : ℕ) (level : List ℕ) (j : ℕ)
      → get_or (level_up hash2 z level) j (hash2 z z)
        ≡ hash2 (get_or level (2 * j) z) (get_or level (2 * j + 1) z)
  unfolding level_up
  get_or-level_up z [] j = refl
  get_or-level_up z (x ∷ []) zero = refl
  get_or-level_up z (x ∷ []) (suc j) =
      let even : 2 * suc j ≡ suc (suc (2 * j)) = omega arith in
      let odd : 2 * suc j + 1 ≡ suc (suc (2 * j + 1)) = omega arith in rw (odd, even) refl
  get_or-level_up z (x ∷ y ∷ level) zero = refl
  get_or-level_up z (x ∷ y ∷ level) (suc j) =
      let even : 2 * suc j ≡ suc (suc (2 * j)) = omega arith in
      let odd : 2 * suc j + 1 ≡ suc (suc (2 * j + 1)) = omega arith in
      rw (odd, even) (get_or-level_up z level j)

  get_or-or_zero :
      (z : ℕ) (level : List ℕ) (j : ℕ) → get_or (or_zero z level) j z ≡ get_or level j z
  get_or-or_zero z [] zero = refl
  get_or-or_zero z [] (suc j) = refl
  get_or-or_zero z (x ∷ level) j = refl

  -- The node above a node and its sibling.
  node_up :
      (z idx : ℕ) (level : List ℕ)
      → (if idx % 2 == 0
          then hash2 (get_or level idx z) (get_or level (flip idx) z)
          else hash2 (get_or level (flip idx) z) (get_or level idx z))
        ≡ get_or (or_zero (hash2 z z) (level_up hash2 z level)) (idx / 2) (hash2 z z)
  node_up z idx level =
      let above =
        get_or-or_zero (hash2 z z) (level_up hash2 z level) (idx / 2)
        ∙ get_or-level_up z level (idx / 2) in
      by_true (idx % 2 == 0)
        (λ right.
          let left : idx - 1 ≡ 2 * (idx / 2) = ground arith in
          let here : idx ≡ 2 * (idx / 2) + 1 = ground arith in
          rw right (
            ap (λ n. hash2 (get_or level n z) (get_or level idx z)) left
            ∙ ap (λ n. hash2 (get_or level (2 * (idx / 2)) z) (get_or level n z)) here
            ∙ sym above))
        λ even.
          let here : idx ≡ 2 * (idx / 2) = ground arith in
          rw even (ap (λ n. hash2 (get_or level n z) (get_or level (n + 1) z)) here ∙ sym above)

  fold_path-levels :
      (k z : ℕ) (level : List ℕ) (idx : ℕ)
      → idx < 2 ^ k
      → fold_path hash2 (siblings k z (or_zero z level) idx) idx (get_or (or_zero z level) idx z)
        ≡ get_or (levels hash2 (zeros_from hash2 k z) (or_zero z level)) 0 0
  unfolding fold_path zeros_from levels
  fold_path-levels zero z [] idx small = let first : idx ≡ 0 = omega arith in rw first refl
  fold_path-levels zero z (x ∷ level) idx small = let first : idx ≡ 0 = omega arith in rw first refl
  fold_path-levels (suc k) z level idx small =
      let double = pow-succ' 2 k in
      let here = or_zero z level in
      let up = level_up hash2 z here in
      ap (fold_path hash2 (siblings k (hash2 z z) (or_zero (hash2 z z) up) (idx / 2)) (idx / 2))
        (node_up z idx here)
      ∙ fold_path-levels k (hash2 z z) up (idx / 2) (omega arith)
      ∙ ap (λ top. get_or top 0 0) (sym (levels_step hash2 k z (hash2 z z) here))

  get_or_found : (xs : List ℕ) (i x d : ℕ) → get_elem? xs i ≡ some x → get_or xs i d ≡ x
  get_or_found [] i x d e = ground arith
  get_or_found (y ∷ xs) zero x d e = ap (λ o. elim o [ none ↦ y | some v ↦ v ]) e
  get_or_found (y ∷ xs) (suc i) x d e = get_or_found xs i x d e

  fold_path-siblings :
      (k : ℕ) (leaves : List ℕ) (i leaf : ℕ)
      → i < 2 ^ k
      → get_elem? leaves i ≡ some leaf
      → fold_path hash2 (siblings k 0 leaves i) i leaf
        ≡ get_or (levels hash2 (zeros_from hash2 k 0) leaves) 0 0
  fold_path-siblings k [] i leaf small found = ground arith
  fold_path-siblings k (y ∷ leaves) i leaf small found =
      ap (fold_path hash2 (siblings k 0 (y ∷ leaves) i) i)
        (sym (get_or_found (y ∷ leaves) i leaf 0 found))
      ∙ fold_path-levels k 0 (y ∷ leaves) i small

  -- The path of a leaf, made of the siblings in the tree over all leaves, verifies against the root
  -- of that tree.
  pub path_verifies :
      (leaves : List ℕ) (i leaf : ℕ)
      → i < 2 ^ merkle_depth
      → get_elem? leaves i ≡ some leaf
      → verify_merkle_path hash2 leaf i
          (siblings merkle_depth 0 leaves i)
          (reference_root hash2 leaves)
        ≡ true
  unfolding verify_merkle_path reference_root zero_subtrees
  path_verifies leaves i leaf small found =
      (==_iff (fold_path hash2 (siblings merkle_depth 0 leaves i) i leaf)
          (get_or (levels hash2 (zeros_from hash2 merkle_depth 0) leaves) 0 0)).1
        (fold_path-siblings merkle_depth leaves i leaf small found)

  -- The node above a node at an index and its sibling.
  abbrev pub node_above : (idx node sib : ℕ) → ℕ
  node_above idx node sib = if idx % 2 == 0 then hash2 node sib else hash2 sib node

  -- Two paths from an index collide: at some level, their two pairs of a node and its sibling are not
  -- the same pair, and the nodes above them are.
  pub data Collide : (p q : List ℕ) (idx a b : ℕ) → Type 0 where
    at_level :
        {x y idx a b : ℕ} {p q : List ℕ}
        → ((a == b) && (x == y)) ≡ false
        → node_above idx a x ≡ node_above idx b y
        → Collide (x ∷ p) (y ∷ q) idx a b
    above :
        {x y idx a b : ℕ} {p q : List ℕ}
        → Collide p q (idx / 2) (node_above idx a x) (node_above idx b y)
        → Collide (x ∷ p) (y ∷ q) idx a b

  fold_path_binds :
      (p q : List ℕ) (idx a b : ℕ)
      → length p ≡ length q
      → fold_path hash2 p idx a ≡ fold_path hash2 q idx b
      → (a ≡ b) ⊎ Collide p q idx a b
  unfolding fold_path
  fold_path_binds [] [] idx a b l e = inl e
  fold_path_binds [] (y ∷ q) idx a b l e = ground arith
  fold_path_binds (x ∷ p) [] idx a b l e = ground arith
  fold_path_binds (x ∷ p) (y ∷ q) idx a b l e =
      elim (fold_path_binds p q (idx / 2) (node_above idx a x) (node_above idx b y) (omega arith)
        e) [
          | inr c ↦ inr (above c)
          | inl same ↦
              by_true ((a == b) && (x == y)) (λ differ. inr (at_level differ same))
                λ equal. inl (ground arith)
        ]

  path_binds :
      (leaf other i top : ℕ) (p q : List ℕ)
      → length p ≡ length q
      → verify_merkle_path hash2 leaf i p top ≡ true
      → verify_merkle_path hash2 other i q top ≡ true
      → (leaf ≡ other) ⊎ Collide p q i leaf other
  unfolding verify_merkle_path
  path_binds leaf other i top p q l h k = fold_path_binds p q i leaf other l (
      (==_iff (fold_path hash2 p i leaf) top).0 h
      ∙ sym ((==_iff (fold_path hash2 q i other) top).0 k))

  length-siblings : (k z : ℕ) (level : List ℕ) (idx : ℕ) → length (siblings k z level idx) ≡ k
  length-siblings zero z level idx = refl
  length-siblings (suc k) z level idx = omega (
    arith,
    length-siblings k (hash2 z z) (or_zero (hash2 z z) (level_up hash2 z level)) (idx / 2),
  )

  -- A path of 20 siblings that verifies for an index, against the root of the tree over the leaves,
  -- verifies for the leaf at that index; or else it collides with the path of that leaf, which is made
  -- of the siblings in the tree: at some level the two paths have different pairs of a node and its
  -- sibling, with the same node above.
  pub path_proves_leaf :
      (leaves : List ℕ) (i leaf other : ℕ) (path : List ℕ)
      → i < 2 ^ merkle_depth
      → get_elem? leaves i ≡ some leaf
      → length path ≡ merkle_depth
      → verify_merkle_path hash2 other i path (reference_root hash2 leaves) ≡ true
      → (leaf ≡ other) ⊎ Collide (siblings merkle_depth 0 leaves i) path i leaf other
  path_proves_leaf leaves i leaf other path small found long verified =
      path_binds leaf other i (reference_root hash2 leaves) (siblings merkle_depth 0 leaves i) path
        (length-siblings merkle_depth 0 leaves i ∙ sym long)
        (path_verifies leaves i leaf small found) verified

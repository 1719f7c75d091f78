-- ===== src/Verifier/Tree/Reference.antt =====
-- The frontier of the tree against the tree of all its leaves (proofhub/verifier/src/lib.rs,
-- `Frontier` and `reference_root`).
use native.Mathlib.Nat.{pow-succ'}
use nulla_relay.Prelude.{
  ℕ, zero, suc, ◌/◌, ◌^◌, ◌<◌, List, [], ◌∷◌, ◌++◌, ◌≡◌, refl, sym, ◌∙◌, inl, inr, arith, length,
  get_or,
}
use nulla_relay.Verifier.Tree.{zeros_from, insert_nodes, fold_root, or_zero, level_up, levels}
use nulla_relay.Verifier.Tree.Levels.{Pending, pairs, end_cases, length-pairs}

module _ (hash2 : ℕ → ℕ → ℕ) where
  -- The nodes of a frontier hold the pending node of each level over the leaves.
  abbrev pub Holds : (nodes level : List ℕ) → Type 0
  Holds [] level = Unit
  Holds (n ∷ nodes) level = Pending n level × Holds nodes (pairs hash2 level)

  pub insert_nodes-Holds :
      (nodes level : List ℕ) (x : ℕ)
      → Holds nodes level
      → Holds (insert_nodes hash2 nodes (length level) x) (level ++ x ∷ [])
  unfolding insert_nodes
  insert_nodes-Holds [] level x h = tt
  insert_nodes-Holds (n ∷ nodes) level x (pending, h) = elim (end_cases hash2 level) [
    | inl e ↦ rw e.even (e.left_pending x, rw (e.pairs_same x) h)
    | inr o ↦ rw o.odd (
      o.none_pending n x,
      rw (o.pairs_more n x pending, sym (length-pairs hash2 level))
          (insert_nodes-Holds nodes (pairs hash2 level) (hash2 n x) h),
    )
  ]

  pub length-insert_nodes :
      (nodes : List ℕ) (idx x : ℕ) → length (insert_nodes hash2 nodes idx x) ≡ length nodes
  unfolding insert_nodes
  length-insert_nodes [] idx x = refl
  length-insert_nodes (n ∷ nodes) idx x =
      let rest = length-insert_nodes nodes (idx / 2) (hash2 n x) in ground arith

  pub levels_step :
      (k z z' : ℕ) (level : List ℕ)
      → levels hash2 (z ∷ zeros_from hash2 k z') level
        ≡ levels hash2 (zeros_from hash2 k z') (or_zero z' (level_up hash2 z level))
  unfolding levels zeros_from
  levels_step zero z z' level = refl
  levels_step (suc k) z z' level = refl

  or_zero_snoc : (z x : ℕ) (xs : List ℕ) → or_zero z (xs ++ x ∷ []) ≡ xs ++ x ∷ []
  or_zero_snoc z x [] = refl
  or_zero_snoc z x (y ∷ ys) = refl

  -- The cursor of `Frontier::root` is the last node of the level, whose other nodes are complete.
  fold_root-levels :
      (k z cursor : ℕ) (nodes level : List ℕ)
      → length nodes ≡ k
      → length level < 2 ^ k
      → Holds nodes level
      → fold_root hash2 nodes (zeros_from hash2 k z) (length level) cursor
        ≡ get_or (levels hash2 (zeros_from hash2 k z) (level ++ cursor ∷ [])) 0 0
  unfolding fold_root zeros_from levels
  fold_root-levels zero z cursor [] [] n l h = refl
  fold_root-levels zero z cursor [] (x ∷ level) n l h = omega arith
  fold_root-levels zero z cursor (x ∷ nodes) level n l h = omega arith
  fold_root-levels (suc k) z cursor [] level n l h = omega arith
  fold_root-levels (suc k) z cursor (n ∷ nodes) level len l (pending, h) =
      let half = length-pairs hash2 level in
      let double = pow-succ' 2 k in
      let above = λ (last : ℕ).
        fold_root-levels k (hash2 z z) last nodes (pairs hash2 level) (omega arith) (omega arith)
          h in
      elim (end_cases hash2 level) [
        | inl e ↦
            rw
              (
                e.even,
                levels_step k z (hash2 z z) (level ++ cursor ∷ []),
                e.up_padded z cursor,
                or_zero_snoc (hash2 z z) (hash2 cursor z) (pairs hash2 level),
                sym half,
              )
              (above (hash2 cursor z))
        | inr o ↦
            rw
              (
                o.odd,
                levels_step k z (hash2 z z) (level ++ cursor ∷ []),
                o.up_paired z n cursor pending,
                or_zero_snoc (hash2 z z) (hash2 n cursor) (pairs hash2 level),
                sym half,
              )
              (above (hash2 n cursor))
      ]

  -- A zero subtree at the end of a level changes nothing.
  levels_padded :
      (k z : ℕ) (level : List ℕ)
      → get_or (levels hash2 (zeros_from hash2 k z) (level ++ z ∷ [])) 0 0
        ≡ get_or (levels hash2 (zeros_from hash2 k z) (or_zero z level)) 0 0
  unfolding zeros_from levels level_up
  levels_padded k z [] = refl
  levels_padded zero z (x ∷ level) = refl
  levels_padded (suc k) z (x ∷ level) = elim (end_cases hash2 (x ∷ level)) [
    | inl e ↦
        rw
          (
            levels_step k z (hash2 z z) (x ∷ level ++ z ∷ []),
            levels_step k z (hash2 z z) (x ∷ level),
            e.up_padded z z,
            e.up_pairs z,
            or_zero_snoc (hash2 z z) (hash2 z z) (pairs hash2 (x ∷ level)),
          )
          (levels_padded k (hash2 z z) (pairs hash2 (x ∷ level)))
    | inr o ↦
        rw
          (
            levels_step k z (hash2 z z) (x ∷ level ++ z ∷ []),
            levels_step k z (hash2 z z) (x ∷ level),
            o.up_pad z,
          )
          refl
  ]

  pub first_zero : (k z : ℕ) → get_or (zeros_from hash2 k z) 0 0 ≡ z
  unfolding zeros_from
  first_zero zero z = refl
  first_zero (suc k) z = refl

  pub levels_start :
      (k : ℕ) (level : List ℕ)
      → get_or (levels hash2 (zeros_from hash2 k 0) (or_zero 0 level)) 0 0
        ≡ get_or (levels hash2 (zeros_from hash2 k 0) level) 0 0
  unfolding zeros_from levels level_up
  levels_start zero [] = refl
  levels_start (suc k) [] =
      rw (levels_step k 0 (hash2 0 0) (0 ∷ []), levels_step k 0 (hash2 0 0) []) refl
  levels_start k (x ∷ level) = refl

  pub fold_root-reference :
      (k : ℕ) (nodes leaves : List ℕ)
      → length nodes ≡ k
      → length leaves < 2 ^ k
      → Holds nodes leaves
      → fold_root hash2 nodes
          (zeros_from hash2 k 0)
          (length leaves)
          (get_or (zeros_from hash2 k 0) 0 0)
        ≡ get_or (levels hash2 (zeros_from hash2 k 0) leaves) 0 0
  fold_root-reference k nodes leaves n l h =
      rw (first_zero k 0) (
        fold_root-levels k 0 0 nodes leaves n l h
        ∙ levels_padded k 0 leaves
        ∙ levels_start k leaves)

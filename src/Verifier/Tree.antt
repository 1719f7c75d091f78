-- ===== src/Verifier/Tree.antt =====
-- The incremental Merkle tree of depth 20 (proofhub/verifier/src/lib.rs, `mod v2`), over its node
-- hash: `merkle_hash2` takes the place of `hash2`.
pub mod Levels
pub mod Reference
pub mod Refinement
pub mod Paths
use nulla_relay.Prelude.{
  ℕ, zero, suc, ◌+◌, ◌/◌, ◌%◌, ◌^◌, Bool, Option, none, some, List, [], ◌∷◌, ◌==◌, ltb,
  if◌then◌else◌, get_or, replicate,
}

abbrev pub merkle_depth : ℕ
merkle_depth = 20

pub record Frontier : Type 0 where
  pub nodes : List ℕ
  pub leaf_count : ℕ

-- `Frontier::default`
unfoldable pub default_frontier : Frontier
default_frontier = record { nodes = replicate merkle_depth 0; leaf_count = 0 }

-- `if next.is_empty() { next.push(z[d + 1]); }`
abbrev pub or_zero : ℕ → List ℕ → List ℕ
or_zero z [] = z ∷ []
or_zero z (x ∷ xs) = x ∷ xs

module _ (hash2 : ℕ → ℕ → ℕ) where
  -- The constants from one level up, `steps` levels after it.
  unfoldable pub zeros_from : (steps z : ℕ) → List ℕ
  zeros_from zero z = z ∷ []
  zeros_from (suc steps) z = z ∷ zeros_from steps (hash2 z z)

  unfoldable pub zero_subtrees : List ℕ
  unfolding zeros_from
  zero_subtrees = zeros_from merkle_depth 0

  -- The loop of `Frontier::insert` over the nodes from one depth on.
  unfoldable pub insert_nodes : (nodes : List ℕ) (idx node : ℕ) → List ℕ
  insert_nodes [] idx node = []
  insert_nodes (n ∷ nodes) idx node =
      let rest = insert_nodes nodes (idx / 2) (hash2 n node) in
      if idx % 2 == 0 then node ∷ nodes else n ∷ rest

  -- `Frontier::insert`; `leaf_count` is `u32`.
  unfoldable pub insert : Frontier → ℕ → Option Frontier
  unfolding insert_nodes
  insert f leaf =
      if ltb f.leaf_count (2 ^ merkle_depth)
      then some (record {
        nodes = insert_nodes f.nodes f.leaf_count leaf;
        leaf_count = (f.leaf_count + 1) % 2 ^ 32;
      })
      else none

  -- The loop of `Frontier::root` over the nodes and the zero subtrees from one depth on.
  unfoldable pub fold_root : (nodes zeros : List ℕ) (idx node : ℕ) → ℕ
  fold_root (n ∷ nodes) (z ∷ zeros) idx node =
      fold_root nodes zeros (idx / 2) (if idx % 2 == 1 then hash2 n node else hash2 node z)
  fold_root (n ∷ nodes) [] idx node = node
  fold_root [] zeros idx node = node

  -- `Frontier::root`
  unfoldable pub root : Frontier → ℕ
  unfolding zero_subtrees fold_root
  root f = fold_root f.nodes zero_subtrees f.leaf_count (get_or zero_subtrees 0 0)

  -- The inner loop of `reference_root`: a level from the one below it, where `z` pads.
  unfoldable pub level_up : ℕ → List ℕ → List ℕ
  level_up z [] = []
  level_up z (l ∷ []) = hash2 l z ∷ []
  level_up z (l ∷ r ∷ level) = hash2 l r ∷ level_up z level

  -- The outer loop, over the zero subtrees from one depth on; the last level is the root.
  unfoldable pub levels : (zeros level : List ℕ) → List ℕ
  unfolding level_up
  levels [] level = level
  levels (z ∷ []) level = level
  levels (z ∷ z' ∷ zeros) level = levels (z' ∷ zeros) (or_zero z' (level_up z level))

  unfoldable pub reference_root : List ℕ → ℕ
  unfolding zero_subtrees levels
  reference_root leaves = get_or (levels zero_subtrees leaves) 0 0

  -- The loop of `verify_merkle_path`, over the siblings from one depth on.
  unfoldable pub fold_path : (siblings : List ℕ) (idx node : ℕ) → ℕ
  fold_path [] idx node = node
  fold_path (s ∷ siblings) idx node =
      fold_path siblings (idx / 2) (if idx % 2 == 0 then hash2 node s else hash2 s node)

  unfoldable pub verify_merkle_path : (leaf index : ℕ) (siblings : List ℕ) (root : ℕ) → Bool
  unfolding fold_path
  verify_merkle_path leaf index siblings root = fold_path siblings index leaf == root

  -- The runtime's `v2_insert_leaf` (proofhub/runtime/src/configs/mod.rs).
  abbrev pub with_root : Option Frontier → Option (List ℕ × ℕ × ℕ)
  with_root none = none
  with_root (some frontier) = some (frontier.nodes, frontier.leaf_count, root frontier)

  unfoldable pub v2_insert_leaf : (nodes : List ℕ) (leaf_count leaf : ℕ) → Option (List ℕ × ℕ × ℕ)
  v2_insert_leaf nodes leaf_count leaf =
      with_root (insert (record { nodes = nodes; leaf_count = leaf_count }) leaf)

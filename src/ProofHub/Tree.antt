-- ===== src/ProofHub/Tree.antt =====
-- The v2 note tree of the ProofHub pallet (proofhub/pallets/proofs/src/lib.rs): which roots a
-- proof may be anchored to, and the insertion of a leaf.
use nulla_relay.Prelude.{
  ℕ, Bool, true, false, not, ◌||◌, some, List, [], ◌∷◌, ◌==◌, ltb, is_some, if◌then◌else◌,
}
use nulla_relay.Frame.{update, gets, ok_or, pure, modify, ensure, ◌>>=◌, ◌>>◌}
use nulla_relay.ProofHub.Types.{Config, duplicate_leaf, tree_full_v2}
use nulla_relay.ProofHub.Storage.{State, Action, Call}
use nulla_relay.ProofHub.Notes.{push_recent}

-- `.iter().any(|r| r == root)`
abbrev pub any_equal : ℕ → List ℕ → Bool
any_equal root [] = false
any_equal root (r ∷ rs) = r == root || any_equal root rs

unfoldable pub v2_root_anchored : ℕ → State → Bool
v2_root_anchored root s =
    if root == s.current_root_v2 then true else any_equal root s.recent_roots_v2

abbrev pub remember_root : (count prev : ℕ) → Call
remember_root count prev = modify (λ s. record s {
  recent_roots_v2 = if ltb 0 count then push_recent prev s.recent_roots_v2 else s.recent_roots_v2;
})

module _ (c : Config) where
  -- The leaf's index and the new root.
  unfoldable pub v2_insert : ℕ → Action (ℕ × ℕ)
  unfolding push_recent
  v2_insert leaf = do
    present ← gets (λ s. is_some (s.leaf_index_v2 leaf))
    ensure (not present) duplicate_leaf
    nodes ← gets (λ s. s.frontier_nodes_v2)
    count ← gets (λ s. s.leaf_count_v2)
    inserted ← ok_or (c.v2_insert_leaf nodes count leaf) tree_full_v2
    modify (λ s. record s {
      frontier_nodes_v2 = inserted.0;
      leaf_count_v2 = inserted.1;
      leaf_index_v2 = update leaf (some count) s.leaf_index_v2;
    })
    prev ← gets (λ s. s.current_root_v2)
    modify (λ s. record s { current_root_v2 = inserted.2 })
    remember_root count prev
    pure (count, inserted.2)

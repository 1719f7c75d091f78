-- ===== src/ScanProof/Notes.antt =====
-- The note tree of the ScanProof pallet (scanproof/pallets/proofs/src/lib.rs): its root, the
-- insertion of a note, and the roots that a proof may be anchored to.
pub mod Root
use nulla_relay.Prelude.{
  ℕ, zero, suc, ◌/◌, ◌%◌, ◌^◌, true, false, not, some, List, [], ◌∷◌, ◌++◌, ◌==◌, Bool, ltb,
  is_some, if◌then◌else◌, length, get_or, to_le_bytes,
}
use nulla_relay.Frame.{Exec, update, gets, pure, modify, ensure, ◌>>=◌, ◌>>◌}
use nulla_relay.ProofHub.Notes.{pad_level, push_recent}
use nulla_relay.ProofHub.Tree.{any_equal}
use nulla_relay.ScanProof.Types.{Config, tree_full}
use nulla_relay.ScanProof.Storage.{State, Action, Call}

abbrev pub max_leaves : ℕ
max_leaves = 1048576

module _ (c : Config) where
  unfoldable pub hash2 : ℕ → ℕ → ℕ
  hash2 left right = c.blake2_256 (to_le_bytes 32 left ++ to_le_bytes 32 right)

  -- The second half of the 64 bytes stays zero.
  unfoldable pub leaf_hash : ℕ → ℕ
  leaf_hash commitment = c.blake2_256 (to_le_bytes 32 commitment ++ to_le_bytes 32 0)

  -- One round over `cur.chunks(2)`.
  unfoldable pub next_level : List ℕ → List ℕ
  next_level [] = []
  next_level (a ∷ []) = hash2 a 0 ∷ []
  next_level (a ∷ b ∷ rest) = hash2 a b ∷ next_level rest

  -- `while cur.len() > 1`, on fuel.
  unfoldable pub fold_levels : ℕ → List ℕ → List ℕ
  fold_levels zero cur = cur
  fold_levels (suc fuel) cur =
      let rest = fold_levels fuel (next_level cur) in if ltb 1 (length cur) then rest else cur

  -- The fuel is the number of leaves for padding, and of padded leaves for folding.
  unfoldable pub compute_merkle_root : List ℕ → ℕ
  compute_merkle_root [] = 0
  compute_merkle_root (x ∷ xs) =
      let level = pad_level (length (x ∷ xs)) (x ∷ xs) in
      get_or (fold_levels (length level) level) 0 0

-- The anchor is the current root or one of the window.
abbrev pub anchored : ℕ → State → Bool
anchored anchor s = if anchor == s.current_root then true else any_equal anchor s.recent_roots

-- From `let prev = CurrentRoot::get()` to `RecentRoots::put`, once the leaves are stored.
unfoldable pub advance_root : (computed_root : ℕ) → Call
unfolding push_recent
advance_root computed_root = do
  prev ← gets (λ s. s.current_root)
  modify (λ s. record s { current_root = computed_root })
  modify (λ s. record s { merkle_root = computed_root })
  leaf_count ← gets (λ s. length s.leaves % 2 ^ 32)
  modify (λ s. record s { root_leaf_count = update computed_root leaf_count s.root_leaf_count })
  modify (λ s. record s { recent_roots = push_recent prev s.recent_roots })

-- `leaves.try_push(leaf).map_err(|_| Error::<T>::TreeFull)?`
abbrev pub try_push_leaf : ℕ → List ℕ → Action (List ℕ)
try_push_leaf leaf leaves = do
  ensure (ltb (length leaves) max_leaves) tree_full
  pure (leaves ++ leaf ∷ [])

module _ (c : Config) where
  -- A note goes into the tree; the new root.
  unfoldable pub append_note : (commitment : ℕ) → Action ℕ
  append_note commitment = do
    leaves ← gets (λ s. s.leaves)
    ensure (ltb (length leaves) max_leaves) tree_full
    grown ← try_push_leaf (leaf_hash c commitment) leaves
    modify (λ s. record s {
      commitment_index = update commitment (some (length leaves % 2 ^ 32)) s.commitment_index;
    })
    let computed_root = compute_merkle_root c grown
    modify (λ s. record s { leaves = grown })
    advance_root computed_root
    pure computed_root

-- ===== src/ProofHub/Notes.antt =====
-- The v1 note tree of the ProofHub pallet (proofhub/pallets/proofs/src/lib.rs): its root, the
-- insertion of a note, and the window of recent roots.
pub mod Window
pub mod Root
use Prim.Native.Nat.{bit_and}
use nulla_relay.Prelude.{
  ℕ, zero, suc, ◌+◌, ◌-◌, Bool, true, false, Option, none, some, List, [], ◌∷◌, ◌++◌, ◌==◌, ltb,
  leb, is_some, if◌then◌else◌, length, drop, get_or, to_le_bytes, ascii,
}
use nulla_relay.Frame.{update, gets, pure, modify, ◌>>=◌, ◌>>◌}
use nulla_relay.ProofHub.Types.{Config}
use nulla_relay.ProofHub.Storage.{State, Action, Call}

abbrev pub max_leaves : ℕ
max_leaves = 1048576

-- A window of 64 values: the oldest is dropped when it is full.
unfoldable pub push_recent : ℕ → List ℕ → List ℕ
push_recent prev window =
    let shifted = if leb 64 (length window) then drop 1 window else window in
    if ltb (length shifted) 64 then shifted ++ prev ∷ [] else shifted

-- `while level.len() & (level.len() - 1) != 0 { level.push(zero) }`, on fuel.
unfoldable pub pad_level : ℕ → List ℕ → List ℕ
pad_level zero level = level
pad_level (suc fuel) level =
    let rest = pad_level fuel (level ++ 0 ∷ []) in
    if bit_and (length level) (length level - 1) == 0 then level else rest

module _ (c : Config) where
  unfoldable pub hash2 : ℕ → ℕ → ℕ
  hash2 left right = c.blake2_256 (to_le_bytes 32 left ++ to_le_bytes 32 right)

  -- The second half of the 64 bytes stays zero.
  unfoldable pub leaf_hash : ℕ → ℕ
  leaf_hash commitment = c.blake2_256 (to_le_bytes 32 commitment ++ to_le_bytes 32 0)

  -- One round over `cur.chunks(2)`.
  unfoldable pub next_level : List ℕ → List ℕ
  next_level [] = []
  next_level (a ∷ []) = hash2 a 0 ∷ []
  next_level (a ∷ b ∷ rest) = hash2 a b ∷ next_level rest

  -- `while cur.len() > 1`, on fuel.
  unfoldable pub fold_levels : ℕ → List ℕ → List ℕ
  fold_levels zero cur = cur
  fold_levels (suc fuel) cur =
      let rest = fold_levels fuel (next_level cur) in if ltb 1 (length cur) then rest else cur

  -- The fuel is the number of leaves for padding, and of padded leaves for folding.
  unfoldable pub compute_merkle_root : List ℕ → ℕ
  unfolding pad_level fold_levels next_level hash2
  compute_merkle_root [] = 0
  compute_merkle_root (x ∷ xs) =
      let level = pad_level (length (x ∷ xs)) (x ∷ xs) in
      get_or (fold_levels (length level) level) 0 0

  -- The leaves are the caller's vector, which comes back with the root.
  unfoldable pub do_insert_note : (commitment spend_tag : ℕ) → List ℕ → Action (Option ℕ × List ℕ)
  do_insert_note commitment spend_tag leaves s =
      (if is_some (s.commitment_index commitment) then pure (none, leaves) else do
        let grown = leaves ++ leaf_hash commitment ∷ []
        modify (λ s. record s {
          commitment_index = update commitment (some (length leaves)) s.commitment_index;
        })
        modify (λ s. record s {
          spend_tag_commitments = update spend_tag (some commitment) s.spend_tag_commitments;
        })
        pure (some (compute_merkle_root grown), grown))
        s

-- A vector that does not fit its bound becomes empty, by `unwrap_or_default`.
abbrev pub bounded_leaves : List ℕ → List ℕ
bounded_leaves leaves = if leb (length leaves) max_leaves then leaves else []

unfoldable pub commit_merkle : List ℕ → ℕ → Call
unfolding push_recent
commit_merkle leaves_vec new_root = do
  let bounded = bounded_leaves leaves_vec
  modify (λ s. record s { leaves = bounded })
  prev ← gets (λ s. s.current_root)
  modify (λ s. record s { current_root = new_root; merkle_root = new_root })
  modify (λ s. record s { root_leaf_count = update new_root (length bounded) s.root_leaf_count })
  modify (λ s. record s { recent_roots = push_recent prev s.recent_roots })

module _ (c : Config) where
  unfoldable pub compute_ownership_commitment : ℕ → ℕ → ℕ
  compute_ownership_commitment rwa_id blinding =
      c.blake3
        (ascii "nulla_rwa_ownership_v1" ++ (to_le_bytes 32 rwa_id ++ to_le_bytes 32 blinding))

  unfoldable pub compute_pk_digest : List ℕ → ℕ
  compute_pk_digest pk = c.blake3 (ascii "nulla_pk_digest_v2" ++ pk)

-- ===== src/ScanProof/Notes/Root.antt =====
-- The Merkle root of the ScanProof pallet (scanproof/pallets/proofs/src/lib.rs) against that of the
-- ProofHub pallet (proofhub/pallets/proofs/src/lib.rs), which repeats its code.
use nulla_relay.Prelude.{
  ℕ, zero, suc, List, [], ◌∷◌, ◌++◌, ◌≡◌, refl, ap, ap₂, ◌∙◌, ltb, length, get_or, if◌then◌else◌,
  to_le_bytes,
}
use nulla_relay.ProofHub
use nulla_relay.ProofHub.Notes
use nulla_relay.ProofHub.Notes.{pad_level}
use nulla_relay.ScanProof.Types.{Config}
use nulla_relay.ScanProof.Notes.{hash2, next_level, fold_levels, compute_merkle_root}

module _ (c : Config) (d : ProofHub.Types.Config) (same : c.blake2_256 ≡ d.blake2_256) where
  same_hash2 : (a b : ℕ) → hash2 c a b ≡ ProofHub.Notes.hash2 d a b
  unfolding hash2 ProofHub.Notes.hash2
  same_hash2 a b = ap (λ h. h (to_le_bytes 32 a ++ to_le_bytes 32 b)) same

  same_next_level : (level : List ℕ) → next_level c level ≡ ProofHub.Notes.next_level d level
  unfolding next_level ProofHub.Notes.next_level
  same_next_level [] = refl
  same_next_level (a ∷ []) = ap (λ h. h ∷ []) (same_hash2 a 0)
  same_next_level (a ∷ b ∷ rest) = ap₂ (λ h hs. h ∷ hs) (same_hash2 a b) (same_next_level rest)

  same_fold_levels :
      (fuel : ℕ) (level : List ℕ)
      → fold_levels c fuel level ≡ ProofHub.Notes.fold_levels d fuel level
  unfolding fold_levels ProofHub.Notes.fold_levels
  same_fold_levels zero level = refl
  same_fold_levels (suc fuel) level =
      ap (λ rest. if ltb 1 (length level) then rest else level)
        (same_fold_levels fuel (next_level c level)
          ∙ ap (ProofHub.Notes.fold_levels d fuel) (same_next_level level))

  -- If both chains hash with the same function, they compute the same root from the same leaves.
  pub roots_agree :
      (leaves : List ℕ) → compute_merkle_root c leaves ≡ ProofHub.Notes.compute_merkle_root d leaves
  unfolding compute_merkle_root ProofHub.Notes.compute_merkle_root
  roots_agree [] = refl
  roots_agree (x ∷ xs) =
      let level = pad_level (length (x ∷ xs)) (x ∷ xs) in
      ap (λ top. get_or top 0 0) (same_fold_levels (length level) level)

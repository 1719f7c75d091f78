-- ===== src/ScanProof/Submit.antt =====
-- `submit_proof` of the ScanProof pallet (scanproof/pallets/proofs/src/lib.rs): a private transfer,
-- which spends notes by their nullifiers and puts new notes into the tree.
use nulla_relay.Prelude.{
  ℕ, ◌+◌, ◌-◌, ◌/◌, ◌%◌, ◌^◌, Bool, true, false, not, ◌&&◌, ◌||◌, Option, none, some, List, [], ◌∷◌,
  ◌==◌, ltb, leb, is_some, if◌then◌else◌, length, get_or,
}
use nulla_relay.Frame.{
  Origin, StorageMap, fail, pallet, update, gets, ok_or, pure, modify, ensure, ensure_none, ◌>>=◌,
  ◌>>◌,
}
use nulla_relay.ProofHub.Tree.{any_equal}
use nulla_relay.ScanProof.Types.{
  Config, ProofPublicInputs, Event, proof_verification_failed, nullifier_already_used,
  proof_too_large, range_proof_too_large, tree_full,
}
use nulla_relay.ScanProof.Storage.{Action, Call, deposit_event}
use nulla_relay.ScanProof.Notes.{
  max_leaves, hash2, leaf_hash, compute_merkle_root, anchored, advance_root, try_push_leaf,
}

-- An entry of `CommitmentIndex` below the number of leaves at the anchor.
abbrev pub below : Option ℕ → ℕ → Bool
below none count = false
below (some idx) count = ltb idx count

abbrev pub is_empty : List ℕ → Bool
is_empty [] = true
is_empty (x ∷ xs) = false

abbrev pub all_fresh : StorageMap Bool → List ℕ → Bool
all_fresh used [] = true
all_fresh used (n ∷ ns) = not (used n) && all_fresh used ns

abbrev pub mark_all : List ℕ → StorageMap Bool → StorageMap Bool
mark_all [] used = used
mark_all (n ∷ ns) used = mark_all ns (update n true used)

-- The new commitments, each new among them (the set `seen`) and to the tree.
abbrev pub outputs_fresh : StorageMap (Option ℕ) → (seen commitments : List ℕ) → Bool
outputs_fresh index seen [] = true
outputs_fresh index seen (k ∷ ks) =
    not (any_equal k seen) && (not (is_some (index k)) && outputs_fresh index (k ∷ seen) ks)

abbrev pub ensure_verified : Bool → Call
ensure_verified true = pure tt
ensure_verified false = do
  deposit_event Event.proof_rejected
  fail (pallet proof_verification_failed)

module _ (c : Config) where
  -- The node that a path of siblings leads to.
  unfoldable pub fold_path : (node idx : ℕ) → List ℕ → ℕ
  fold_path node idx [] = node
  fold_path node idx (sib ∷ path) =
      fold_path (if idx % 2 == 0 then hash2 c node sib else hash2 c sib node) (idx / 2) path

  -- An input is in the tree of the anchor: by its path, or else by its index.
  abbrev pub input_included :
      ProofPublicInputs → (index : StorageMap (Option ℕ)) (anchor_count i commitment : ℕ) → Bool
  input_included inputs index anchor_count i commitment =
      let path = get_or inputs.input_paths i [] in
      if ltb i (length inputs.input_paths)
        && (not (is_empty path) && ltb i (length inputs.input_indices))
      then fold_path (leaf_hash c commitment) (get_or inputs.input_indices i 0) path
        == inputs.merkle_root
      else below (index commitment) anchor_count

  unfoldable pub inputs_included :
      ProofPublicInputs → (index : StorageMap (Option ℕ)) (anchor_count i : ℕ) → List ℕ → Bool
  inputs_included inputs index anchor_count i [] = true
  inputs_included inputs index anchor_count i (k ∷ ks) =
      input_included inputs index anchor_count i k
      && inputs_included inputs index anchor_count (i + 1) ks

  -- The loop over the new commitments; the leaves with theirs.
  unfoldable pub push_outputs : (commitments leaves : List ℕ) → Action (List ℕ)
  push_outputs [] leaves = pure leaves
  push_outputs (k ∷ ks) leaves = do
    grown ← try_push_leaf (leaf_hash c k) leaves
    modify (λ s. record s {
      commitment_index = update k (some (length leaves % 2 ^ 32)) s.commitment_index;
    })
    push_outputs ks grown

  unfoldable pub submit_proof :
      Origin → (proof range_proof public_inputs hints_blob : List ℕ) → Call
  submit_proof origin proof range_proof public_inputs hints_blob = do
    ensure_none origin
    ensure (leb (length proof) c.max_proof_size) proof_too_large
    ensure (leb (length range_proof) c.max_range_proof_size) range_proof_too_large
    inputs ← ok_or (c.decode_inputs public_inputs) proof_verification_failed
    known_root ← gets (anchored inputs.merkle_root)
    ensure known_root proof_verification_failed
    ensure (leb (length inputs.new_commitments % 2 ^ 32) c.max_outputs) proof_verification_failed
    ensure (c.verify_range_proof range_proof inputs.new_commitments public_inputs 64)
        proof_verification_failed
    ensure_verified (c.verify proof public_inputs)
    anchor_count ← gets (λ s. s.root_leaf_count inputs.merkle_root)
    index ← gets (λ s. s.commitment_index)
    ensure (inputs_included inputs index anchor_count 0 inputs.input_commitments)
        proof_verification_failed
    fresh ← gets (λ s. all_fresh s.nullifier_used inputs.nullifiers)
    ensure fresh nullifier_already_used
    modify (λ s. record s { nullifier_used = mark_all inputs.nullifiers s.nullifier_used })
    ensure (outputs_fresh index [] inputs.new_commitments) proof_verification_failed
    ensure (leb (length inputs.new_commitments % 2 ^ 32) c.max_outputs) proof_verification_failed
    leaves ← gets (λ s. s.leaves)
    ensure (leb (length inputs.new_commitments) (max_leaves - length leaves)) tree_full
    grown ← push_outputs inputs.new_commitments leaves
    let computed_root = compute_merkle_root c grown
    modify (λ s. record s { leaves = grown })
    ensure (inputs.new_merkle_root == 0 || inputs.new_merkle_root == computed_root)
        proof_verification_failed
    advance_root computed_root
    deposit_event
        (Event.proof_accepted inputs.tx_id computed_root inputs.new_commitments hints_blob)

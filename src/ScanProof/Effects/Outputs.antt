-- ===== src/ScanProof/Effects/Outputs.antt =====
-- What `submit_proof` of the ScanProof pallet (scanproof/pallets/proofs/src/lib.rs) does to the
-- storage: the loop over the new commitments, and the rule for a property of the storage.
use nulla_relay.Prelude.{
  ℕ, ◌+◌, ◌-◌, ◌%◌, ◌^◌, ◌≤◌, true, ◌||◌, Option, some, List, [], ◌∷◌, ◌++◌, ◌≡◌, refl, arith, ◌==◌,
  length, leb, lt→ltb, leb→le, length-append, append-nil, append_assoc, by_true, by_some,
}
use nulla_relay.Frame.{Origin, StorageMap, ok, update, dispatch}
use nulla_relay.ScanProof.Types.{Config, ProofPublicInputs, Event}
use nulla_relay.ScanProof.Storage.{State}
use nulla_relay.ScanProof.Notes.{max_leaves, leaf_hash, compute_merkle_root, anchored}
use nulla_relay.ScanProof.Submit.{
  all_fresh, mark_all, outputs_fresh, inputs_included, push_outputs, submit_proof,
}
use nulla_relay.ScanProof.Effects.{advanced, announce, advance_root_lem}

abbrev pub leaf_hashes : Config → List ℕ → List ℕ
leaf_hashes c [] = []
leaf_hashes c (k ∷ ks) = leaf_hash c k ∷ leaf_hashes c ks

-- `CommitmentIndex` after the new commitments, from a number of leaves on.
abbrev pub index_outputs : List ℕ → ℕ → StorageMap (Option ℕ) → StorageMap (Option ℕ)
index_outputs [] n index = index
index_outputs (k ∷ ks) n index = index_outputs ks (n + 1) (update k (some (n % 2 ^ 32)) index)

abbrev pub indexed : List ℕ → ℕ → State → State
indexed ks n s = record s { commitment_index = index_outputs ks n s.commitment_index }

module _ (c : Config) where
  -- With room for the new commitments, the loop appends their leaves and stores their indices.
  pub push_outputs_lem :
      (ks leaves : List ℕ) (s : State)
      → length ks ≤ max_leaves - length leaves
      → push_outputs c ks leaves s ≡ (ok (leaves ++ leaf_hashes c ks), indexed ks (length leaves) s)
  unfolding push_outputs
  push_outputs_lem [] leaves s room = rw (append-nil leaves) refl
  push_outputs_lem (k ∷ ks) leaves s room =
      let longer = length-append leaves (leaf_hash c k ∷ []) in
      let next : length leaves + 1 ≡ length (leaves ++ leaf_hash c k ∷ []) = omega arith in
      let rest =
        push_outputs_lem ks (leaves ++ leaf_hash c k ∷ [])
          (record s {
            commitment_index = update k (some (length leaves % 2 ^ 32)) s.commitment_index;
          })
          (omega arith) in
      rw
        (
          lt→ltb (length leaves) max_leaves (omega arith),
          rest,
          append_assoc leaves (leaf_hash c k ∷ []) (leaf_hashes c ks),
          ← next,
        )
        refl

-- What a private transfer shows: a known root, inputs that pass the inclusion check, fresh nullifiers
-- and new commitments, and two proofs.
pub record Transfers (c : Config) (s : State) (x : ProofPublicInputs)
    (proof range_proof inputs : List ℕ) : Type 0 where
  pub known_root : anchored x.merkle_root s ≡ true
  pub few : leb (length x.new_commitments % 2 ^ 32) c.max_outputs ≡ true
  pub ranged : c.verify_range_proof range_proof x.new_commitments inputs 64 ≡ true
  pub proved : c.verify proof inputs ≡ true
  pub included :
      inputs_included c x s.commitment_index (s.root_leaf_count x.merkle_root) 0 x.input_commitments
      ≡ true
  pub fresh : all_fresh s.nullifier_used x.nullifiers ≡ true
  pub new : outputs_fresh s.commitment_index [] x.new_commitments ≡ true
  pub room : length x.new_commitments ≤ max_leaves - length s.leaves

module _ (c : Config) where
  -- The storage with new notes at the end of the tree.
  abbrev pub grown_by : List ℕ → State → State
  grown_by ks s =
      let grown = s.leaves ++ leaf_hashes c ks in
      advanced (compute_merkle_root c grown) (record s {
        commitment_index = index_outputs ks (length s.leaves) s.commitment_index;
        leaves = grown;
      })

  abbrev pub mark : List ℕ → State → State
  mark ns s = record s { nullifier_used = mark_all ns s.nullifier_used }

  pub submit_proof_rule :
      (P : State → Type 0) (s : State) (h : P s) (o : Origin) (p r i hints : List ℕ)
      → ((x : ProofPublicInputs)
          → o ≡ Origin.unsigned
          → c.decode_inputs i ≡ some x
          → Transfers c s x p r i
          → P (
              announce
                (Event.proof_accepted x.tx_id
                  (compute_merkle_root c (s.leaves ++ leaf_hashes c x.new_commitments))
                  x.new_commitments
                  hints)
                (grown_by x.new_commitments (mark x.nullifiers s))))
      → P (dispatch (submit_proof c o p r i hints) s)
  unfolding submit_proof
  submit_proof_rule P s h Origin.root p r i hints k = h
  submit_proof_rule P s h (Origin.signed w) p r i hints k = h
  submit_proof_rule P s h Origin.unsigned p r i hints k =
      by_true (leb (length p) c.max_proof_size) (λ e. rw e h)
        λ small. rw small (
          by_true (leb (length r) c.max_range_proof_size) (λ e. rw e h)
            λ small_range. rw small_range (
              by_some (c.decode_inputs i) (λ e. rw e h)
                λ x decoded. rw decoded (
                  by_true (anchored x.merkle_root s) (λ e. rw e h)
                    λ known_root. rw known_root (
                      by_true (leb (length x.new_commitments % 2 ^ 32) c.max_outputs) (λ e. rw e h)
                        λ few. rw few (
                          by_true (c.verify_range_proof r x.new_commitments i 64) (λ e. rw e h)
                            λ ranged. rw ranged (
                              by_true (c.verify p i) (λ e. rw e h)
                                λ proved. rw proved (
                                  by_true
                                    (inputs_included c x s.commitment_index
                                      (s.root_leaf_count x.merkle_root) 0 x.input_commitments)
                                    (λ e. rw e h)
                                    λ included. rw included (
                                      by_true (all_fresh s.nullifier_used x.nullifiers)
                                        (λ e. rw e h)
                                        λ fresh. rw fresh (
                                          by_true
                                            (outputs_fresh s.commitment_index [] x.new_commitments)
                                            (λ e. rw e h)
                                            λ new. rw new (
                                              by_true
                                                (leb (length x.new_commitments)
                                                  (max_leaves - length s.leaves))
                                                (λ e. rw e h)
                                                λ fits.
                                                  let room =
                                                    leb→le (length x.new_commitments)
                                                      (max_leaves - length s.leaves) fits in
                                                  rw
                                                    (
                                                      fits,
                                                      push_outputs_lem c x.new_commitments s.leaves
                                                          (mark x.nullifiers s) room,
                                                    )
                                                    (by_true
                                                      (x.new_merkle_root == 0
                                                        || x.new_merkle_root
                                                          == compute_merkle_root c (
                                                            s.leaves
                                                            ++ leaf_hashes c x.new_commitments))
                                                      (λ e. rw e h)
                                                      λ agreed.
                                                        rw (agreed, advance_root_lem)
                                                          (k x refl decoded (record {
                                                            known_root = known_root;
                                                            few = few;
                                                            ranged = ranged;
                                                            proved = proved;
                                                            included = included;
                                                            fresh = fresh;
                                                            new = new;
                                                            room = room;
                                                          })))))))))))))

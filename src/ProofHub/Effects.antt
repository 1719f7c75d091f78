-- ===== src/ProofHub/Effects.antt =====
-- What the parts that the calls of the ProofHub pallet (proofhub/pallets/proofs/src/lib.rs) share
-- do to the storage: spending, growing the v2 tree, and inserting notes.
pub mod Membership
pub mod Tags
pub mod Kept
pub mod Resale
use nulla_relay.Prelude.{
  ℕ, ◌+◌, ◌≤◌, ◌<◌, Bool, true, false, not, Option, none, some, List, [], ◌∷◌, ◌++◌, ◌≡◌, refl,
  arith, ◌==◌, ◌⊎◌, inl, inr, length, is_some, by_true, by_some,
}
use nulla_relay.Frame.{
  Origin, DispatchError, pallet, token, Result, ok, err, update, dispatch, commit,
}
use nulla_relay.ProofHub.Types.{
  Config, Balances, SpendPublicV2, Message, Event, duplicate_leaf, tree_full_v2,
  spend_tag_not_found,
}
use nulla_relay.ProofHub.Storage.{State, transfer}
use nulla_relay.ProofHub.Notes.{
  do_insert_note, commit_merkle, leaf_hash, compute_merkle_root, bounded_leaves, push_recent,
}
use nulla_relay.ProofHub.Legacy.{insert_change, resolve_change_rp}
use nulla_relay.ProofHub.Tree.{v2_insert, remember_root}

abbrev pub spend : ℕ → State → State
spend n s = record s { nullifier_used = update n true s.nullifier_used }

abbrev pub spend_tag : ℕ → State → State
spend_tag t s = record s { spend_tag_used = update t true s.spend_tag_used }

abbrev pub own : (tx_id commitment : ℕ) → State → State
own tx k s = record s { ownership_commitments = update tx (some k) s.ownership_commitments }

abbrev pub pay : Balances → State → State
pay b s = record s { balances = b }

-- The event and the message with which a call ends.
abbrev pub announce : Event → State → State
announce e s = record s { events = e ∷ s.events }

abbrev pub transmit : Message → State → State
transmit m s = record s { outbox = m ∷ s.outbox }

-- The v2 tree after a leaf, by the new nodes, count and root.
abbrev pub grow : ℕ → (List ℕ × ℕ × ℕ) → State → State
grow leaf (nodes, count, root) s =
    (remember_root s.leaf_count_v2 s.current_root_v2 (record s {
      frontier_nodes_v2 = nodes;
      leaf_count_v2 = count;
      leaf_index_v2 = update leaf (some s.leaf_count_v2) s.leaf_index_v2;
      current_root_v2 = root;
    })).1

module _ (c : Config) where
  -- `v2_insert` fails and writes nothing, or the leaf is new and the tree grows.
  pub v2_insert_cases :
      (leaf : ℕ) (s : State)
      → (v2_insert c leaf s ≡ (err (pallet duplicate_leaf), s))
        ⊎ (v2_insert c leaf s ≡ (err (pallet tree_full_v2), s))
        ⊎ ((g : List ℕ × ℕ × ℕ) × (s.leaf_index_v2 leaf ≡ none)
            × (c.v2_insert_leaf s.frontier_nodes_v2 s.leaf_count_v2 leaf ≡ some g)
            × (v2_insert c leaf s ≡ (ok (s.leaf_count_v2, g.2), grow leaf g s)))
  unfolding v2_insert
  v2_insert_cases leaf s =
      by_some (s.leaf_index_v2 leaf)
        (λ new.
          by_some (c.v2_insert_leaf s.frontier_nodes_v2 s.leaf_count_v2 leaf)
            (λ e. inr (inl (rw (new, e)))) (λ g e. inr (inr (g, new, e, rw (new, e)))))
        (λ i old. inl (rw old))

  pub transfer_cases :
      (from to amount : ℕ) (alive : Bool) (s : State)
      → (transfer c from to amount alive s ≡ (err token, s))
        ⊎ ((b : Balances) × (c.transfer s.balances from to amount alive ≡ some b)
            × (transfer c from to amount alive s ≡ (ok tt, pay b s)))
  transfer_cases from to amount alive s =
      by_some (c.transfer s.balances from to amount alive) (λ e. inl (rw e))
        (λ b e. inr (b, e, rw e))

-- The storage after a note is registered under its leaf index.
abbrev pub register : (commitment tag index : ℕ) → State → State
register k t n s = record s {
  commitment_index = update k (some n) s.commitment_index;
  spend_tag_commitments = update t (some k) s.spend_tag_commitments;
}

abbrev pub committed : List ℕ → ℕ → State → State
committed leaves root s = record s {
  leaves = bounded_leaves leaves;
  current_root = root;
  merkle_root = root;
  root_leaf_count = update root (length (bounded_leaves leaves)) s.root_leaf_count;
  recent_roots = push_recent s.current_root s.recent_roots;
}

pub commit_merkle_lem :
    (leaves : List ℕ) (root : ℕ) (s : State)
    → commit_merkle leaves root s ≡ (ok tt, committed leaves root s)
unfolding commit_merkle
commit_merkle_lem leaves root s = refl

module _ (c : Config) where
  -- A note's commitment is in the tree already, or it is appended and registered.
  pub do_insert_note_cases :
      (k t : ℕ) (leaves : List ℕ) (s : State)
      → (do_insert_note c k t leaves s ≡ (ok (none, leaves), s))
        ⊎ ((s.commitment_index k ≡ none)
            × (do_insert_note c k t leaves s ≡ (
              ok (
                some (compute_merkle_root c (leaves ++ leaf_hash c k ∷ [])),
                leaves ++ leaf_hash c k ∷ [],
              ),
              register k t (length leaves) s,
            )))
  unfolding do_insert_note
  do_insert_note_cases k t leaves s =
      by_some (s.commitment_index k) (λ new. inr (new, rw new)) (λ i old. inl (rw old))

  -- The storage after the change note of a purchase, if it has one.
  abbrev pub changed : Option ℕ → Option ℕ → ℕ → State → State
  changed (some k) (some t) rp s =
      let marked = record s {
        spend_tag_change_rp_commitments = update t (some rp) s.spend_tag_change_rp_commitments;
      } in
      let grown = s.leaves ++ leaf_hash c k ∷ [] in
      let root = compute_merkle_root c grown in
      elim (s.commitment_index k) [
        | none ↦
            announce (Event.change_note_created k t root)
              (committed grown root (register k t (length s.leaves) marked))
        | some i ↦ announce (Event.change_note_created k t s.current_root) marked
      ]
  changed (some k) none rp s = s
  changed none t rp s = s

  pub insert_change_lem :
      (k t : Option ℕ) (rp : ℕ) (s : State) → insert_change c k t rp s ≡ (ok tt, changed k t rp s)
  unfolding insert_change do_insert_note commit_merkle
  insert_change_lem (some k) (some t) rp s =
      by_some (s.commitment_index k) (λ new. rw (new, changed)) (λ i old. rw (old, changed))
  insert_change_lem (some k) none rp s = refl
  insert_change_lem none t rp s = refl

-- The change note's registered `rp_commitment`, or zeros where there is none.
abbrev pub Resolves : State → Option ℕ → ℕ → Type 0
Resolves s none rp = rp ≡ 0
Resolves s (some t) rp = s.spend_tag_rp_commitments t ≡ some rp

pub resolve_change_rp_cases :
    (t : Option ℕ) (s : State)
    → (resolve_change_rp t s ≡ (err (pallet spend_tag_not_found), s))
      ⊎ ((rp : ℕ) × Resolves s t rp × (resolve_change_rp t s ≡ (ok rp, s)))
resolve_change_rp_cases none s = inr (0, refl, refl)
resolve_change_rp_cases (some t) s =
    by_some (s.spend_tag_rp_commitments t) (λ e. inl (rw e)) (λ rp e. inr (rp, e, rw e))

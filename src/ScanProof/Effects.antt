-- ===== src/ScanProof/Effects.antt =====
-- What the parts that the calls of the ScanProof pallet (scanproof/pallets/proofs/src/lib.rs) share
-- do to the storage: spending, inserting notes, and registering coins.
pub mod Openings
pub mod OneOfMany
pub mod Outputs
pub mod Inputs
use nulla_relay.Prelude.{
  ℕ, ◌+◌, ◌%◌, ◌^◌, Bool, true, false, not, Option, none, some, List, [], ◌∷◌, ◌++◌, ◌≡◌, refl,
  arith, ◌==◌, ◌⊎◌, inl, inr, length, ltb, leb, is_some, slice, by_true, by_some,
}
use nulla_relay.Frame.{
  Origin, DispatchError, pallet, token, Result, ok, err, update, dispatch, commit,
}
use nulla_relay.ProofHub.Notes.{push_recent}
use nulla_relay.ScanProof.Types.{
  Config, Balances, Message, Event, Error, tree_full, proof_verification_failed, duplicate_coin,
  opening_proof_invalid,
}
use nulla_relay.ScanProof.Storage.{State, transfer}
use nulla_relay.ScanProof.Notes.{
  max_leaves, leaf_hash, compute_merkle_root, advance_root, append_note,
}
use nulla_relay.ScanProof.Pedersen.{effective, insert_change}
use nulla_relay.ScanProof.Coins.{
  group_capacity, group_of, next_group, is_present, register_coin, register_change,
}

abbrev pub spend : ℕ → State → State
spend n s = record s { nullifier_used = update n true s.nullifier_used }

abbrev pub spend_serial : ℕ → State → State
spend_serial n s = record s { serial_used = update n true s.serial_used }

abbrev pub pay : Balances → State → State
pay b s = record s { balances = b }

-- The event and the message with which a call ends.
abbrev pub announce : Event → State → State
announce e s = record s { events = e ∷ s.events }

abbrev pub transmit : Message → State → State
transmit m s = record s { outbox = m ∷ s.outbox }

abbrev pub advanced : ℕ → State → State
advanced root s = record s {
  current_root = root;
  merkle_root = root;
  root_leaf_count = update root (length s.leaves % 2 ^ 32) s.root_leaf_count;
  recent_roots = push_recent s.current_root s.recent_roots;
}

pub advance_root_lem : (root : ℕ) (s : State) → advance_root root s ≡ (ok tt, advanced root s)
unfolding advance_root
advance_root_lem root s = refl

-- The storage with the coin at the end of the group that accepts deposits.
abbrev pub registered : ℕ → State → State
registered coin s =
    let gid = next_group s in
    let group = group_of gid s in
    announce (Event.coin_deposited coin gid (length group)) (record s {
      current_group = gid;
      coin_groups = update gid (some (group ++ coin ∷ [])) s.coin_groups;
      coin_location = update coin (some (gid, length group)) s.coin_location;
    })

abbrev pub HasRoom : State → Type 0
HasRoom s = ltb (length (group_of (next_group s) s)) group_capacity ≡ true

-- The tree has room for the change note, if there is one.
abbrev pub Fits : Option ℕ → (leaves : List ℕ) → Type 0
Fits none leaves = Unit {0}
Fits (some k) leaves = ltb (length leaves) max_leaves ≡ true

module _ (c : Config) where
  pub transfer_cases :
      (from to amount : ℕ) (alive : Bool) (s : State)
      → (transfer c from to amount alive s ≡ (err token, s))
        ⊎ ((b : Balances) × (c.transfer s.balances from to amount alive ≡ some b)
            × (transfer c from to amount alive s ≡ (ok tt, pay b s)))
  transfer_cases from to amount alive s =
      by_some (c.transfer s.balances from to amount alive) (λ e. inl (rw e))
        (λ b e. inr (b, e, rw e))

  -- The storage with a note at the end of the tree.
  abbrev pub appended : ℕ → State → State
  appended k s =
      let grown = s.leaves ++ leaf_hash c k ∷ [] in
      advanced (compute_merkle_root c grown) (record s {
        commitment_index = update k (some (length s.leaves % 2 ^ 32)) s.commitment_index;
        leaves = grown;
      })

  pub append_note_cases :
      (k : ℕ) (s : State)
      → (append_note c k s ≡ (err (pallet tree_full), s))
        ⊎ ((ltb (length s.leaves) max_leaves ≡ true)
            × (append_note c k s
                ≡ (ok (compute_merkle_root c (s.leaves ++ leaf_hash c k ∷ [])), appended k s)))
  unfolding append_note advance_root
  append_note_cases k s =
      by_true (ltb (length s.leaves) max_leaves) (λ e. inl (rw e refl))
        (λ room. inr (room, rw room refl))

  -- The storage after the change note of a purchase, if it has one.
  abbrev pub with_change : Option ℕ → State → State
  with_change none s = s
  with_change (some k) s = appended k s

  pub insert_change_cases :
      (change : Option ℕ) (s : State)
      → (insert_change c change s ≡ (err (pallet tree_full), s))
        ⊎ (Fits change s.leaves × (insert_change c change s ≡ (ok tt, with_change change s)))
  unfolding insert_change
  insert_change_cases none s = inr (tt, refl)
  insert_change_cases (some k) s = elim (append_note_cases k s) [
    | inl e ↦ inl (rw e refl)
    | inr (room, e) ↦ inr (room, rw e refl)
  ]

  -- The commitment that a purchase opens.
  abbrev pub Opens : State → (input : ℕ) → Option ℕ → (opened : ℕ) → Type 0
  Opens s input none opened = opened ≡ input
  Opens s input (some k) opened =
      (s.commitment_index k ≡ none) × (c.pedersen_subtract input k ≡ some opened)

  pub effective_cases :
      (input : ℕ) (change : Option ℕ) (s : State)
      → (effective c input change s ≡ (err (pallet proof_verification_failed), s))
        ⊎ ((opened : ℕ) × Opens s input change opened
            × (effective c input change s ≡ (ok opened, s)))
  unfolding effective
  effective_cases input none s = inr (input, refl, refl)
  effective_cases input (some k) s =
      by_some (s.commitment_index k)
        (λ new.
          by_some (c.pedersen_subtract input k) (λ e. inl (rw (new, e) refl))
            (λ opened e. inr (opened, (new, e), rw (new, e) refl)))
        (λ i old. inl (rw old refl))

  -- The storage after the change coin of a purchase, if it has one.
  abbrev pub with_coin : (change coin : ℕ) → State → State
  with_coin change coin s = elim (is_present change) [ true ↦ registered coin s | false ↦ s ]

  -- A change coin that a purchase registers is new, is proved to hold the change, and has room.
  abbrev pub Converts : (change coin : ℕ) (g1_pok ctx : List ℕ) → State → Type 0
  Converts change coin g1_pok ctx s =
      (is_present change ≡ false)
      ⊎ ((is_present change ≡ true)
          × (s.coin_location coin ≡ none)
          × (c.verify_g1_pok coin change g1_pok ctx ≡ true)
          × HasRoom s)

  -- The change coin of a purchase is refused, or registered if there is one.
  pub register_change_cases :
      (change coin : ℕ) (g1_pok ctx : List ℕ) (s : State)
      → ((e : DispatchError Error) × (t : State) × (register_change c change coin g1_pok ctx s
            ≡ (err e, t)))
        ⊎ (Converts change coin g1_pok ctx s
            × (register_change c change coin g1_pok ctx s ≡ (ok tt, with_coin change coin s)))
  unfolding register_change register_coin
  register_change_cases change coin g1_pok ctx s =
      by_true (is_present change) (λ absent. inr (inl absent, rw (absent, with_coin) refl))
        λ present.
          by_some (s.coin_location coin)
            (λ new.
              by_true (c.verify_g1_pok coin change g1_pok ctx)
                (λ e. inl (pallet opening_proof_invalid, s, rw (present, new, e) refl))
                λ proved.
                  by_true (ltb (length (group_of (next_group s) s)) group_capacity)
                    (λ e. inl (
                      pallet tree_full,
                      record s { current_group = next_group s },
                      rw (present, new, proved, e) refl,
                    ))
                    λ room. inr (
                      inr (present, new, proved, room),
                      rw (present, new, proved, room, with_coin) refl,
                    ))
            (λ l old. inl (pallet duplicate_coin, s, rw (present, old) refl))

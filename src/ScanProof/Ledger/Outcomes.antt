-- ===== src/ScanProof/Ledger/Outcomes.antt =====
-- What a private transfer, a purchase with a coin and the withdrawal of a coin bring about on the
-- ScanProof pallet (scanproof/pallets/proofs/src/lib.rs).
use nulla_relay.Prelude.{
  ℕ, true, false, some, List, ◌∷◌, ◌++◌, ◌≡◌, refl, ap, ◌⊎◌, inl, inr, if◌then◌else◌, by_true,
  equal_refl,
}
use nulla_relay.Frame.{Origin, dispatch}
use nulla_relay.ScanProof.Types.{
  Config, ProofPublicInputs, CoinSpendPublic, CoinWithdrawPublic, Message,
}
use nulla_relay.ScanProof.Storage.{State}
use nulla_relay.ScanProof.Notes.{compute_merkle_root}
use nulla_relay.ScanProof.Submit.{mark_all, submit_proof}
use nulla_relay.ScanProof.Coins.{group_of, context, is_present, purchase_coin, withdraw_coin}
use nulla_relay.ScanProof.Effects.{with_coin}
use nulla_relay.ScanProof.Effects.OneOfMany.{Spent, purchase_coin_rule, withdraw_coin_rule}
use nulla_relay.ScanProof.Effects.Inputs.{InputsShown, inputs_included-InputsShown}
use nulla_relay.ScanProof.Effects.Outputs.{leaf_hashes, Transfers, submit_proof_rule}
use nulla_relay.ScanProof.Ledger.{groups, placed, spending-with_coin}

-- What is so after a private transfer that goes through.
abbrev pub Submitted : Config → (proof range_proof inputs : List ℕ) → State → State → Type 0
Submitted c p r i s s' =
    (x : ProofPublicInputs) × (c.decode_inputs i ≡ some x)
    × Transfers c s x p r i
    × InputsShown c s x 0 x.input_commitments
    × (s'.nullifier_used ≡ mark_all x.nullifiers s.nullifier_used)
    × (s'.leaves ≡ s.leaves ++ leaf_hashes c x.new_commitments)
    × (s'.current_root ≡ compute_merkle_root c s'.leaves)
    × (s'.balances ≡ s.balances)
    × (s'.outbox ≡ s.outbox)

-- What is so after a purchase with a coin that goes through.
abbrev pub CoinBought : Config → (inputs proof g1_pok : List ℕ) → State → State → Type 0
CoinBought c i p g s s' =
    (x : CoinSpendPublic) × (c.decode_coin_spend i ≡ some x)
    × Spent c s x (s.rwa_prices x.rwa_id) i p g
    × (s'.serial_used x.serial ≡ true)
    × (groups s' ≡ (if is_present x.change then placed x.change_coin (groups s) else groups s))
    × (s'.balances ≡ s.balances)
    × (s'.outbox
        ≡ Message.rwa_purchase x.rwa_id x.serial x.serial (s.rwa_prices x.rwa_id) x.tx_id
            x.ownership_commitment
          ∷ s.outbox)

-- What is so after the withdrawal of a coin that goes through.
abbrev pub CoinWithdrawn : Config → (inputs proof : List ℕ) → State → State → Type 0
CoinWithdrawn c i p s s' =
    (x : CoinWithdrawPublic) × (dest : ℕ) × (c.decode_coin_withdraw i ≡ some x)
    × (c.verify_one_of_many p (c.pad_group (group_of x.group_id s) x.group_id) x.serial x.amount 0
          (context c i)
        ≡ true)
    × (s.serial_used x.serial ≡ false)
    × (s'.serial_used x.serial ≡ true)
    × (c.decode_account x.destination ≡ some dest)
    × (c.transfer s.balances c.pool_account dest x.amount false ≡ some s'.balances)
    × (groups s' ≡ groups s)
    × (s'.outbox ≡ s.outbox)

module _ (c : Config) (s : State) where
  groups-with_coin :
      (change coin : ℕ)
      → groups (with_coin c change coin s)
        ≡ (if is_present change then placed coin (groups s) else groups s)
  groups-with_coin change coin =
      by_true (is_present change) (λ e. rw (e, with_coin) refl) (λ e. rw (e, with_coin) refl)

  -- A private transfer either changes nothing, or all of this holds. Its root is the current one or in
  -- the window of recent roots. For each input, either a path and an index are given, and the path
  -- leads from the leaf hash of the commitment to the root, or the index stored for the commitment is
  -- below the number of leaves that is stored for the root. Its nullifiers were unused, its new
  -- commitments are distinct and new, and the verifier accepts both proofs. Its nullifiers are now
  -- used, the new notes are at the end of the tree in their order, the root is that of the tree, and no
  -- money and no message has moved.
  pub submit_proof_outcome :
      (o : Origin) (p r i hints : List ℕ)
      → let s' = dispatch (submit_proof c o p r i hints) s in (s' ≡ s) ⊎ Submitted c p r i s s'
  submit_proof_outcome o p r i hints =
      submit_proof_rule c (λ s'. (s' ≡ s) ⊎ Submitted c p r i s s') s (inl refl) o p r i hints
        λ x e decoded shown. inr (
          x,
          decoded,
          shown,
          inputs_included-InputsShown c s x 0 x.input_commitments shown.included,
          refl,
          refl,
          refl,
          refl,
          refl,
        )

  -- A purchase of an asset with a coin either changes nothing, or all of this holds. The asset has a
  -- price, the serial was unused, the group exists, and the verifier accepts the one-of-many proof for
  -- the padded group, the serial, the price, the change and the transaction's context. A change and a
  -- change coin are both there or both missing; with a change, the change coin was new, the verifier
  -- accepts its conversion from the change, and a group had room for it. The serial is now used, the
  -- change coin has the next place if there is a change and no coin moves if not, no money has moved,
  -- and one message tells the RWA chain of the purchase at the listed price.
  pub purchase_coin_outcome :
      (o : Origin) (i p g : List ℕ)
      → let s' = dispatch (purchase_coin c o i p g) s in (s' ≡ s) ⊎ CoinBought c i p g s s'
  purchase_coin_outcome o i p g =
      purchase_coin_rule c (λ s'. (s' ≡ s) ⊎ CoinBought c i p g s s') s (inl refl) o i p g
        λ x e decoded shown.
          let same = spending-with_coin c x.change x.change_coin s in
          let m =
            Message.rwa_purchase x.rwa_id x.serial x.serial (s.rwa_prices x.rwa_id) x.tx_id
              x.ownership_commitment in
          inr (
            x,
            decoded,
            shown,
            rw (equal_refl x.serial) refl,
            groups-with_coin x.change x.change_coin,
            ap (λ y. y.balances) same,
            ap (λ y. m ∷ y.outbox) same,
          )

  -- The withdrawal of a coin either changes nothing, or the verifier accepts its one-of-many proof for the
  -- padded group, the serial and the amount without a change, and the serial was unused; then the serial is used, the pool has
  -- paid the amount to the destination of the public inputs, and no coin and no message has moved.
  pub withdraw_coin_outcome :
      (o : Origin) (i p : List ℕ)
      → let s' = dispatch (withdraw_coin c o i p) s in (s' ≡ s) ⊎ CoinWithdrawn c i p s s'
  withdraw_coin_outcome o i p =
      withdraw_coin_rule c (λ s'. (s' ≡ s) ⊎ CoinWithdrawn c i p s s') s (inl refl) o i p
        λ x dest b e decoded fresh known proved account paid. inr (
          x,
          dest,
          decoded,
          proved,
          fresh,
          rw (equal_refl x.serial) refl,
          account,
          paid,
          refl,
          refl,
        )

-- ===== src/ProofHub/Ledger.antt =====
-- The ProofHub pallet (proofhub/pallets/proofs/src/lib.rs) as a ledger: what a request can do to
-- the balances, the nullifiers, the spend tags, the resold records and the messages.
pub mod Nullifiers
pub mod Pool
pub mod Transfers
pub mod Purchase
pub mod Resale
pub mod TreeRoot
pub mod Notes
use nulla_relay.Prelude.{
  ℕ, Bool, true, false, Option, none, some, List, [], ◌∷◌, ◌++◌, ◌≡◌, refl, sym, ap, ◌∙◌, length,
  ◌-◌,
}
use nulla_relay.Frame.{Origin, update, dispatch}
use nulla_relay.ProofHub.Types.{Config, RelistInputs, Balances, Message}
use nulla_relay.ProofHub.Storage.{State}
use nulla_relay.ProofHub.Notes.{leaf_hash, compute_merkle_root}
use nulla_relay.ProofHub.Legacy.{deposit_public}
use nulla_relay.ProofHub.Spend.{set_rwa_price, set_access_config}
use nulla_relay.ProofHub.Calls.{Request, perform}
use nulla_relay.ProofHub.Effects.{spend, spend_tag, pay, transmit, own, register, changed, Resolves}
use nulla_relay.ProofHub.Effects.Kept.{Keeps, keep, Keeps-refl, changed-Keeps, outputs-Keeps}
use nulla_relay.ProofHub.Effects.Membership.{
  Shown, Grows, deposit_v2_rule, purchase_rwa_v2_rule, withdraw_v2_rule, purchase_access_v2_rule,
}
use nulla_relay.ProofHub.Effects.Tags.{
  Opened, purchase_rwa_rule, withdraw_private_rule, purchase_access_rule,
}
use nulla_relay.ProofHub.Effects.Resale.{Resold, sold, paid_out, relist_private_rule}

-- The nullifier that a message tells its chain about.
abbrev pub paid_by : Message → Option ℕ
paid_by (Message.rwa_purchase r n t v tx k) = some n
paid_by (Message.access_grant a n tx k) = some n
paid_by (Message.rwa_transfer tx k new) = none

-- Each way in which a request can change the ledger; `kept` also stands for a request that is
-- refused.
pub data Effect (c : Config) (s : State) : State → Type 0 where
  kept : {s' : State} → Keeps s s' → Effect c s s'
  received :
      {s' : State} (who amount : ℕ) (b : Balances)
      → c.transfer s.balances who c.pool_account amount true ≡ some b
      → Keeps (pay b s) s'
      → Effect c s s'
  bought :
      {s' : State} (n : ℕ) (m : Message)
      → s.nullifier_used n ≡ false
      → paid_by m ≡ some n
      → Keeps (transmit m (spend n s)) s'
      → Effect c s s'
  granted :
      {s' : State} (n dest amount : ℕ) (b : Balances) (m : Message)
      → s.nullifier_used n ≡ false
      → c.transfer s.balances c.pool_account dest amount false ≡ some b
      → paid_by m ≡ some n
      → Keeps (transmit m (pay b (spend n s))) s'
      → Effect c s s'
  withdrawn :
      {s' : State} (n dest amount : ℕ) (b : Balances)
      → s.nullifier_used n ≡ false
      → c.transfer s.balances c.pool_account dest amount false ≡ some b
      → Keeps (pay b (spend n s)) s'
      → Effect c s s'
  bought_by_tag :
      {s' : State} (n t : ℕ) (m : Message)
      → s.nullifier_used n ≡ false
      → s.spend_tag_used t ≡ false
      → paid_by m ≡ some n
      → Keeps (transmit m (spend_tag t (spend n s))) s'
      → Effect c s s'
  granted_by_tag :
      {s' : State} (n t dest amount : ℕ) (b : Balances) (m : Message)
      → s.nullifier_used n ≡ false
      → s.spend_tag_used t ≡ false
      → c.transfer s.balances c.pool_account dest amount false ≡ some b
      → paid_by m ≡ some n
      → Keeps (transmit m (pay b (spend_tag t (spend n s)))) s'
      → Effect c s s'
  withdrawn_by_tag :
      {s' : State} (t dest amount : ℕ) (b : Balances)
      → s.spend_tag_used t ≡ false
      → c.transfer s.balances c.pool_account dest amount false ≡ some b
      → Keeps (pay b (spend_tag t s)) s'
      → Effect c s s'
  resold_by_tag :
      {s' : State} (x : RelistInputs)
      → s.spend_tag_used x.new_buyer_spend_tag ≡ false
      → s.ownership_used x.old_tx_id ≡ false
      → Keeps
          (transmit
            (Message.rwa_transfer x.old_tx_id x.new_ownership_commitment x.new_tx_id)
            (sold x s))
          s'
      → Effect c s s'

module _ (c : Config) where
  perform-Effect : (o : Origin) (r : Request) (s : State) → Effect c s (dispatch (perform c o r) s)
  unfolding perform deposit_public set_rwa_price set_access_config
  perform-Effect Origin.root (Request.deposit_legacy k p rp t h) s = kept (Keeps-refl s)
  perform-Effect Origin.unsigned (Request.deposit_legacy k p rp t h) s = kept (Keeps-refl s)
  perform-Effect (Origin.signed w) (Request.deposit_legacy k p rp t h) s = kept (Keeps-refl s)
  perform-Effect Origin.root (Request.price r p) s = kept (keep refl refl refl refl refl)
  perform-Effect Origin.unsigned (Request.price r p) s = kept (Keeps-refl s)
  perform-Effect (Origin.signed w) (Request.price r p) s = kept (Keeps-refl s)
  perform-Effect Origin.root (Request.app a p x) s = kept (keep refl refl refl refl refl)
  perform-Effect Origin.unsigned (Request.app a p x) s = kept (Keeps-refl s)
  perform-Effect (Origin.signed w) (Request.app a p x) s = kept (Keeps-refl s)
  perform-Effect o (Request.deposit l a p h) s =
      deposit_v2_rule c (Effect c s) s (kept (Keeps-refl s)) o l a p h
        λ who b g e proved paid grows. received who a b paid (keep refl refl refl refl refl)
  perform-Effect o (Request.purchase_v2 a i p) s =
      purchase_rwa_v2_rule c (Effect c s) s (kept (Keeps-refl s)) o a i p
        λ x g e decoded priced signed shown grows.
          bought x.nullifier _ shown.fresh refl (keep refl refl refl refl refl)
  perform-Effect o (Request.withdraw_note_v2 a i p) s =
      withdraw_v2_rule c (Effect c s) s (kept (Keeps-refl s)) o a i p
        λ x dest b e decoded signed shown account paid.
          withdrawn x.nullifier dest x.amount b shown.fresh paid (keep refl refl refl refl refl)
  perform-Effect o (Request.access_v2 a i p) s =
      purchase_access_v2_rule c (Effect c s) s (kept (Keeps-refl s)) o a i p
        λ x cfg g dest b e decoded listed priced signed shown grows account paid.
          granted x.nullifier dest cfg.price b _ shown.fresh paid refl
            (keep refl refl refl refl refl)
  perform-Effect o (Request.withdraw p i) s =
      withdraw_private_rule c (Effect c s) s (kept (Keeps-refl s)) o p i
        λ x stored dest b e decoded unspent known signed opened sized account paid.
          withdrawn_by_tag x.spend_tag dest x.note_value b unspent paid
            (keep refl refl refl refl refl)
  perform-Effect o (Request.purchase p i) s =
      purchase_rwa_rule c (Effect c s) s (kept (Keeps-refl s)) o p i
        λ x rp stored e decoded priced opened.
          let base =
            own x.tx_id x.ownership_commitment (spend_tag x.spend_tag (spend x.nullifier s)) in
          let k = changed-Keeps c x.change_commitment x.change_spend_tag rp base in
          bought_by_tag x.nullifier x.spend_tag _ opened.fresh opened.unspent refl (
            keep k.same_balances k.same_nullifiers k.same_tags k.same_resold (
              ap
                (λ ms.
                  Message.rwa_purchase x.rwa_id x.nullifier x.spend_tag (s.rwa_prices x.rwa_id)
                    x.tx_id x.ownership_commitment
                  ∷ ms)
                k.same_outbox))
  perform-Effect o (Request.access p i) s =
      purchase_access_rule c (Effect c s) s (kept (Keeps-refl s)) o p i
        λ x cfg rp stored dest b e decoded listed priced opened account paid.
          let base = spend_tag x.spend_tag (spend x.nullifier s) in
          let k = changed-Keeps c x.change_commitment x.change_spend_tag rp base in
          granted_by_tag x.nullifier x.spend_tag dest cfg.price b _ opened.fresh opened.unspent
            (ap (λ bs. c.transfer bs c.pool_account dest cfg.price false) (sym k.same_balances)
              ∙ paid)
            refl
            (keep refl k.same_nullifiers k.same_tags k.same_resold (
              ap
                (λ ms.
                  Message.access_grant x.rwa_id x.nullifier x.tx_id x.ownership_commitment ∷ ms)
                k.same_outbox))
  perform-Effect o (Request.relist x) s =
      relist_private_rule c (Effect c s) s (kept (Keeps-refl s)) o x λ owned bought e shown.
        let grown = s.leaves ++ leaf_hash c x.payment_commitment ∷ [] in
        let k =
          outputs-Keeps c (x.buyer_value - x.price) (compute_merkle_root c grown) grown x
            (register x.payment_commitment x.payment_spend_tag (length s.leaves) (sold x s)) in
        resold_by_tag x shown.unspent shown.unsold (
          keep k.same_balances k.same_nullifiers k.same_tags k.same_resold (
            ap (λ ms. Message.rwa_transfer x.old_tx_id x.new_ownership_commitment x.new_tx_id ∷ ms)
              k.same_outbox))

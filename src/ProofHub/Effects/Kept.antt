-- ===== src/ProofHub/Effects/Kept.antt =====
-- What the insertion of notes leaves as it is in the storage of the ProofHub pallet
-- (proofhub/pallets/proofs/src/lib.rs): the money, the messages, and what is spent.
use nulla_relay.Prelude.{ℕ, Option, none, some, List, ◌≡◌, refl, ltb, by_true, by_some}
use nulla_relay.ProofHub.Types.{Config, RelistInputs}
use nulla_relay.ProofHub.Storage.{State}
use nulla_relay.ProofHub.Effects.{changed}
use nulla_relay.ProofHub.Effects.Resale.{settled, outputs}

pub record Keeps (s s' : State) : Type 0 where
  pub same_balances : s'.balances ≡ s.balances
  pub same_nullifiers : s'.nullifier_used ≡ s.nullifier_used
  pub same_tags : s'.spend_tag_used ≡ s.spend_tag_used
  pub same_resold : s'.ownership_used ≡ s.ownership_used
  pub same_outbox : s'.outbox ≡ s.outbox

pub keep :
    {s s' : State}
    → s'.balances ≡ s.balances
    → s'.nullifier_used ≡ s.nullifier_used
    → s'.spend_tag_used ≡ s.spend_tag_used
    → s'.ownership_used ≡ s.ownership_used
    → s'.outbox ≡ s.outbox
    → Keeps s s'
keep b n t o m = record {
  same_balances = b;
  same_nullifiers = n;
  same_tags = t;
  same_resold = o;
  same_outbox = m;
}

pub Keeps-refl : (s : State) → Keeps s s
Keeps-refl s = keep refl refl refl refl refl

pub changed-Keeps :
    (c : Config) (k t : Option ℕ) (rp : ℕ) (s : State) → Keeps s (changed c k t rp s)
changed-Keeps c (some k) (some t) rp s =
    by_some (s.commitment_index k) (λ e. rw (e, changed) (keep refl refl refl refl refl))
      (λ i e. rw (e, changed) (keep refl refl refl refl refl))
changed-Keeps c (some k) none rp s = Keeps-refl s
changed-Keeps c none t rp s = Keeps-refl s

pub settled-Keeps :
    (c : Config) (root : ℕ) (leaves : List ℕ) (k t : Option ℕ) (s : State)
    → Keeps s (settled c root leaves k t s).1
settled-Keeps c root leaves (some k) (some t) s =
    by_some (s.commitment_index k) (λ e. rw (e, settled) (keep refl refl refl refl refl))
      (λ i e. rw (e, settled) (keep refl refl refl refl refl))
settled-Keeps c root leaves (some k) none s = keep refl refl refl refl refl
settled-Keeps c root leaves none t s = keep refl refl refl refl refl

pub outputs-Keeps :
    (c : Config) (amount root : ℕ) (leaves : List ℕ) (x : RelistInputs) (s : State)
    → Keeps s (outputs c amount root leaves x s).1
outputs-Keeps c amount root leaves x s =
    by_true (ltb 0 amount) (λ e. rw e (keep refl refl refl refl refl))
      (λ e. rw e (settled-Keeps c root leaves x.change_commitment x.change_spend_tag s))

-- ===== src/ProofHub/Ledger/Notes.antt =====
-- The notes of the first version on the ProofHub pallet (proofhub/pallets/proofs/src/lib.rs),
-- which are kept by their spend tag: which calls can make one, and which calls need one.
use nulla_relay.Prelude.{ℕ, Bool, true, false, none, some, List, [], ◌∷◌, ◌≡◌, refl, arith, is_some}
use nulla_relay.Frame.{Origin, dispatch}
use nulla_relay.ProofHub.Types.{Config, Balances}
use nulla_relay.ProofHub.Storage.{State, build}
use nulla_relay.ProofHub.Legacy.{deposit_public}
use nulla_relay.ProofHub.Spend.{set_rwa_price, set_access_config}
use nulla_relay.ProofHub.Calls.{Request, perform, run}
use nulla_relay.ProofHub.Effects.Membership.{
  deposit_v2_rule, purchase_rwa_v2_rule, withdraw_v2_rule, purchase_access_v2_rule,
}
use nulla_relay.ProofHub.Effects.Tags.{
  purchase_rwa_rule, withdraw_private_rule, purchase_access_rule,
}
use nulla_relay.ProofHub.Effects.Resale.{relist_private_rule}

-- The calls that deposit or spend a note of the first version.
abbrev pub is_note_call : Request → Bool
is_note_call (Request.deposit_legacy k p rp t h) = true
is_note_call (Request.purchase p i) = true
is_note_call (Request.withdraw p i) = true
is_note_call (Request.access p i) = true
is_note_call (Request.relist x) = true
is_note_call (Request.price r p) = false
is_note_call (Request.app a p x) = false
is_note_call (Request.deposit l a p h) = false
is_note_call (Request.purchase_v2 a i p) = false
is_note_call (Request.withdraw_note_v2 a i p) = false
is_note_call (Request.access_v2 a i p) = false

abbrev pub HasNoNotes : State → Type 0
HasNoNotes s = (t : ℕ) → s.spend_tag_commitments t ≡ none

module _ (c : Config) (s : State) (h : HasNoNotes s) where
  missing : {R : Type 0} (t : ℕ) → is_some (s.spend_tag_commitments t) ≡ true → R
  missing t e = let no = h t in ground arith

  absent : {R : Type 0} (t k : ℕ) → s.spend_tag_commitments t ≡ some k → R
  absent t k e = let no = h t in ground arith

  -- Where no note of the first version is stored, a call that deposits or spends one changes
  -- nothing.
  pub note_call_stops :
      (o : Origin) (r : Request) → is_note_call r ≡ true → dispatch (perform c o r) s ≡ s
  unfolding perform deposit_public
  note_call_stops Origin.root (Request.deposit_legacy k p rp t hints) e = refl
  note_call_stops Origin.unsigned (Request.deposit_legacy k p rp t hints) e = refl
  note_call_stops (Origin.signed w) (Request.deposit_legacy k p rp t hints) e = refl
  note_call_stops o (Request.purchase p i) e =
      purchase_rwa_rule c (λ s'. s' ≡ s) s refl o p i
        λ x rp stored none decoded priced opened. missing x.spend_tag opened.known
  note_call_stops o (Request.withdraw p i) e =
      withdraw_private_rule c (λ s'. s' ≡ s) s refl o p i
        λ x stored dest b none decoded unspent known signed opened sized account paid.
          absent x.spend_tag stored known
  note_call_stops o (Request.access p i) e =
      purchase_access_rule c (λ s'. s' ≡ s) s refl o p i
        λ x cfg rp stored dest b none decoded listed priced opened account paid.
          missing x.spend_tag opened.known
  note_call_stops o (Request.relist x) e =
      relist_private_rule c (λ s'. s' ≡ s) s refl o x
        λ owned bought none shown. absent x.new_buyer_spend_tag bought shown.known
  note_call_stops o (Request.price r p) e = ground arith
  note_call_stops o (Request.app a p x) e = ground arith
  note_call_stops o (Request.deposit l a p hints) e = ground arith
  note_call_stops o (Request.purchase_v2 a i p) e = ground arith
  note_call_stops o (Request.withdraw_note_v2 a i p) e = ground arith
  note_call_stops o (Request.access_v2 a i p) e = ground arith

  pub perform-HasNoNotes : (o : Origin) (r : Request) → HasNoNotes (dispatch (perform c o r) s)
  unfolding perform set_rwa_price set_access_config
  perform-HasNoNotes o (Request.deposit_legacy k p rp t hints) =
      rw (note_call_stops o (Request.deposit_legacy k p rp t hints) refl) h
  perform-HasNoNotes o (Request.purchase p i) = rw (note_call_stops o (Request.purchase p i) refl) h
  perform-HasNoNotes o (Request.withdraw p i) = rw (note_call_stops o (Request.withdraw p i) refl) h
  perform-HasNoNotes o (Request.access p i) = rw (note_call_stops o (Request.access p i) refl) h
  perform-HasNoNotes o (Request.relist x) = rw (note_call_stops o (Request.relist x) refl) h
  perform-HasNoNotes Origin.root (Request.price r p) = h
  perform-HasNoNotes Origin.unsigned (Request.price r p) = h
  perform-HasNoNotes (Origin.signed w) (Request.price r p) = h
  perform-HasNoNotes Origin.root (Request.app a p x) = h
  perform-HasNoNotes Origin.unsigned (Request.app a p x) = h
  perform-HasNoNotes (Origin.signed w) (Request.app a p x) = h
  perform-HasNoNotes o (Request.deposit l a p hints) =
      deposit_v2_rule c HasNoNotes s h o l a p hints λ who b g e proved paid grows. h
  perform-HasNoNotes o (Request.purchase_v2 a i p) =
      purchase_rwa_v2_rule c HasNoNotes s h o a i p λ x g e decoded priced signed shown grows. h
  perform-HasNoNotes o (Request.withdraw_note_v2 a i p) =
      withdraw_v2_rule c HasNoNotes s h o a i p λ x dest b e decoded signed shown account paid. h
  perform-HasNoNotes o (Request.access_v2 a i p) =
      purchase_access_v2_rule c HasNoNotes s h o a i p
        λ x cfg g dest b e decoded listed priced signed shown grows account paid. h

run-HasNoNotes :
    (c : Config) (rs : List (Origin × Request)) (s : State) → HasNoNotes s → HasNoNotes (run c rs s)
unfolding run
run-HasNoNotes c [] s h = h
run-HasNoNotes c ((o, r) ∷ rs) s h =
    run-HasNoNotes c rs (dispatch (perform c o r) s) (perform-HasNoNotes c s h o r)

-- On a chain that starts from `GenesisConfig::build`, whatever calls of the pallet have run, no
-- call of the first version (`deposit_public`, `purchase_rwa`, `withdraw_private`,
-- `purchase_access`) and no private resale (`relist_private`) changes anything.
pub note_calls_closed :
    (c : Config) (balances : Balances) (rs : List (Origin × Request)) (o : Origin) (r : Request)
    → is_note_call r ≡ true
    → dispatch (perform c o r) (run c rs (build balances)) ≡ run c rs (build balances)
unfolding build
note_calls_closed c balances rs o r e =
    note_call_stops c (run c rs (build balances)) (run-HasNoNotes c rs (build balances) (λ t. refl))
      o r e

-- ===== src/ProofHub/Tests/Ledger.antt =====
-- The theorems on the ledger of the ProofHub pallet (proofhub/pallets/proofs/src/lib.rs) at inputs
-- that meet their hypotheses.
use nulla_relay.Prelude.{
  ℕ, ◌≤◌, ◌^◌, true, Option, none, some, List, [], ◌∷◌, ◌≡◌, refl, ap, ◌⊎◌, arith, leb, by_true,
  length,
}
use nulla_relay.Frame.{Origin, dispatch}
use nulla_relay.Verifier.Tree.{insert, root, v2_insert_leaf, reference_root, merkle_depth}
use nulla_relay.ProofHub.Types.{Balances}
use nulla_relay.ProofHub.Storage.{State, build}
use nulla_relay.ProofHub.Spend.{
  purchase_rwa_v2, deposit_v2, set_rwa_price, set_access_config, withdraw_v2,
}
use nulla_relay.ProofHub.Access.{purchase_access_v2}
use nulla_relay.ProofHub.Ledger.Purchase.{
  purchase_rwa_v2_outcome, purchase_access_v2_outcome, RwaBought, AccessBought,
}
use nulla_relay.ProofHub.Tree.{v2_insert, v2_root_anchored}
use nulla_relay.ProofHub.Calls.{Request, perform, run}
use nulla_relay.ProofHub.Ledger.Nullifiers.{count_paid, nullifier_pays_once}
use nulla_relay.ProofHub.Ledger.Notes.{note_calls_closed}
use nulla_relay.ProofHub.Validate.{validate_unsigned}
use nulla_relay.ProofHub.Validate.Accepted.{is_accepted, changes_only_accepted}
use nulla_relay.ProofHub.Ledger.Transfers.{
  Deposited, Withdrawn, deposit_v2_outcome, withdraw_v2_outcome,
}
use nulla_relay.ProofHub.Ledger.Pool.{FillsPool, Spends, pool_falls_by_spending}
use nulla_relay.ProofHub.Ledger.TreeRoot.{StandsAt, current_root_refines}
use nulla_relay.ProofHub.Tests.{mix, move, config, start, auth, opened, session}

nullifier_pays_once_example : count_paid 77 (run config session (build start)).outbox ≤ 1
nullifier_pays_once_example = nullifier_pays_once config start session 77

note_calls_closed_example :
    dispatch
      (perform config Origin.unsigned (Request.purchase [] []))
      (run config session (build start))
    ≡ run config session (build start)
note_calls_closed_example =
    note_calls_closed config start session Origin.unsigned (Request.purchase [] []) refl

abbrev at_pool : ℕ → Option Balances → ℕ
at_pool before none = before
at_pool before (some b) = b 0

moved_in : (b : Balances) (who amount : ℕ) → b 0 ≤ at_pool (b 0) (move b who 0 amount true)
moved_in b who amount =
    by_true (leb amount (b who)) (λ e. rw e (ground arith)) λ e. rw e (ground arith)

move_fills : FillsPool config
move_fills b who amount b' e =
    let more = moved_in b who amount in
    let same : at_pool (b 0) (move b who 0 amount true) ≡ b' 0 = ap (at_pool (b 0)) e in omega arith

abbrev withdrawal : Request
withdrawal = Request.withdraw_note_v2 auth (opened.current_root_v2 ∷ 78 ∷ 30 ∷ 9 ∷ 4 ∷ []) []

withdrawn : (dispatch (perform config Origin.unsigned withdrawal) opened).balances 0 ≡ 70
unfolding run perform build deposit_v2 set_rwa_price v2_insert v2_root_anchored withdraw_v2
    v2_insert_leaf insert root
withdrawn = refl

filled : opened.balances 0 ≡ 100
unfolding run perform build deposit_v2 set_rwa_price v2_insert v2_insert_leaf insert root
filled = refl

pool_falls_by_spending_example :
    Spends opened (dispatch (perform config Origin.unsigned withdrawal) opened)
pool_falls_by_spending_example =
    pool_falls_by_spending config move_fills Origin.unsigned withdrawal opened
      (rw (withdrawn, filled) (ground arith))

current_root_refines_example :
    let s = run config session (build start) in
    (leaves : List ℕ) × (s.leaf_count_v2 ≡ length leaves)
    × ((leaf : ℕ) → StandsAt leaves leaf (s.leaf_index_v2 leaf))
    × ((leaves ≡ [])
        ⊎ (2 ^ merkle_depth ≤ length leaves)
        ⊎ (s.current_root_v2 ≡ reference_root mix leaves))
current_root_refines_example =
    current_root_refines mix config (λ nodes count leaf. refl) start session

abbrev first_inputs : List ℕ
first_inputs = opened.current_root_v2 ∷ 77 ∷ 3 ∷ 9 ∷ 1 ∷ 42 ∷ 0 ∷ []

purchase_rwa_v2_outcome_example :
    let s' = dispatch (purchase_rwa_v2 config Origin.unsigned auth first_inputs []) opened in
    (s' ≡ opened) ⊎ RwaBought config auth first_inputs [] opened s'
purchase_rwa_v2_outcome_example =
    purchase_rwa_v2_outcome config opened Origin.unsigned auth first_inputs []

-- The same inputs buy access to application 3 where it is configured.
abbrev app_opened : State
app_opened = run config ((Origin.root, Request.app 3 20 6) ∷ []) opened

access_granted :
    count_paid 77
      (dispatch (purchase_access_v2 config Origin.unsigned auth first_inputs []) app_opened).outbox
    ≡ 1
unfolding run perform build deposit_v2 set_rwa_price set_access_config v2_insert v2_root_anchored
    purchase_access_v2 v2_insert_leaf insert root
access_granted = refl

purchase_access_v2_outcome_example :
    let s' = dispatch (purchase_access_v2 config Origin.unsigned auth first_inputs []) app_opened in
    (s' ≡ app_opened) ⊎ AccessBought config auth first_inputs [] app_opened s'
purchase_access_v2_outcome_example =
    purchase_access_v2_outcome config app_opened Origin.unsigned auth first_inputs []

changes_only_accepted_example :
    (dispatch (perform config Origin.unsigned withdrawal) opened ≡ opened)
    ⊎ (is_accepted (validate_unsigned config withdrawal opened) ≡ true)
changes_only_accepted_example = changes_only_accepted config opened withdrawal

deposit_v2_outcome_example :
    let s' = dispatch (deposit_v2 config (Origin.signed 8) 44 50 [] []) opened in
    (s' ≡ opened) ⊎ Deposited config 8 44 50 [] opened s'
deposit_v2_outcome_example = deposit_v2_outcome config opened 8 44 50 [] []

abbrev withdrawal_inputs : List ℕ
withdrawal_inputs = opened.current_root_v2 ∷ 78 ∷ 30 ∷ 9 ∷ 4 ∷ []

withdraw_v2_outcome_example :
    let s' = dispatch (withdraw_v2 config Origin.unsigned auth withdrawal_inputs []) opened in
    (s' ≡ opened) ⊎ Withdrawn config auth withdrawal_inputs [] opened s'
withdraw_v2_outcome_example =
    withdraw_v2_outcome config opened Origin.unsigned auth withdrawal_inputs []

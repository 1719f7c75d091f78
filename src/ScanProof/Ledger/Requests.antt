-- ===== src/ScanProof/Ledger/Requests.antt =====
-- Every request to the ScanProof pallet (scanproof/pallets/proofs/src/lib.rs) has one of the effects
-- on the ledgers.
use nulla_relay.Prelude.{◌∷◌, ◌≡◌, refl, sym, subst, false, some}
use nulla_relay.Frame.{Origin, dispatch}
use nulla_relay.ScanProof.Types.{Config, Message}
use nulla_relay.ScanProof.Storage.{State}
use nulla_relay.ScanProof.Pedersen.{set_rwa_price, set_access_config}
use nulla_relay.ScanProof.Calls.{Request, perform}
use nulla_relay.ScanProof.Effects.{spend, pay}
use nulla_relay.ScanProof.Effects.Openings.{
  purchase_rwa_rule, withdraw_private_rule, purchase_access_rule, deposit_public_rule,
}
use nulla_relay.ScanProof.Effects.OneOfMany.{
  deposit_coin_rule, purchase_coin_rule, withdraw_coin_rule, purchase_access_coin_rule,
}
use nulla_relay.ScanProof.Effects.Outputs.{submit_proof_rule}
use nulla_relay.ScanProof.Ledger.{
  Spending, spending, groups, notes, nullifier, serial, use_key, NoteEffect, notes_kept,
  notes_added, CoinEffect, coins_kept, coin_placed, SpendEffect, settled, received, transferred,
  bought, granted, withdrawn, Effect, refused, note_added, change_added, groups-with_change,
  spending-with_change, coin_added, notes-with_coin, spending-with_coin,
}

abbrev sent : Message → Spending → Spending
sent m x = record x { outbox = m ∷ x.outbox }

module _ (c : Config) where
  pub perform-Effect :
      (o : Origin) (r : Request) (s : State) → Effect c s (dispatch (perform c o r) s)
  unfolding perform set_rwa_price set_access_config
  perform-Effect Origin.root (Request.price r p) s = record {
    on_notes = notes_kept;
    on_coins = coins_kept;
    on_spending = settled;
  }
  perform-Effect Origin.unsigned (Request.price r p) s = refused c s
  perform-Effect (Origin.signed w) (Request.price r p) s = refused c s
  perform-Effect Origin.root (Request.app a p x) s = record {
    on_notes = notes_kept;
    on_coins = coins_kept;
    on_spending = settled;
  }
  perform-Effect Origin.unsigned (Request.app a p x) s = refused c s
  perform-Effect (Origin.signed w) (Request.app a p x) s = refused c s
  perform-Effect o (Request.deposit k r h) s =
      deposit_public_rule c (Effect c s) s (refused c s) o k r h
        λ who w b e sized read proved paid new room. record {
          on_notes = note_added c _ s new room;
          on_coins = coins_kept;
          on_spending = received who w.1 b paid;
        }
  perform-Effect o (Request.submit p r i h) s =
      submit_proof_rule c (Effect c s) s (refused c s) o p r i h λ x e decoded shown. record {
        on_notes = notes_added x.new_commitments shown.new shown.room;
        on_coins = coins_kept;
        on_spending = transferred x.nullifiers shown.fresh;
      }
  perform-Effect o (Request.purchase k p n r t w change) s =
      purchase_rwa_rule c (Effect c s) s (refused c s) o k p n r t w change λ opened e shown fits.
        let m = Message.rwa_purchase r n 0 (s.rwa_prices r) t w in
        let base = spend n s in
        record {
          on_notes = change_added c k opened change base shown.opens fits;
          on_coins =
              subst (CoinEffect (groups s)) (sym (groups-with_change c change base)) coins_kept;
          on_spending =
              subst (λ x. SpendEffect c (spending s) (sent m x))
                (sym (spending-with_change c change base))
                (bought (nullifier n) m shown.fresh refl);
        }
  perform-Effect o (Request.withdraw k n p d v) s =
      withdraw_private_rule c (Effect c s) s (refused c s) o k n p d v
        λ dest b e known fresh proved sized account paid. record {
          on_notes = notes_kept;
          on_coins = coins_kept;
          on_spending = withdrawn (nullifier n) dest v b fresh paid;
        }
  perform-Effect o (Request.access k p n a t w change) s =
      purchase_access_rule c (Effect c s) s (refused c s) o k p n a t w change
        λ cfg opened dest b e listed shown account paid fits.
          let m = Message.access_grant a n t w in
          let base = pay b (spend n s) in
          record {
            on_notes = change_added c k opened change base shown.opens fits;
            on_coins =
                subst (CoinEffect (groups s)) (sym (groups-with_change c change base)) coins_kept;
            on_spending =
                subst (λ x. SpendEffect c (spending s) (sent m x))
                  (sym (spending-with_change c change base))
                  (granted (nullifier n) m dest cfg.price b shown.fresh refl paid);
          }
  perform-Effect o (Request.coin_deposit k a p) s =
      deposit_coin_rule c (Effect c s) s (refused c s) o k a p λ who b e new proved paid room.
        record {
          on_notes = notes_kept;
          on_coins = coin_placed k new room;
          on_spending = received who a b paid;
        }
  perform-Effect o (Request.coin_purchase i p g) s =
      purchase_coin_rule c (Effect c s) s (refused c s) o i p g λ x e decoded shown.
        let m =
          Message.rwa_purchase x.rwa_id x.serial x.serial (s.rwa_prices x.rwa_id) x.tx_id
            x.ownership_commitment in
        record {
          on_notes =
              subst (NoteEffect c (notes s)) (sym (notes-with_coin c x.change x.change_coin s))
                notes_kept;
          on_coins = coin_added c x.change x.change_coin g _ s shown.converts;
          on_spending =
              subst (λ y. SpendEffect c (spending s) (sent m (use_key (serial x.serial) y)))
                (sym (spending-with_coin c x.change x.change_coin s))
                (bought (serial x.serial) m shown.fresh refl);
        }
  perform-Effect o (Request.coin_withdraw i p) s =
      withdraw_coin_rule c (Effect c s) s (refused c s) o i p
        λ x dest b e decoded fresh known proved account paid. record {
          on_notes = notes_kept;
          on_coins = coins_kept;
          on_spending = withdrawn (serial x.serial) dest x.amount b fresh paid;
        }
  perform-Effect o (Request.coin_access i p g) s =
      purchase_access_coin_rule c (Effect c s) s (refused c s) o i p g
        λ x cfg dest b e decoded listed shown account paid.
          let m = Message.access_grant x.rwa_id x.serial x.tx_id x.ownership_commitment in
          let same = spending-with_coin c x.change x.change_coin s in
          record {
            on_notes =
                subst (NoteEffect c (notes s)) (sym (notes-with_coin c x.change x.change_coin s))
                  notes_kept;
            on_coins = coin_added c x.change x.change_coin g _ s shown.converts;
            on_spending =
                subst
                  (λ y.
                    SpendEffect c (spending s)
                      (record (sent m (use_key (serial x.serial) y)) { balances = b }))
                  (sym same)
                  (granted (serial x.serial) m dest cfg.price b shown.fresh refl (
                    subst (λ y. c.transfer y.balances c.pool_account dest cfg.price false ≡ some b)
                      same paid));
          }

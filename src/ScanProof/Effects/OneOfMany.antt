-- ===== src/ScanProof/Effects/OneOfMany.antt =====
-- Rules for a property `P` of the storage and the calls of the ScanProof pallet
-- (scanproof/pallets/proofs/src/lib.rs) on coins: where a call stops early, and where all of its
-- checks pass.
use nulla_relay.Prelude.{
  ℕ, true, false, none, some, List, ◌≡◌, refl, inl, inr, length, ltb, is_some, by_true, by_some,
}
use nulla_relay.Frame.{Origin, dispatch}
use nulla_relay.ScanProof.Types.{
  Config, AppConfig, Balances, CoinSpendPublic, CoinWithdrawPublic, Event, Message,
}
use nulla_relay.ScanProof.Storage.{State}
use nulla_relay.ScanProof.Coins.{
  group_capacity, group_of, next_group, is_present, same_flag, context, register_coin, deposit_coin,
  purchase_coin, withdraw_coin, purchase_access_coin,
}
use nulla_relay.ScanProof.Effects.{
  spend_serial, pay, announce, transmit, registered, HasRoom, with_coin, Converts, transfer_cases,
  register_change_cases,
}

-- What a purchase with a coin has shown: a fresh serial, a group, change that is wholly there or not at
-- all, the one-of-many proof for the price and the change, and the conversion of the change.
pub record Spent (c : Config) (s : State) (x : CoinSpendPublic) (price : ℕ)
    (inputs proof g1_pok : List ℕ) : Type 0 where
  pub fresh : s.serial_used x.serial ≡ false
  pub known : is_some (s.coin_groups x.group_id) ≡ true
  pub priced : ltb 0 price ≡ true
  pub whole : same_flag (is_present x.change) (is_present x.change_coin) ≡ true
  pub proved :
      c.verify_one_of_many proof
        (c.pad_group (group_of x.group_id s) x.group_id)
        x.serial
        price
        x.change
        (context c inputs)
      ≡ true
  pub converts : Converts c x.change x.change_coin g1_pok (context c inputs) s

module _ (c : Config) (P : State → Type 0) (s : State) (h : P s) where
  pub deposit_coin_rule :
      (o : Origin) (coin amount : ℕ) (proof : List ℕ)
      → ((who : ℕ) (b : Balances)
          → o ≡ Origin.signed who
          → s.coin_location coin ≡ none
          → c.verify_deposit_open coin amount proof (c.encode_account who) ≡ true
          → c.transfer s.balances who c.pool_account amount true ≡ some b
          → HasRoom s
          → P (registered coin (pay b s)))
      → P (dispatch (deposit_coin c o coin amount proof) s)
  unfolding deposit_coin register_coin
  deposit_coin_rule Origin.root coin amount proof k = h
  deposit_coin_rule Origin.unsigned coin amount proof k = h
  deposit_coin_rule (Origin.signed who) coin amount proof k =
      by_some (s.coin_location coin)
        (λ new. rw new (
          by_true (c.verify_deposit_open coin amount proof (c.encode_account who)) (λ e. rw e h)
            λ proved. rw proved (elim (transfer_cases c who c.pool_account amount true s) [
              | inl e ↦ rw e h
              | inr (b, paid, e) ↦ rw e (
                  by_true (ltb (length (group_of (next_group s) s)) group_capacity) (λ e. rw e h)
                    λ room. rw room (k who b refl new proved paid room))
            ])))
        (λ l old. rw old h)

  pub purchase_coin_rule :
      (o : Origin) (i p g : List ℕ)
      → ((x : CoinSpendPublic)
          → o ≡ Origin.unsigned
          → c.decode_coin_spend i ≡ some x
          → Spent c s x (s.rwa_prices x.rwa_id) i p g
          → P (
              transmit
                (Message.rwa_purchase x.rwa_id x.serial x.serial
                  (s.rwa_prices x.rwa_id)
                  x.tx_id
                  x.ownership_commitment)
                (announce
                  (Event.coin_purchase_authorized x.rwa_id x.tx_id x.group_id x.change_coin)
                  (spend_serial x.serial (with_coin c x.change x.change_coin s)))))
      → P (dispatch (purchase_coin c o i p g) s)
  unfolding purchase_coin
  purchase_coin_rule Origin.root i p g k = h
  purchase_coin_rule (Origin.signed w) i p g k = h
  purchase_coin_rule Origin.unsigned i p g k =
      by_some (c.decode_coin_spend i) (λ e. rw e h)
        λ x decoded. rw decoded (
          by_true (s.serial_used x.serial)
            (λ fresh. rw fresh (
              by_true (is_some (s.coin_groups x.group_id)) (λ e. rw e h)
                λ known. rw known (
                  by_true (ltb 0 (s.rwa_prices x.rwa_id)) (λ e. rw e h)
                    λ priced. rw priced (
                      by_true (same_flag (is_present x.change) (is_present x.change_coin))
                        (λ e. rw e h)
                        λ whole. rw whole (
                          by_true
                            (c.verify_one_of_many p (c.pad_group (group_of x.group_id s) x.group_id)
                              x.serial (s.rwa_prices x.rwa_id) x.change (context c i))
                            (λ e. rw e h)
                            λ proved.
                              rw proved
                                (elim (register_change_cases c x.change x.change_coin g
                                  (context c i) s) [
                                    | inl (failed, t, e) ↦ rw e h
                                    | inr (converts, e) ↦ rw e (
                                        k x refl decoded (record {
                                          fresh = fresh;
                                          known = known;
                                          priced = priced;
                                          whole = whole;
                                          proved = proved;
                                          converts = converts;
                                        }))
                                  ]))))))
            (λ used. rw used h))

  pub withdraw_coin_rule :
      (o : Origin) (i p : List ℕ)
      → ((x : CoinWithdrawPublic) (dest : ℕ) (b : Balances)
          → o ≡ Origin.unsigned
          → c.decode_coin_withdraw i ≡ some x
          → s.serial_used x.serial ≡ false
          → is_some (s.coin_groups x.group_id) ≡ true
          → c.verify_one_of_many p
              (c.pad_group (group_of x.group_id s) x.group_id)
              x.serial
              x.amount
              0
              (context c i)
            ≡ true
          → c.decode_account x.destination ≡ some dest
          → c.transfer s.balances c.pool_account dest x.amount false ≡ some b
          → P (
              announce
                (Event.coin_withdraw_completed x.tx_id x.amount)
                (pay b (spend_serial x.serial s))))
      → P (dispatch (withdraw_coin c o i p) s)
  unfolding withdraw_coin
  withdraw_coin_rule Origin.root i p k = h
  withdraw_coin_rule (Origin.signed w) i p k = h
  withdraw_coin_rule Origin.unsigned i p k =
      by_some (c.decode_coin_withdraw i) (λ e. rw e h)
        λ x decoded. rw decoded (
          by_true (s.serial_used x.serial)
            (λ fresh. rw fresh (
              by_true (is_some (s.coin_groups x.group_id)) (λ e. rw e h)
                λ known. rw known (
                  by_true
                    (c.verify_one_of_many p (c.pad_group (group_of x.group_id s) x.group_id)
                      x.serial x.amount 0 (context c i))
                    (λ e. rw e h)
                    λ proved. rw proved (
                      by_some (c.decode_account x.destination) (λ e. rw e h)
                        λ dest account.
                          rw account
                            (elim (transfer_cases c c.pool_account dest x.amount false
                              (spend_serial x.serial s)) [
                                | inl e ↦ rw e h
                                | inr (b, paid, e) ↦
                                    rw e (k x dest b refl decoded fresh known proved account paid)
                              ])))))
            (λ used. rw used h))

  pub purchase_access_coin_rule :
      (o : Origin) (i p g : List ℕ)
      → ((x : CoinSpendPublic) (cfg : AppConfig) (dest : ℕ) (b : Balances)
          → o ≡ Origin.unsigned
          → c.decode_coin_spend i ≡ some x
          → s.access_key_configs x.rwa_id ≡ some cfg
          → Spent c s x cfg.price i p g
          → c.decode_account cfg.payment_account ≡ some dest
          → c.transfer
              (with_coin c x.change x.change_coin s).balances
              c.pool_account
              dest
              cfg.price
              false
            ≡ some b
          → P (
              transmit (Message.access_grant x.rwa_id x.serial x.tx_id x.ownership_commitment) (
                announce
                  (Event.access_purchase_authorized x.rwa_id x.tx_id)
                  (pay b (spend_serial x.serial (with_coin c x.change x.change_coin s))))))
      → P (dispatch (purchase_access_coin c o i p g) s)
  unfolding purchase_access_coin
  purchase_access_coin_rule Origin.root i p g k = h
  purchase_access_coin_rule (Origin.signed w) i p g k = h
  purchase_access_coin_rule Origin.unsigned i p g k =
      by_some (c.decode_coin_spend i) (λ e. rw e h)
        λ x decoded. rw decoded (
          by_true (s.serial_used x.serial)
            (λ fresh. rw fresh (
              by_true (is_some (s.coin_groups x.group_id)) (λ e. rw e h)
                λ known. rw known (
                  by_some (s.access_key_configs x.rwa_id) (λ e. rw e h)
                    λ cfg listed. rw listed (
                      by_true (ltb 0 cfg.price) (λ e. rw e h)
                        λ priced. rw priced (
                          by_true (same_flag (is_present x.change) (is_present x.change_coin))
                            (λ e. rw e h)
                            λ whole. rw whole (
                              by_true
                                (c.verify_one_of_many p
                                  (c.pad_group (group_of x.group_id s) x.group_id) x.serial
                                  cfg.price x.change (context c i))
                                (λ e. rw e h)
                                λ proved.
                                  rw proved
                                    (elim (register_change_cases c x.change x.change_coin g
                                      (context c i) s) [
                                        | inl (failed, t, e) ↦ rw e h
                                        | inr (converts, e) ↦ rw e (
                                            by_some (c.decode_account cfg.payment_account)
                                              (λ e. rw e h)
                                              λ dest account.
                                                rw account
                                                  (elim (transfer_cases c c.pool_account dest
                                                    cfg.price false
                                                    (spend_serial x.serial
                                                      (with_coin c x.change x.change_coin s))) [
                                                        | inl e ↦ rw e h
                                                        | inr (b, paid, e) ↦ rw e (
                                                            k x cfg dest b refl decoded listed
                                                            (record {
                                                            fresh = fresh;
                                                            known = known;
                                                            priced = priced;
                                                            whole = whole;
                                                            proved = proved;
                                                            converts = converts;
                                                            })
                                                            account paid)
                                                      ]))
                                      ])))))))
            (λ used. rw used h))

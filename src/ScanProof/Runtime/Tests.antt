-- ===== src/ScanProof/Runtime/Tests.antt =====
-- A purchase with a coin over the smallest group (scanproof/runtime/src/configs/mod.rs).
use nulla_relay.Prelude.{
  ℕ, Bool, true, false, none, some, List, [], ◌∷◌, ◌≡◌, refl, arith, map, get_or,
}
use nulla_relay.Frame.{Origin, update, is_ok}
use nulla_relay.ScanProof.Types.{Config, CoinSpendPublic, Message}
use nulla_relay.ScanProof.Storage.{State, build}
use nulla_relay.ScanProof.Coins.{purchase_coin, context}
use nulla_relay.ScanProof.Tests.{config}
use nulla_relay.ScanProof.Verifier.{generator_h, generator_g1, coin_commit}
use nulla_relay.ScanProof.Verifier.Groups.{pad_group}
use nulla_relay.ScanProof.Verifier.OneOfMany.Prove.{prove}
use nulla_relay.ScanProof.Verifier.Tests.TwoPoints.{curve, curve-IsCurve, curve-IsRing, to_number}
use nulla_relay.Bridge.Fields.{le_codec, le_codec-IsFixedWidth}
use nulla_relay.Bridge.Messages.{decode_grant, decode_purchase}
use nulla_relay.ScanProof.Runtime.{send_message}
use nulla_relay.ScanProof.Runtime.Messages.{grant_meant, messages_read}
use nulla_relay.ScanProof.Runtime.CoinPurchase.{
  wired, CanBuy, coin_purchase_succeeds, coin_buys_twice,
}

-- The group has three coins; the third has the serial 1, holds 100 and is blinded by 9.
abbrev coins : List Bool
coins = true ∷ true ∷ false ∷ []

abbrev chain : State
chain = record (build (λ account. 0)) {
  coin_groups = update 0 (some (map to_number coins)) (λ gid. none);
  rwa_prices = update 40 100 (λ rwa. 0);
}

abbrev spending : (serial tx : ℕ) → List ℕ
spending serial tx = 0 ∷ serial ∷ 40 ∷ tx ∷ 9 ∷ 0 ∷ 0 ∷ []

abbrev spend : (serial tx : ℕ) → CoinSpendPublic
spend serial tx = record {
  group_id = 0;
  serial = serial;
  rwa_id = 40;
  tx_id = tx;
  ownership_commitment = 9;
  change = 0;
  change_coin = 0;
}

abbrev runtime : Config
runtime =
    wired curve curve-IsCurve curve-IsRing config (λ inputs. none)
      (λ rp commitments inputs nbits. false)

third_coin : get_or (map to_number coins) 2 0 ≡ coin_commit curve 1 100 9
unfolding coin_commit generator_h generator_g1
third_coin = refl

can_buy :
    (serial tx : ℕ)
    → CanBuy curve curve-IsCurve curve-IsRing config
        (λ inputs. none)
        (λ rp commitments inputs nbits. false)
        chain
        (spending serial tx)
        (spend serial tx)
        coins
        100
unfolding build
can_buy serial tx = record {
  decoded = refl;
  no_change = refl;
  no_change_coin = refl;
  unused = refl;
  group = refl;
  priced = refl;
  positive = omega arith;
  few = omega arith;
}

coin_purchase_succeeds_example :
    (proof : List ℕ) × (prove curve
        (pad_group curve (map to_number coins) 0)
        2
        3
        100
        0
        9
        (context runtime (spending 3 7))
        5
      ≡ some proof)
    × (is_ok (purchase_coin runtime Origin.unsigned (spending 3 7) proof [] chain).0 ≡ true)
coin_purchase_succeeds_example =
    coin_purchase_succeeds curve curve-IsCurve curve-IsRing config (λ inputs. none)
      (λ rp commitments inputs nbits. false) chain (spending 3 7) (spend 3 7) coins 2 1 100 9 5
      (can_buy 3 7) (omega arith) third_coin refl

coin_buys_twice_example :
    (proof proof' : List ℕ) × let first =
        purchase_coin runtime Origin.unsigned (spending 1 6) proof [] chain in
      (is_ok first.0 ≡ true)
      × (is_ok (purchase_coin runtime Origin.unsigned (spending 3 7) proof' [] first.1).0 ≡ true)
coin_buys_twice_example =
    coin_buys_twice curve curve-IsCurve curve-IsRing config (λ inputs. none)
      (λ rp commitments inputs nbits. false) chain (spending 1 6) (spending 3 7) (spend 1 6)
      (spend 3 7) coins 2 1 100 9 5 (can_buy 1 6) (can_buy 3 7) refl (omega arith) third_coin refl
      refl

messages_read_example :
    (decode_grant le_codec (send_message le_codec (Message.access_grant 7 300 33 123456))
      ≡ grant_meant (Message.access_grant 7 300 33 123456))
    × (decode_purchase le_codec (send_message le_codec (Message.access_grant 7 300 33 123456))
        ≡ none)
messages_read_example =
    messages_read le_codec le_codec-IsFixedWidth (Message.access_grant 7 300 33 123456)
      (omega arith, omega arith, omega arith, omega arith)

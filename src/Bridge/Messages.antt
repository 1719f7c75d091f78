-- ===== src/Bridge/Messages.antt =====
-- What the receiving chains make of the messages (proofhub/runtime/src/configs/mod.rs): the call
-- that the bytes name, with arguments of the widths that the call declares
-- (authgate-parachain/pallets/access-keys/src/lib.rs,
-- rwa-parachain/pallets/rwa-marketplace/src/lib.rs).
use nulla_relay.Prelude.{
  ℕ, ◌%◌, ◌^◌, ◌<◌, ◌+◌, Option, none, some, List, [], ◌∷◌, ◌++◌, ◌==◌, ◌&&◌, ◌≡◌, ap, ◌∙◌, arith,
  length, if◌then◌else◌, append-nil, length-append,
}
use nulla_relay.AuthGate.Calls as AccessCalls
use nulla_relay.Marketplace.Calls as MarketCalls
use nulla_relay.Bridge.{Codec, IsFixedWidth, rwa_send, access_send}

abbrev grant_of : Option (List ℕ) → Option AccessCalls.Request
grant_of (some (a ∷ n ∷ t ∷ k ∷ [])) = some (AccessCalls.Request.record_grant a n t k)
grant_of fields = none

abbrev purchase_of : Option (List ℕ) → Option MarketCalls.Request
purchase_of (some (a ∷ b ∷ t ∷ n ∷ tx ∷ k ∷ [])) =
    some (MarketCalls.Request.record_purchase a b t n tx k)
purchase_of fields = none

module _ (codec : Codec) where
  -- `xcm_record_access_grant` on AuthGate: pallet 50, call 2.
  abbrev pub decode_grant : List ℕ → Option AccessCalls.Request
  decode_grant (p ∷ i ∷ args) =
      if p == 50 && i == 2 then grant_of (codec.decode (32 ∷ 32 ∷ 16 ∷ 32 ∷ []) args) else none
  decode_grant bytes = none

  -- `xcm_record_purchase` on the RWA chain: pallet 51, call 4. The buyer is its second argument.
  abbrev pub decode_purchase : List ℕ → Option MarketCalls.Request
  decode_purchase (p ∷ i ∷ args) =
      if p == 51 && i == 4
      then purchase_of (codec.decode (4 ∷ 32 ∷ 32 ∷ 32 ∷ 16 ∷ 32 ∷ []) args)
      else none
  decode_purchase bytes = none

module _ (codec : Codec) (fixed : IsFixedWidth codec) where
  -- With a fixed-width encoding, the message for an access purchase decodes on AuthGate to the call
  -- that records the grant, with the arguments that ProofHub sent, which have to fit their widths.
  pub access_send_arrives :
      (app_id nullifier tx_id k : ℕ)
      → app_id < 256 ^ 32
      → nullifier < 256 ^ 32
      → tx_id < 256 ^ 16
      → k < 256 ^ 32
      → decode_grant codec (access_send codec app_id nullifier tx_id k)
        ≡ some (AccessCalls.Request.record_grant app_id nullifier tx_id k)
  unfolding access_send
  access_send_arrives app_id nullifier tx_id k a n t c =
      let last = fixed.next 32 k [] [] [] c fixed.done in
      let third = fixed.next 16 tx_id (32 ∷ []) (codec.encode 32 k ++ []) _ t last in
      let second =
        fixed.next 32 nullifier (16 ∷ 32 ∷ []) (codec.encode 16 tx_id ++ (codec.encode 32 k ++ []))
          _ n third in
      let first =
        fixed.next 32 app_id (32 ∷ 16 ∷ 32 ∷ [])
          (codec.encode 32 nullifier ++ (codec.encode 16 tx_id ++ (codec.encode 32 k ++ []))) _ a
          second in
      ap grant_of (rw (append-nil (codec.encode 32 k)) at first)

  length-field : (w x : ℕ) (rest : List ℕ) → length (codec.encode w x ++ rest) ≡ w + length rest
  length-field w x rest =
      length-append (codec.encode w x) rest ∙ ap (λ n. n + length rest) (fixed.width w x)

  -- With a fixed-width encoding, the message for an RWA purchase does not decode on the RWA chain
  -- to the call that records it, whatever the purchase is.
  pub rwa_send_refused :
      (rwa_id nullifier spend_tag note_value tx_id k : ℕ)
      → decode_purchase codec (rwa_send codec rwa_id nullifier spend_tag note_value tx_id k) ≡ none
  unfolding rwa_send
  rwa_send_refused rwa_id nullifier spend_tag note_value tx_id k =
      let last = codec.encode 32 k in
      let tail = codec.encode 16 tx_id ++ last in
      let spent = codec.encode 32 nullifier ++ tail in
      let tagged = codec.encode 32 spend_tag ++ spent in
      let of_last = fixed.width 32 k in
      let of_tail = length-field 16 tx_id last in
      let of_spent = length-field 32 nullifier tail in
      let of_tagged = length-field 32 spend_tag spent in
      let of_all = length-field 4 (rwa_id % 2 ^ 32) tagged in
      ap purchase_of (
        fixed.short (4 ∷ 32 ∷ 32 ∷ 32 ∷ 16 ∷ 32 ∷ []) (codec.encode 4 (rwa_id % 2 ^ 32) ++ tagged)
          (omega arith))

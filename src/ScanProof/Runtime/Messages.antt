-- ===== src/ScanProof/Runtime/Messages.antt =====
-- What the other chains make of the messages of ScanProof (scanproof/runtime/src/configs/mod.rs).
use nulla_relay.Prelude.{◌^◌, ◌<◌, Option, none, some, ◌≡◌, refl}
use nulla_relay.AuthGate.Calls as AccessCalls
use nulla_relay.Bridge as Hub
use nulla_relay.Bridge.{Codec, IsFixedWidth}
use nulla_relay.Bridge.Messages.{
  decode_grant, decode_purchase, access_send_arrives, rwa_send_refused,
}
use nulla_relay.ScanProof.Types.{Message}
use nulla_relay.ScanProof.Runtime.{rwa_send, access_send, send_message}

-- The arguments of a message fit their widths.
abbrev pub Fits : Message → Type 0
Fits (Message.rwa_purchase rwa_id nullifier spend_tag note_value tx_id k) = rwa_id < 256 ^ 32
Fits (Message.access_grant app_id nullifier tx_id k) =
    (app_id < 256 ^ 32) × (nullifier < 256 ^ 32) × (tx_id < 256 ^ 16) × (k < 256 ^ 32)

-- The call on AuthGate that a message stands for.
abbrev pub grant_meant : Message → Option AccessCalls.Request
grant_meant (Message.rwa_purchase rwa_id nullifier spend_tag note_value tx_id k) = none
grant_meant (Message.access_grant app_id nullifier tx_id k) =
    some (AccessCalls.Request.record_grant app_id nullifier tx_id k)

-- With a fixed-width encoding, each message of ScanProof whose arguments fit their widths reads on
-- AuthGate as the grant that it stands for, and only an access purchase as a grant; none reads on the
-- RWA chain as a purchase.
pub messages_read :
    (codec : Codec)
    → IsFixedWidth codec
    → (m : Message) → Fits m
    → (decode_grant codec (send_message codec m) ≡ grant_meant m)
      × (decode_purchase codec (send_message codec m) ≡ none)
unfolding rwa_send access_send Hub.rwa_send Hub.access_send
messages_read codec fixed (Message.rwa_purchase rwa_id nullifier spend_tag note_value tx_id k)
      fits =
    (refl, rwa_send_refused codec fixed rwa_id nullifier spend_tag note_value tx_id k)
messages_read codec fixed (Message.access_grant app_id nullifier tx_id k) (a, n, t, c) =
    (access_send_arrives codec fixed app_id nullifier tx_id k a n t c, refl)

-- ===== src/Bridge/Tests.antt =====
-- The messages to the other chains (proofhub/runtime/src/configs/mod.rs) at small arguments.
use nulla_relay.Prelude.{none, some, ◌≡◌, arith}
use nulla_relay.AuthGate.Calls as AccessCalls
use nulla_relay.Bridge.{access_send, rwa_send}
use nulla_relay.Bridge.Fields.{le_codec, le_codec-IsFixedWidth}
use nulla_relay.Bridge.Messages.{
  decode_grant, decode_purchase, access_send_arrives, rwa_send_refused,
}

access_send_arrives_example :
    decode_grant le_codec (access_send le_codec 7 300 33 123456)
    ≡ some (AccessCalls.Request.record_grant 7 300 33 123456)
access_send_arrives_example =
    access_send_arrives le_codec le_codec-IsFixedWidth 7 300 33 123456 (omega arith) (omega arith)
      (omega arith) (omega arith)

rwa_send_refused_example : decode_purchase le_codec (rwa_send le_codec 3 77 77 25 9 1) ≡ none
rwa_send_refused_example = rwa_send_refused le_codec le_codec-IsFixedWidth 3 77 77 25 9 1

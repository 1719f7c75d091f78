-- ===== src/Bridge.antt =====
-- The XCM messages from ProofHub to the other chains (proofhub/runtime/src/configs/mod.rs): the
-- bytes of the calls that `RwaXcmDispatch` and `AccessGateXcmDispatch` encode.
pub mod Fields
pub mod Messages
mod Tests
use nulla_relay.Prelude.{
  ℕ, ◌+◌, ◌%◌, ◌^◌, ◌<◌, Option, none, some, List, [], ◌∷◌, ◌++◌, ◌≡◌, length,
}

-- SCALE, of which the code uses numbers and byte arrays of a fixed width in bytes: the bytes of a
-- value, and the arguments of a call, one for each width, from the front of its bytes.
pub record Codec : Type 0 where
  pub encode : (width x : ℕ) → List ℕ
  pub decode : (widths bytes : List ℕ) → Option (List ℕ)

abbrev pub total : List ℕ → ℕ
total [] = 0
total (w ∷ widths) = w + total widths

-- What SCALE documents of them: a value takes as many bytes as its width, an encoded value is
-- decoded to itself, and too few bytes are refused.
pub record IsFixedWidth (codec : Codec) : Type 0 where
  pub width : (w x : ℕ) → length (codec.encode w x) ≡ w
  pub done : codec.decode [] [] ≡ some []
  pub next :
      (w x : ℕ) (widths rest values : List ℕ)
      → x < 256 ^ w
      → codec.decode widths rest ≡ some values
      → codec.decode (w ∷ widths) (codec.encode w x ++ rest) ≡ some (x ∷ values)
  pub short :
      (widths bytes : List ℕ) → length bytes < total widths → codec.decode widths bytes ≡ none

module _ (codec : Codec) where
  -- `RwaXcmDispatch::send`; the first four bytes of `rwa_id` are the asset id.
  unfoldable pub rwa_send :
      (rwa_id nullifier spend_tag note_value tx_id ownership_commitment : ℕ) → List ℕ
  rwa_send rwa_id nullifier spend_tag note_value tx_id ownership_commitment =
      let asset_id = rwa_id % 2 ^ 32 in
      51 ∷ 4 ∷ codec.encode 4 asset_id
      ++ (codec.encode 32 spend_tag
          ++ (codec.encode 32 nullifier
              ++ (codec.encode 16 tx_id ++ codec.encode 32 ownership_commitment)))

  -- `RwaXcmDispatch::send_transfer`
  unfoldable pub rwa_send_transfer : (old_tx_id new_ownership_commitment new_tx_id : ℕ) → List ℕ
  rwa_send_transfer old_tx_id new_ownership_commitment new_tx_id =
      51 ∷ 6 ∷ codec.encode 16 old_tx_id
      ++ (codec.encode 32 new_ownership_commitment ++ codec.encode 16 new_tx_id)

  -- `AccessGateXcmDispatch::send`
  unfoldable pub access_send : (app_id nullifier tx_id access_key_commitment : ℕ) → List ℕ
  access_send app_id nullifier tx_id access_key_commitment =
      50 ∷ 2 ∷ codec.encode 32 app_id
      ++ (codec.encode 32 nullifier
          ++ (codec.encode 16 tx_id ++ codec.encode 32 access_key_commitment))

-- ===== src/Transport/Laws.antt =====
-- What server/src/transport.rs reads of a frame.
use vtnet.Base.{
  ◌≤◌, ◌<◌, ◌≡◌, ◌↔◌, some, ok, err, arith, Option-cases, Result-cases, inl, inr, subst,
}
use vtnet.Text.{Text, len}
use vtnet.External.{Base64, IsBase64}
use vtnet.Shared.Messages.{ClientMessage}
use vtnet.Shared.Wire.{SerdeJson, IsSerdeJson, client_to_wire, client_from_wire}
use vtnet.Shared.Wire.RoundTrip.{
  IsMessage, client_from_wire-client_to_wire, client_from_wire-IsMessage,
}
use vtnet.Transport.{decode_client_message, from_str, max_websocket_text_bytes, message_too_large}

module _ {Uuid Json : Type 0} (serde : SerdeJson Uuid Json) (b : Base64) where
  -- A frame is refused as too large exactly when it has more than 65536 bytes, whatever it says.
  pub decode-too_large :
      (payload : Text)
      → (decode_client_message serde b payload ≡ err message_too_large)
        ↔ (max_websocket_text_bytes < len payload)
  unfolding decode_client_message
  decode-too_large payload = ground arith

  from_str-IsMessage :
      IsBase64 b
      → (payload : Text) {m : ClientMessage Uuid Json} → from_str serde b payload ≡ ok m
      → IsMessage m
  unfolding from_str
  from_str-IsMessage lawful payload {m} e = elim (Option-cases (serde.client_from_str payload)) [
    | inl unread ↦ absurd (ground arith)
    | inr (w, read) ↦ elim (Result-cases (client_from_wire b w)) [
      | inl (m', f) ↦
          subst IsMessage {x = m'} {y = m} (ground arith) (client_from_wire-IsMessage lawful w f)
      | inr (_, f) ↦ absurd (ground arith)
    ]
  ]

  -- If base64 decodes to bytes, a frame that is read has at most 65536 bytes, and its message is well
  -- formed: a uid of 32 bytes, a text that is neither blank nor too long.
  pub decode-IsMessage :
      IsBase64 b
      → (payload : Text) {m : ClientMessage Uuid Json}
      → decode_client_message serde b payload ≡ ok m
      → (len payload ≤ max_websocket_text_bytes) × IsMessage m
  unfolding decode_client_message
  decode-IsMessage lawful payload {m} e =
      (ground arith, from_str-IsMessage lawful payload (ground arith))

  -- If base64 and serde_json read what they write, the text that a client writes for a well-formed
  -- message is decoded to that message, if it has at most 65536 bytes.
  pub decode-to_string :
      IsBase64 b
      → IsSerdeJson serde
      → (m : ClientMessage Uuid Json) (payload : Text) → IsMessage m
      → serde.client_to_string (client_to_wire b m) ≡ some payload
      → len payload ≤ max_websocket_text_bytes
      → decode_client_message serde b payload ≡ ok m
  unfolding decode_client_message
  decode-to_string lawful reads m payload h e bound = ground (
    arith,
    reads.from_str-to_string (client_to_wire b m) payload e,
    client_from_wire-client_to_wire lawful m h,
  )

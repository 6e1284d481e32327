-- ===== src/Transport.antt =====
-- server/src/transport.rs: text frames of a WebSocket to client messages, and server messages to
-- text frames.
pub mod Laws
use vtnet.Base.{ℕ, ◌*◌, Option, Result, err, ◌>>=◌, ok_or, ltb, if◌then◌else◌, map_err}
use vtnet.Text.{Text, len}
use vtnet.External.{Base64}
use vtnet.Shared.Messages.{ClientMessage, ServerMessage}
use vtnet.Shared.Wire.{SerdeJson, client_from_wire, server_to_wire}

abbrev pub max_websocket_text_bytes : ℕ
max_websocket_text_bytes = 64 * 1024

pub data WebSocketMessageError : Type 0 where
  message_too_large invalid_protocol_message : WebSocketMessageError

module _ {Uuid Json : Type 0} (serde : SerdeJson Uuid Json) (b : Base64) where
  -- `serde_json::from_str(payload).map_err(..)`
  unfoldable pub from_str : Text → Result (ClientMessage Uuid Json) WebSocketMessageError
  from_str payload = do
    wire ← ok_or (serde.client_from_str payload) invalid_protocol_message
    map_err (λ _. invalid_protocol_message) (client_from_wire b wire)

  unfoldable pub decode_client_message :
      Text → Result (ClientMessage Uuid Json) WebSocketMessageError
  unfolding from_str
  decode_client_message payload =
      if ltb max_websocket_text_bytes (len payload) then err message_too_large else from_str payload

  unfoldable pub encode_server_message : ServerMessage Uuid Json → Option Text
  encode_server_message message = serde.server_to_string (server_to_wire b message)

-- ===== src/Shared/Json.antt =====
-- The JSON of the messages of shared/src/lib.rs, as their serde attributes determine it: an object
-- with the variant's name under "event" and an object of its fields under "payload", all names in
-- snake_case. A uuid is its text here, and a candidate any value.
use vtnet.Base.{ℕ, Bool}
use vtnet.Text.{Text, codes}
use vtnet.Shared.Messages.{
  SdpType, offer, answer, AuthFailureReason, invalid_credentials, unsupported_protocol_version,
  request_expired, rate_limited,
}
use vtnet.Shared.Wire.{ClientWire, ServerWire}

-- A JSON value. A number that is not natural is its text.
mutual
  pub data Value : Type 0 where
    null : Value
    boolean : Bool → Value
    number : ℕ → Value
    other_number : Text → Value
    string : Text → Value
    array : Items → Value
    object : Fields → Value

  pub data Items : Type 0 where
    nil : Items
    cons : Value → Items → Items

  pub data Fields : Type 0 where
    end : Fields
    field : Text → Value → Fields → Fields

-- `#[serde(tag = "event", content = "payload")]`
abbrev pub envelope : Text → Fields → Value
envelope event payload =
    object (field (codes "event") (string event) (field (codes "payload") (object payload) end))

-- `#[serde(rename_all = "snake_case")]` on `SdpType` and `AuthFailureReason`
abbrev pub sdp_type_name : SdpType → Text
sdp_type_name offer = codes "offer"
sdp_type_name answer = codes "answer"

abbrev pub reason_name : AuthFailureReason → Text
reason_name invalid_credentials = codes "invalid_credentials"
reason_name unsupported_protocol_version = codes "unsupported_protocol_version"
reason_name request_expired = codes "request_expired"
reason_name rate_limited = codes "rate_limited"

-- A field with a string.
abbrev pub text_field : Text → Text → Fields → Fields
text_field name value rest = field name (string value) rest

unfoldable pub client_to_value : ClientWire Text Value → Value
client_to_value (ClientWire.auth_identify v uid) =
    envelope (codes "auth_identify")
      (field (codes "protocol_version") (number v) (text_field (codes "client_uid") uid end))
client_to_value (ClientWire.auth_response signature) =
    envelope (codes "auth_response") (text_field (codes "signature_base64") signature end)
client_to_value (ClientWire.join_voice_room room) =
    envelope (codes "join_voice_room") (text_field (codes "room_id") room end)
client_to_value (ClientWire.leave_voice_room room) =
    envelope (codes "leave_voice_room") (text_field (codes "room_id") room end)
client_to_value (ClientWire.send_text_message room content) =
    envelope (codes "send_text_message")
      (text_field (codes "room_id") room (text_field (codes "text_content") content end))
client_to_value (ClientWire.send_web_rtc_sdp room target kind raw) =
    envelope (codes "send_web_rtc_sdp") (
      text_field (codes "room_id") room (
        text_field (codes "target_uid") target (
          text_field (codes "sdp_type") (sdp_type_name kind)
            (text_field (codes "sdp_raw") raw end))))
client_to_value (ClientWire.send_web_rtc_ice room target candidate) =
    envelope (codes "send_web_rtc_ice") (
      text_field (codes "room_id") room
        (text_field (codes "target_uid") target (field (codes "candidate") candidate end)))

unfoldable pub server_to_value : ServerWire Text Value → Value
server_to_value (ServerWire.auth_challenge nonce time) =
    envelope (codes "auth_challenge")
      (text_field (codes "nonce_base64") nonce (field (codes "server_timestamp") (number time) end))
server_to_value (ServerWire.auth_success uid name server) = envelope (codes "auth_success") (
    text_field (codes "verified_uid") uid
      (text_field (codes "assigned_name") name (text_field (codes "server_name") server end)))
server_to_value (ServerWire.auth_failure reason) =
    envelope (codes "auth_failure") (text_field (codes "reason") (reason_name reason) end)
server_to_value (ServerWire.voice_room_joined room) =
    envelope (codes "voice_room_joined") (text_field (codes "room_id") room end)
server_to_value (ServerWire.voice_room_left room) =
    envelope (codes "voice_room_left") (text_field (codes "room_id") room end)
server_to_value (ServerWire.peer_joined_room room peer name) = envelope (codes "peer_joined_room") (
    text_field (codes "room_id") room
      (text_field (codes "peer_uid") peer (text_field (codes "peer_name") name end)))
server_to_value (ServerWire.peer_left_room room peer) =
    envelope (codes "peer_left_room")
      (text_field (codes "room_id") room (text_field (codes "peer_uid") peer end))
server_to_value (ServerWire.broadcast_text_message room sender name content time) =
    envelope (codes "broadcast_text_message") (
      text_field (codes "room_id") room (
        text_field (codes "sender_uid") sender (
          text_field (codes "sender_name") name (
            text_field (codes "text_content") content
              (field (codes "server_timestamp") (number time) end)))))
server_to_value (ServerWire.forward_web_rtc_sdp room sender kind raw) =
    envelope (codes "forward_web_rtc_sdp") (
      text_field (codes "room_id") room (
        text_field (codes "sender_uid") sender (
          text_field (codes "sdp_type") (sdp_type_name kind)
            (text_field (codes "sdp_raw") raw end))))
server_to_value (ServerWire.forward_web_rtc_ice room sender candidate) =
    envelope (codes "forward_web_rtc_ice") (
      text_field (codes "room_id") room
        (text_field (codes "sender_uid") sender (field (codes "candidate") candidate end)))

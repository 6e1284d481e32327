-- ===== src/Shared/Wire.antt =====
-- The JSON form of the messages of shared/src/lib.rs. serde_json turns a text into the message whose
-- fields are still strings where a type has its own `Deserialize`; those implementations, of
-- `UserUid` and `RoomTextContent`, are the source's and are applied here, field by field, as the
-- derived `Deserialize` of `ClientMessage` does.
pub mod RoundTrip
pub mod Server
use vtnet.Base.{ℕ, ◌<◌, ◌^◌, Result, ok, ◌>>=◌, map_err, Option, some, ◌≡◌}
use vtnet.Text.{Text}
use vtnet.External.{Base64}
use vtnet.Shared.Uid.{UserUid, UidError, serialize, deserialize}
use vtnet.Shared.Content.{RoomTextContent, ContentError, new}
use vtnet.Shared.Messages.{SdpType, AuthFailureReason, ClientMessage, ServerMessage}

-- A client message with the strings that the source's own `Deserialize` reads.
pub data ClientWire (Uuid Json : Type 0) : Type 0 where
  auth_identify : ℕ → Text → ClientWire Uuid Json
  auth_response : Text → ClientWire Uuid Json
  join_voice_room : Uuid → ClientWire Uuid Json
  leave_voice_room : Uuid → ClientWire Uuid Json
  send_text_message : Uuid → Text → ClientWire Uuid Json
  send_web_rtc_sdp : Uuid → Text → SdpType → Text → ClientWire Uuid Json
  send_web_rtc_ice : Uuid → Text → Json → ClientWire Uuid Json

pub data ServerWire (Uuid Json : Type 0) : Type 0 where
  auth_challenge : Text → ℕ → ServerWire Uuid Json
  auth_success : Text → Text → Text → ServerWire Uuid Json
  auth_failure : AuthFailureReason → ServerWire Uuid Json
  voice_room_joined : Uuid → ServerWire Uuid Json
  voice_room_left : Uuid → ServerWire Uuid Json
  peer_joined_room : Uuid → Text → Text → ServerWire Uuid Json
  peer_left_room : Uuid → Text → ServerWire Uuid Json
  broadcast_text_message : Uuid → Text → Text → Text → ℕ → ServerWire Uuid Json
  forward_web_rtc_sdp : Uuid → Text → SdpType → Text → ServerWire Uuid Json
  forward_web_rtc_ice : Uuid → Text → Json → ServerWire Uuid Json

-- `serde_json::from_str` and `serde_json::to_string`, on the derived shapes.
pub record SerdeJson (Uuid Json : Type 0) : Type 0 where
  pub client_from_str : Text → Option (ClientWire Uuid Json)
  pub client_to_string : ClientWire Uuid Json → Option Text
  pub server_to_string : ServerWire Uuid Json → Option Text
  pub server_from_str : Text → Option (ServerWire Uuid Json)

-- The times of a server message are values of `u64`.
abbrev pub HasTimes : {Uuid Json : Type 0} → ServerWire Uuid Json → Type 0
HasTimes (ServerWire.auth_challenge nonce time) = time < 2 ^ 64
HasTimes (ServerWire.broadcast_text_message room sender name content time) = time < 2 ^ 64
HasTimes _ = Unit {0}

-- What serde_json writes, it reads back.
pub record IsSerdeJson {Uuid Json : Type 0} (s : SerdeJson Uuid Json) : Type 0 where
  pub from_str-to_string :
      (w : ClientWire Uuid Json) (t : Text)
      → s.client_to_string w ≡ some t
      → s.client_from_str t ≡ some w
  pub server_from_str-to_string :
      (w : ServerWire Uuid Json) (t : Text)
      → HasTimes w
      → s.server_to_string w ≡ some t
      → s.server_from_str t ≡ some w

-- Which field's own `Deserialize` refused its string.
pub data WireError : Type 0 where
  bad_uid : UidError → WireError
  bad_content : ContentError → WireError

module _ (b : Base64) where
  unfoldable pub uid_field : Text → Result UserUid WireError
  uid_field t = map_err bad_uid (deserialize b t)

unfoldable pub content_field : Text → Result RoomTextContent WireError
content_field t = map_err bad_content (new t)

module _ {Uuid Json : Type 0} (b : Base64) where
  -- The derived `Serialize` of `ClientMessage`.
  unfoldable pub client_to_wire : ClientMessage Uuid Json → ClientWire Uuid Json
  client_to_wire (ClientMessage.auth_identify v uid) = ClientWire.auth_identify v (serialize b uid)
  client_to_wire (ClientMessage.auth_response signature) = ClientWire.auth_response signature
  client_to_wire (ClientMessage.join_voice_room room) = ClientWire.join_voice_room room
  client_to_wire (ClientMessage.leave_voice_room room) = ClientWire.leave_voice_room room
  client_to_wire (ClientMessage.send_text_message room content) =
      ClientWire.send_text_message room content.value
  client_to_wire (ClientMessage.send_web_rtc_sdp room target kind raw) =
      ClientWire.send_web_rtc_sdp room (serialize b target) kind raw
  client_to_wire (ClientMessage.send_web_rtc_ice room target candidate) =
      ClientWire.send_web_rtc_ice room (serialize b target) candidate

  -- The derived `Deserialize` of `ClientMessage`.
  unfoldable pub client_from_wire :
      ClientWire Uuid Json → Result (ClientMessage Uuid Json) WireError
  client_from_wire (ClientWire.auth_identify v uid) = do
    client_uid ← uid_field b uid
    ok (ClientMessage.auth_identify v client_uid)
  client_from_wire (ClientWire.auth_response signature) = ok (ClientMessage.auth_response signature)
  client_from_wire (ClientWire.join_voice_room room) = ok (ClientMessage.join_voice_room room)
  client_from_wire (ClientWire.leave_voice_room room) = ok (ClientMessage.leave_voice_room room)
  client_from_wire (ClientWire.send_text_message room text) = do
    content ← content_field text
    ok (ClientMessage.send_text_message room content)
  client_from_wire (ClientWire.send_web_rtc_sdp room target kind raw) = do
    target_uid ← uid_field b target
    ok (ClientMessage.send_web_rtc_sdp room target_uid kind raw)
  client_from_wire (ClientWire.send_web_rtc_ice room target candidate) = do
    target_uid ← uid_field b target
    ok (ClientMessage.send_web_rtc_ice room target_uid candidate)

  -- The derived `Serialize` of `ServerMessage`.
  unfoldable pub server_to_wire : ServerMessage Uuid Json → ServerWire Uuid Json
  server_to_wire (ServerMessage.auth_challenge nonce time) = ServerWire.auth_challenge nonce time
  server_to_wire (ServerMessage.auth_success uid name server) =
      ServerWire.auth_success (serialize b uid) name server
  server_to_wire (ServerMessage.auth_failure reason) = ServerWire.auth_failure reason
  server_to_wire (ServerMessage.voice_room_joined room) = ServerWire.voice_room_joined room
  server_to_wire (ServerMessage.voice_room_left room) = ServerWire.voice_room_left room
  server_to_wire (ServerMessage.peer_joined_room room peer name) =
      ServerWire.peer_joined_room room (serialize b peer) name
  server_to_wire (ServerMessage.peer_left_room room peer) =
      ServerWire.peer_left_room room (serialize b peer)
  server_to_wire (ServerMessage.broadcast_text_message room sender name content time) =
      ServerWire.broadcast_text_message room (serialize b sender) name content.value time
  server_to_wire (ServerMessage.forward_web_rtc_sdp room sender kind raw) =
      ServerWire.forward_web_rtc_sdp room (serialize b sender) kind raw
  server_to_wire (ServerMessage.forward_web_rtc_ice room sender candidate) =
      ServerWire.forward_web_rtc_ice room (serialize b sender) candidate

  -- The derived `Deserialize` of `ServerMessage`.
  unfoldable pub server_from_wire :
      ServerWire Uuid Json → Result (ServerMessage Uuid Json) WireError
  server_from_wire (ServerWire.auth_challenge nonce time) =
      ok (ServerMessage.auth_challenge nonce time)
  server_from_wire (ServerWire.auth_success uid name server) = do
    verified_uid ← uid_field b uid
    ok (ServerMessage.auth_success verified_uid name server)
  server_from_wire (ServerWire.auth_failure reason) = ok (ServerMessage.auth_failure reason)
  server_from_wire (ServerWire.voice_room_joined room) = ok (ServerMessage.voice_room_joined room)
  server_from_wire (ServerWire.voice_room_left room) = ok (ServerMessage.voice_room_left room)
  server_from_wire (ServerWire.peer_joined_room room peer name) = do
    peer_uid ← uid_field b peer
    ok (ServerMessage.peer_joined_room room peer_uid name)
  server_from_wire (ServerWire.peer_left_room room peer) = do
    peer_uid ← uid_field b peer
    ok (ServerMessage.peer_left_room room peer_uid)
  server_from_wire (ServerWire.broadcast_text_message room sender name text time) = do
    sender_uid ← uid_field b sender
    content ← content_field text
    ok (ServerMessage.broadcast_text_message room sender_uid name content time)
  server_from_wire (ServerWire.forward_web_rtc_sdp room sender kind raw) = do
    sender_uid ← uid_field b sender
    ok (ServerMessage.forward_web_rtc_sdp room sender_uid kind raw)
  server_from_wire (ServerWire.forward_web_rtc_ice room sender candidate) = do
    sender_uid ← uid_field b sender
    ok (ServerMessage.forward_web_rtc_ice room sender_uid candidate)

-- ===== src/Shared/Messages.antt =====
-- The messages of shared/src/lib.rs. Room ids (`uuid::Uuid`) and ICE candidates
-- (`serde_json::Value`) are types of other crates, and stay parameters.
use vtnet.Base.{ℕ}
use vtnet.Text.{Text}
use vtnet.Shared.Uid.{UserUid}
use vtnet.Shared.Content.{RoomTextContent}

pub data SdpType : Type 0 where
  offer answer : SdpType

pub data AuthFailureReason : Type 0 where
  invalid_credentials unsupported_protocol_version request_expired rate_limited : AuthFailureReason

-- What a client may send.
pub data ClientMessage (Uuid Json : Type 0) : Type 0 where
  -- protocol version, client uid
  auth_identify : ℕ → UserUid → ClientMessage Uuid Json
  -- Base64 signature
  auth_response : Text → ClientMessage Uuid Json
  join_voice_room : Uuid → ClientMessage Uuid Json
  leave_voice_room : Uuid → ClientMessage Uuid Json
  send_text_message : Uuid → RoomTextContent → ClientMessage Uuid Json
  -- room, target, kind, raw description
  send_web_rtc_sdp : Uuid → UserUid → SdpType → Text → ClientMessage Uuid Json
  -- room, target, candidate
  send_web_rtc_ice : Uuid → UserUid → Json → ClientMessage Uuid Json

-- What the server replies and broadcasts.
pub data ServerMessage (Uuid Json : Type 0) : Type 0 where
  -- Base64 nonce, server time
  auth_challenge : Text → ℕ → ServerMessage Uuid Json
  -- verified uid, assigned name, server name
  auth_success : UserUid → Text → Text → ServerMessage Uuid Json
  auth_failure : AuthFailureReason → ServerMessage Uuid Json
  voice_room_joined : Uuid → ServerMessage Uuid Json
  voice_room_left : Uuid → ServerMessage Uuid Json
  -- room, peer, name of the peer
  peer_joined_room : Uuid → UserUid → Text → ServerMessage Uuid Json
  peer_left_room : Uuid → UserUid → ServerMessage Uuid Json
  -- room, sender, name of the sender, text, server time
  broadcast_text_message : Uuid → UserUid → Text → RoomTextContent → ℕ → ServerMessage Uuid Json
  -- room, sender, kind, raw description
  forward_web_rtc_sdp : Uuid → UserUid → SdpType → Text → ServerMessage Uuid Json
  -- room, sender, candidate
  forward_web_rtc_ice : Uuid → UserUid → Json → ServerMessage Uuid Json

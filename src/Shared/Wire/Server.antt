-- ===== src/Shared/Wire/Server.antt =====
-- The derived `Serialize` and `Deserialize` of `ServerMessage` in shared/src/lib.rs, after each other.
use vtnet.Base.{◌≡◌, refl, ok, ◌<◌, ◌^◌}
use vtnet.External.{Base64, IsBase64}
use vtnet.Shared.Uid.{IsUid}
use vtnet.Shared.Uid.Codec.{deserialize-serialize}
use vtnet.Shared.Content.Laws.{IsContent, new_of_IsContent}
use vtnet.Shared.Messages.{ServerMessage}
use vtnet.Shared.Wire.{server_to_wire, server_from_wire, uid_field, content_field, HasTimes}

-- What the types of the message's fields guarantee.
abbrev pub IsTyped : {Uuid Json : Type 0} → ServerMessage Uuid Json → Type 0
IsTyped (ServerMessage.auth_challenge nonce time) = time < 2 ^ 64
IsTyped (ServerMessage.auth_success uid name server) = IsUid uid
IsTyped (ServerMessage.peer_joined_room room peer name) = IsUid peer
IsTyped (ServerMessage.peer_left_room room peer) = IsUid peer
IsTyped (ServerMessage.broadcast_text_message room sender name content time) =
    IsUid sender × IsContent content × (time < 2 ^ 64)
IsTyped (ServerMessage.forward_web_rtc_sdp room sender kind raw) = IsUid sender
IsTyped (ServerMessage.forward_web_rtc_ice room sender candidate) = IsUid sender
IsTyped _ = Unit {0}

module _ {Uuid Json : Type 0} (b : Base64) where
  pub server_to_wire-HasTimes :
      (m : ServerMessage Uuid Json) → IsTyped m → HasTimes (server_to_wire b m)
  unfolding server_to_wire
  server_to_wire-HasTimes (ServerMessage.auth_challenge nonce time) h = h
  server_to_wire-HasTimes (ServerMessage.broadcast_text_message room sender name content time) h =
      h.2
  server_to_wire-HasTimes _ h = tt

  -- If base64 reads what it writes, every server message whose uids have 32 bytes and whose text is
  -- valid is read back from its wire form as it was.
  pub server_from_wire-server_to_wire :
      IsBase64 b
      → (m : ServerMessage Uuid Json) → IsTyped m
      → server_from_wire b (server_to_wire b m) ≡ ok m
  unfolding server_from_wire server_to_wire uid_field content_field
  server_from_wire-server_to_wire lawful (ServerMessage.auth_success uid name server) h =
      rw (deserialize-serialize lawful uid h)
  server_from_wire-server_to_wire lawful (ServerMessage.peer_joined_room room peer name) h =
      rw (deserialize-serialize lawful peer h)
  server_from_wire-server_to_wire lawful (ServerMessage.peer_left_room room peer) h =
      rw (deserialize-serialize lawful peer h)
  server_from_wire-server_to_wire lawful
        (ServerMessage.broadcast_text_message room sender name content time) h =
      rw (deserialize-serialize lawful sender h.0, new_of_IsContent content h.1)
  server_from_wire-server_to_wire lawful (ServerMessage.forward_web_rtc_sdp room sender kind raw)
        h =
      rw (deserialize-serialize lawful sender h)
  server_from_wire-server_to_wire lawful (ServerMessage.forward_web_rtc_ice room sender candidate)
        h =
      rw (deserialize-serialize lawful sender h)
  server_from_wire-server_to_wire lawful _ h = refl

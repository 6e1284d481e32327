-- ===== src/UnitTests/Routing.antt =====
-- The unit tests of server/src/lib.rs that are about the routing of room messages.
use vtnet.Base.{Eq, nat_eq, ◌≡◌, ◌≢◌, refl, [], ◌∷◌, replicate, ok, err, arith}
use vtnet.Text.{Text, len, len_utf8, trim, is_whitespace}
use vtnet.Shared.Uid.{UserUid, uid_eq, from_bytes}
use vtnet.Shared.Content
use vtnet.Shared.Content.{RoomTextContent}
use vtnet.Shared.Messages.{ClientMessage, ServerMessage, offer}
use vtnet.Room.Session.{Session, new}
use vtnet.Room.Permission.{write}
use vtnet.Room.Registry.{RoomRegistry, default, joined}
use vtnet.Room.Routing.{
  permission_denied, sender_not_in_active_voice_room, target_not_in_active_voice_room,
  ensure_active_member, ensure_permission, ensure_target_member, other_members,
  route_client_room_message,
}
use vtnet.UnitTests.Rooms.{
  rooms, allow_all_permissions, deny_all_permissions, ada_uid, ada, new_ada, Unwraps, joins,
}

abbrev lin_uid : UserUid
lin_uid = from_bytes (replicate 32 2)

abbrev lin : Text
lin = b'L' ∷ b'i' ∷ b'n' ∷ []

abbrev hello : Text
hello = b'H' ∷ b'e' ∷ b'l' ∷ b'l' ∷ b'o' ∷ []

-- `RoomTextContent::new("Hello".to_owned()).unwrap()`
abbrev IsHello : RoomTextContent → Type 0
IsHello content = Content.new hello ≡ ok content

module _ {Uuid : Type 0} ⦃e : Eq Uuid⦄ where
  -- Ada and Lin in one room: the registry, Ada's session, and that both joins succeed.
  abbrev both_join : Uuid → RoomRegistry Uuid × Session Uuid × Type 0
  both_join room_id =
      let (registry, sender, first) = joins (default, new_ada) room_id in
      let (registry', recipient, second) = joins (registry, new lin_uid lin) room_id in
      (registry', sender, Unwraps first × Unwraps second)

module _ {Uuid : Type 0} (Json : Type 0) ⦃e : Eq Uuid⦄ where
  abbrev TextMessagesUseTrustedSenderDataAndReachOtherRoomMembers : Uuid → RoomTextContent → Type 0
  TextMessagesUseTrustedSenderDataAndReachOtherRoomMembers room_id content =
      let (registry, sender, joined_both) = both_join room_id in
      joined_both
      × (route_client_room_message {Json = Json} registry sender
            (ClientMessage.send_text_message room_id content) 42 allow_all_permissions
          ≡ ok (record {
            recipients = lin_uid ∷ [];
            message = ServerMessage.broadcast_text_message room_id ada_uid ada content 42;
          }))

  abbrev MessagesForARoomOtherThanTheActiveRoomAreRejected : Uuid → Uuid → RoomTextContent → Type 0
  MessagesForARoomOtherThanTheActiveRoomAreRejected room_id other_room_id content =
      let (registry, session, first) = joins (default, new_ada) room_id in
      Unwraps first
      × (route_client_room_message {Json = Json} registry session
            (ClientMessage.send_text_message other_room_id content) 42 allow_all_permissions
          ≡ err sender_not_in_active_voice_room)

  abbrev SdpMessagesAreForwardedOnlyToMembersOfTheActiveRoom : Uuid → Text → Type 0
  SdpMessagesAreForwardedOnlyToMembersOfTheActiveRoom room_id sdp_raw =
      let (registry, sender, joined_both) = both_join room_id in
      joined_both
      × (route_client_room_message {Json = Json} registry sender
            (ClientMessage.send_web_rtc_sdp room_id lin_uid offer sdp_raw) 42 allow_all_permissions
          ≡ ok (record {
            recipients = lin_uid ∷ [];
            message = ServerMessage.forward_web_rtc_sdp room_id ada_uid offer sdp_raw;
          }))

  abbrev IceMessagesRejectTargetsOutsideTheActiveRoom : Uuid → Json → Type 0
  IceMessagesRejectTargetsOutsideTheActiveRoom room_id candidate =
      let (registry, sender, first) = joins (default, new_ada) room_id in
      Unwraps first
      × (route_client_room_message {Json = Json} registry sender
            (ClientMessage.send_web_rtc_ice room_id lin_uid candidate) 42 allow_all_permissions
          ≡ err target_not_in_active_voice_room)

  abbrev RoutingRequiresSufficientPowerForTheMessageAction : Uuid → RoomTextContent → Type 0
  RoutingRequiresSufficientPowerForTheMessageAction room_id content =
      let (registry, session, first) = joins (default, new_ada) room_id in
      Unwraps first
      × (route_client_room_message {Json = Json} registry session
            (ClientMessage.send_text_message room_id content) 42 deny_all_permissions
          ≡ err (permission_denied write))

  record RoutingTests (room_id other_room_id : Uuid) (candidate : Json) (sdp_raw : Text)
      : Type 0 where
    content : RoomTextContent
    hello_content : IsHello content
    reach : TextMessagesUseTrustedSenderDataAndReachOtherRoomMembers room_id content
    elsewhere : MessagesForARoomOtherThanTheActiveRoomAreRejected room_id other_room_id content
    sdp : SdpMessagesAreForwardedOnlyToMembersOfTheActiveRoom room_id sdp_raw
    ice : IceMessagesRejectTargetsOutsideTheActiveRoom room_id candidate
    power : RoutingRequiresSufficientPowerForTheMessageAction room_id content

  -- The five tests of message routing pass for any two distinct room ids, any candidate and any
  -- description.
  all-RoutingTests :
      (r q : Uuid) (candidate : Json) (sdp_raw : Text) → r ≢ q → RoutingTests r q candidate sdp_raw
  unfolding rooms ensure_active_member ensure_permission ensure_target_member other_members
      route_client_room_message Content.new len len_utf8 trim is_whitespace
  all-RoutingTests r q candidate sdp_raw differ = record {
    content = record { value = hello };
    hello_content = refl;
    reach = (((joined r, refl), (joined r, refl)), ground arith);
    elsewhere = ((joined r, refl), ground arith);
    sdp = (((joined r, refl), (joined r, refl)), ground arith);
    ice = ((joined r, refl), ground arith);
    power = ((joined r, refl), ground arith);
  }

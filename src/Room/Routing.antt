-- ===== src/Room/Routing.antt =====
-- `RoomRegistry::route_client_room_message` of server/src/lib.rs: to whom a room message goes, with
-- what the server adds to it.
pub mod Laws
pub mod Delivery
use vtnet.Base.{ℕ, Eq, Bool, ◌&&◌, List, [], ◌∷◌, Result, ok, err, ◌>>◌, if◌then◌else◌}
use vtnet.Collections.Set
use vtnet.Shared.Uid.{UserUid, uid_eq}
use vtnet.Shared.Messages.{ClientMessage, ServerMessage}
use vtnet.Room.Session.{Session, is_active_in}
use vtnet.Room.Permission.{PermissionEvaluator, RoomAction, is_allowed, write, signal}
use vtnet.Room.Registry.{RoomRegistry, members, is_member, or_default}

pub record RoutedServerMessage (Uuid Json : Type 0) : Type 0 where
  pub recipients : List UserUid
  pub message : ServerMessage Uuid Json

pub data RoomRoutingError : Type 0 where
  permission_denied : RoomAction → RoomRoutingError
  sender_not_in_active_voice_room target_not_in_active_voice_room : RoomRoutingError
  unsupported_client_message : RoomRoutingError

-- `if test { Ok(()) } else { Err(error) }`
abbrev pub ensure : Bool → RoomRoutingError → Result (Unit {0}) RoomRoutingError
ensure test error = if test then ok tt else err error

module _ {Uuid : Type 0} ⦃e : Eq Uuid⦄ where
  unfoldable pub ensure_active_member :
      RoomRegistry Uuid → Session Uuid → Uuid → Result (Unit {0}) RoomRoutingError
  ensure_active_member rooms session room_id =
      ensure
        (is_active_in session.active_voice_room_id room_id
          && is_member rooms room_id session.user_uid)
        sender_not_in_active_voice_room

  unfoldable pub ensure_target_member :
      RoomRegistry Uuid → Uuid → UserUid → Result (Unit {0}) RoomRoutingError
  ensure_target_member rooms room_id target_uid =
      ensure (is_member rooms room_id target_uid) target_not_in_active_voice_room

  unfoldable pub ensure_permission :
      PermissionEvaluator Uuid → UserUid → Uuid → RoomAction → Result (Unit {0}) RoomRoutingError
  ensure_permission permission_evaluator user_uid room_id action =
      ensure (is_allowed permission_evaluator user_uid room_id action) (permission_denied action)

  unfoldable pub other_members : RoomRegistry Uuid → Uuid → UserUid → List UserUid
  other_members rooms room_id user_uid = Set.without user_uid (or_default (members rooms room_id))

  module _ {Json : Type 0} where
    unfoldable pub route_client_room_message :
        RoomRegistry Uuid
        → Session Uuid
        → ClientMessage Uuid Json
        → ℕ
        → PermissionEvaluator Uuid
        → Result (RoutedServerMessage Uuid Json) RoomRoutingError
    unfolding ensure_active_member ensure_target_member ensure_permission
    route_client_room_message rooms s (ClientMessage.send_text_message room_id content) time p = do
      ensure_active_member rooms s room_id
      ensure_permission p s.user_uid room_id write
      ok (record {
        recipients = other_members rooms room_id s.user_uid;
        message =
            ServerMessage.broadcast_text_message room_id s.user_uid s.display_name content time;
      })
    route_client_room_message rooms s (ClientMessage.send_web_rtc_sdp room_id target kind raw) _ p =
        do
          ensure_active_member rooms s room_id
          ensure_permission p s.user_uid room_id signal
          ensure_target_member rooms room_id target
          ok (record {
            recipients = target ∷ [];
            message = ServerMessage.forward_web_rtc_sdp room_id s.user_uid kind raw;
          })
    route_client_room_message rooms s (ClientMessage.send_web_rtc_ice room_id target candidate) _
          p =
        do
          ensure_active_member rooms s room_id
          ensure_permission p s.user_uid room_id signal
          ensure_target_member rooms room_id target
          ok (record {
            recipients = target ∷ [];
            message = ServerMessage.forward_web_rtc_ice room_id s.user_uid candidate;
          })
    route_client_room_message _ _ _ _ _ = err unsupported_client_message

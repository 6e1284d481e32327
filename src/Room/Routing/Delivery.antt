-- ===== src/Room/Routing/Delivery.antt =====
-- Which room messages are refused and why, and whom the others reach.
use vtnet.Base.{
  ℕ, Eq, ◌≡◌, ◌↔◌, ◌≢◌, Bool, true, not, Option, none, some, ok, err, arith, if◌then◌else◌,
}
use vtnet.Collections.Set
use vtnet.Shared.Uid.{UserUid, uid_eq}
use vtnet.Shared.Messages.{ClientMessage}
use vtnet.Room.Session.{Session}
use vtnet.Room.Permission.{PermissionEvaluator, RoomAction, is_allowed, write, signal}
use vtnet.Room.Registry.{RoomRegistry, is_member}
use vtnet.Room.Routing.{
  RoutedServerMessage, RoomRoutingError, permission_denied, sender_not_in_active_voice_room,
  target_not_in_active_voice_room, unsupported_client_message, route_client_room_message,
}
use vtnet.Room.Routing.Laws.{is_present, contains-other_members}

-- What a message asks of a room: the room, the power that it takes, and the peer it is for.
pub record Request (Uuid : Type 0) : Type 0 where
  pub room : Uuid
  pub action : RoomAction
  pub target : Option UserUid

abbrev pub request : {Uuid Json : Type 0} → ClientMessage Uuid Json → Option (Request Uuid)
request (ClientMessage.send_text_message r content) =
    some (record { room = r; action = write; target = none })
request (ClientMessage.send_web_rtc_sdp r target kind raw) =
    some (record { room = r; action = signal; target = some target })
request (ClientMessage.send_web_rtc_ice r target candidate) =
    some (record { room = r; action = signal; target = some target })
request _ = none

module _ {Uuid : Type 0} ⦃e : Eq Uuid⦄ where
  abbrev pub is_reachable : RoomRegistry Uuid → Uuid → Option UserUid → Bool
  is_reachable rooms r none = true
  is_reachable rooms r (some target) = is_member rooms r target

  -- The first thing that is wrong with a request.
  abbrev pub refusal :
      RoomRegistry Uuid
      → Session Uuid
      → PermissionEvaluator Uuid
      → Option (Request Uuid)
      → Option RoomRoutingError
  refusal rooms s p none = some unsupported_client_message
  refusal rooms s p (some q) =
      if not (is_present rooms s q.room)
      then some sender_not_in_active_voice_room
      else if not (is_allowed p s.user_uid q.room q.action)
      then some (permission_denied q.action)
      else if not (is_reachable rooms q.room q.target)
      then some target_not_in_active_voice_room
      else none

  -- Whom a request is for: of a text, all other members of the room; of a signal, its target.
  abbrev pub Reaches : RoomRegistry Uuid → UserUid → Option (Request Uuid) → UserUid → Type 0
  Reaches rooms sender none v = ⊥
  Reaches rooms sender (some q) v = elim q.target [
    | none ↦ (is_member rooms q.room v ≡ true) × (v ≢ sender)
    | some target ↦ v ≡ target
  ]

  module _ {Json : Type 0} (rooms : RoomRegistry Uuid) (s : Session Uuid)
      (p : PermissionEvaluator Uuid) (time : ℕ) where
    -- A message fails with the first thing that is wrong with its request, and only then.
    pub route-refusal :
        (m : ClientMessage Uuid Json) (x : RoomRoutingError)
        → (route_client_room_message rooms s m time p ≡ err x)
          ↔ (refusal rooms s p (request m) ≡ some x)
    unfolding route_client_room_message
    route-refusal (ClientMessage.send_text_message r content) x = ground arith
    route-refusal (ClientMessage.send_web_rtc_sdp r target kind raw) x = ground arith
    route-refusal (ClientMessage.send_web_rtc_ice r target candidate) x = ground arith
    route-refusal _ x = ground arith

    -- A routed message has exactly the recipients that its request is for.
    pub route-Reaches :
        (m : ClientMessage Uuid Json) {routed : RoutedServerMessage Uuid Json}
        → route_client_room_message rooms s m time p ≡ ok routed
        → (v : UserUid)
        → (Set.contains v routed.recipients ≡ true) ↔ Reaches rooms s.user_uid (request m) v
    unfolding route_client_room_message Set.contains
    route-Reaches (ClientMessage.send_text_message r content) eq v =
        ground (arith, contains-other_members rooms r s.user_uid v)
    route-Reaches (ClientMessage.send_web_rtc_sdp r target kind raw) eq v = ground arith
    route-Reaches (ClientMessage.send_web_rtc_ice r target candidate) eq v = ground arith
    route-Reaches _ eq v = cc

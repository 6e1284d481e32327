-- ===== src/Tests/Rooms.antt =====
-- The registry and the routing of room messages, at concrete inputs.
use vtnet.Base.{ℕ, nat_eq, ◌≡◌, ◌↔◌, refl, true, none, some, [], ◌∷◌, ok, err}
use vtnet.Collections.Set
use vtnet.Shared.Uid.{uid_eq}
use vtnet.Shared.Messages.{ClientMessage, ServerMessage, answer}
use vtnet.Room.Session.{Session}
use vtnet.Room.Permission.{PermissionEvaluator, RoomAction, is_allowed, join, signal}
use vtnet.Room.Registry.{
  RoomRegistry, VoiceRoomTransition, default, join_voice_room, leave_voice_room, add_member,
}
use vtnet.Room.Registry.Membership.{IsRegistry, add_member-IsRegistry}
use vtnet.Room.Registry.Presence.{
  Presence, Refines, Simulates, place, spec_join, spec_leave, default-Refines,
  join_voice_room-Simulates, leave_voice_room-Simulates,
}
use vtnet.Room.Routing.{RoutedServerMessage, RoomRoutingError, route_client_room_message}
use vtnet.Room.Routing.Laws.{IsRouted, route-IsRouted}
use vtnet.Room.Routing.Delivery.{Reaches, refusal, request, route-refusal, route-Reaches}
use vtnet.Tests.Server.{server, alice, bob}

-- Everyone may do anything but signal.
abbrev power : RoomAction → ℕ
power signal = 2
power _ = 0

abbrev no_signals : PermissionEvaluator ℕ
no_signals = record {
  effective_power = λ user_uid action. 1;
  required_power = λ room_id action. power action;
}

abbrev guest : Session ℕ
guest = record { user_uid = alice; display_name = b'A' ∷ []; active_voice_room_id = none }

abbrev alice_in_7 : RoomRegistry ℕ
alice_in_7 = record { members_by_room = (7, alice ∷ []) ∷ [] }

abbrev in_7 : Session ℕ
in_7 = record guest { active_voice_room_id = some 7 }

abbrev nobody : Presence ℕ
nobody = λ v. none

-- Alice joins room 7.
join_voice_room-Simulates_example :
    Simulates guest
      (join_voice_room default guest 7 no_signals)
      (spec_join (is_allowed no_signals alice 7 join) nobody alice 7)
join_voice_room-Simulates_example =
    join_voice_room-Simulates default guest 7 no_signals nobody default-Refines refl

join_7 :
    join_voice_room default guest 7 no_signals
    ≡ (alice_in_7, in_7, ok (VoiceRoomTransition.joined 7))
unfolding server
join_7 = refl

abbrev alice_placed : Presence ℕ
alice_placed = place nobody alice (some 7)

alice_placed-Refines : Refines alice_in_7 alice_placed
unfolding server
alice_placed-Refines =
    (join_voice_room-Simulates default guest 7 no_signals nobody default-Refines refl).refines

-- She leaves it.
leave_voice_room-Simulates_example :
    Simulates in_7 (leave_voice_room alice_in_7 in_7 7) (spec_leave alice_placed alice 7)
unfolding server
leave_voice_room-Simulates_example =
    leave_voice_room-Simulates alice_in_7 in_7 7 alice_placed alice_placed-Refines refl

-- Bob is there too.
abbrev both_in_7 : RoomRegistry ℕ
both_in_7 = add_member alice_in_7 7 bob

both_in_7-IsRegistry : IsRegistry both_in_7
both_in_7-IsRegistry = add_member-IsRegistry alice_in_7 7 bob alice_placed-Refines.registry

abbrev hello : ClientMessage ℕ ℕ
hello = ClientMessage.send_text_message 7 (record { value = b'h' ∷ b'i' ∷ [] })

abbrev routed_hello : RoutedServerMessage ℕ ℕ
routed_hello = record {
  recipients = bob ∷ [];
  message =
      ServerMessage.broadcast_text_message 7 alice (b'A' ∷ []) (record { value = b'h' ∷ b'i' ∷ [] })
        5_000;
}

route_hello : route_client_room_message both_in_7 in_7 hello 5_000 no_signals ≡ ok routed_hello
unfolding server
route_hello = refl

route-IsRouted_example : IsRouted both_in_7 in_7 routed_hello
route-IsRouted_example =
    route-IsRouted both_in_7 in_7 hello 5_000 no_signals {routed = routed_hello}
      both_in_7-IsRegistry route_hello

route-Reaches_example :
    (Set.contains bob routed_hello.recipients ≡ true) ↔ Reaches both_in_7 alice (request hello) bob
route-Reaches_example =
    route-Reaches both_in_7 in_7 no_signals 5_000 hello {routed = routed_hello} route_hello bob

abbrev description : ClientMessage ℕ ℕ
description = ClientMessage.send_web_rtc_sdp 7 bob answer []

description_refused :
    route_client_room_message both_in_7 in_7 description 5_000 no_signals
    ≡ err (RoomRoutingError.permission_denied signal)
unfolding server
description_refused = refl

route-refusal_example :
    (route_client_room_message both_in_7 in_7 description 5_000 no_signals
      ≡ err (RoomRoutingError.permission_denied signal))
    ↔ (refusal both_in_7 in_7 no_signals (request description)
        ≡ some (RoomRoutingError.permission_denied signal))
route-refusal_example =
    route-refusal both_in_7 in_7 no_signals 5_000 description
      (RoomRoutingError.permission_denied signal)

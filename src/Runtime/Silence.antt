-- ===== src/Runtime/Silence.antt =====
-- A channel whose sender is not in the table of connections: the handlers of server/src/main.rs put
-- nothing on it.
use vtnet.Base.{
  ℕ, Eq, nat_eq, ◌≡◌, ◌≢◌, refl, Option, none, some, List, [], ◌∷◌, ◌++◌, arith, Result, ok, err,
  Option-cases, inl, inr,
}
use vtnet.Collections.Map
use vtnet.Collections.Map.{HashMap}
use vtnet.Shared.Uid.{UserUid, uid_eq}
use vtnet.Shared.Messages.{
  ClientMessage, ServerMessage, peer_left_room, voice_room_joined, peer_joined_room,
  voice_room_left,
}
use vtnet.Room.Session.{Session}
use vtnet.Room.Registry.{
  VoiceRoomTransition, RoomJoinError, join_voice_room, leave_voice_room, switched, joined, left,
}
use vtnet.Room.Routing.{RoutedServerMessage, RoomRoutingError, route_client_room_message}
use vtnet.Runtime.{
  ServerState, Sent, send_to, send_to_users, peers, active_peers, after_join, after_leave,
  after_route, after_disconnect, leave_active, handle_authenticated_message, allow_all_permissions,
}
use vtnet.Runtime.Channels.{on, on-append}

-- No user's sender is the channel.
abbrev pub IsUnlisted : ℕ → HashMap UserUid ℕ → Type 0
IsUnlisted j connections = (u : UserUid) → Map.get u connections ≢ some j

module _ {Uuid Json : Type 0} ⦃e : Eq Uuid⦄ (j : ℕ) (state : ServerState Uuid)
    (unlisted : IsUnlisted j state.connections) where
  send_to-silent :
      (u : UserUid) (message : ServerMessage Uuid Json) → on j (send_to state u message) ≡ []
  unfolding on send_to
  send_to-silent u message = elim (Option-cases (Map.get u state.connections)) [
    | inl absent ↦ ground arith
    | inr (i, found) ↦ ground (arith, unlisted u)
  ]

  send_to_users-silent :
      (us : List UserUid) (message : ServerMessage Uuid Json)
      → on j (send_to_users state us message) ≡ []
  unfolding on send_to_users
  send_to_users-silent [] message = refl
  send_to_users-silent (u ∷ us) message = ground (
    arith,
    on-append j (send_to state u message) (send_to_users state us message),
    send_to-silent u message,
    send_to_users-silent us message,
  )

  -- Two silent parts.
  append-silent : (xs ys : Sent Uuid Json) → on j xs ≡ [] → on j ys ≡ [] → on j (xs ++ ys) ≡ []
  append-silent xs ys p q = ground (arith, on-append j xs ys)

  after_join-silent :
      (s : Session Uuid) (r : Uuid) (leaving joining : List UserUid)
      (result : Result (VoiceRoomTransition Uuid) RoomJoinError)
      → on j (after_join {Json = Json} state s r leaving joining result) ≡ []
  unfolding after_join on
  after_join-silent s r leaving joining (ok (switched q p)) =
      append-silent _ _ (send_to_users-silent leaving (peer_left_room q s.user_uid)) (
        append-silent _ _ (send_to-silent s.user_uid (voice_room_joined r))
          (send_to_users-silent joining (peer_joined_room r s.user_uid s.display_name)))
  after_join-silent s r leaving joining (ok (joined p)) =
      append-silent _ _ (send_to-silent s.user_uid (voice_room_joined r))
        (send_to_users-silent joining (peer_joined_room r s.user_uid s.display_name))
  after_join-silent s r leaving joining result = refl

  after_leave-silent :
      (s : Session Uuid) (r : Uuid) (us : List UserUid) (transition : VoiceRoomTransition Uuid)
      → on j (after_leave {Json = Json} state s r us transition) ≡ []
  unfolding after_leave on
  after_leave-silent s r us (left p) =
      append-silent _ _ (send_to-silent s.user_uid (voice_room_left r))
        (send_to_users-silent us (peer_left_room r s.user_uid))
  after_leave-silent s r us transition = refl

  after_route-silent :
      (result : Result (RoutedServerMessage Uuid Json) RoomRoutingError)
      → on j (after_route state result) ≡ []
  unfolding after_route on
  after_route-silent (ok routed) = send_to_users-silent routed.recipients routed.message
  after_route-silent (err _) = refl

  after_disconnect-silent :
      (s : Session Uuid) (r : Uuid) (us : List UserUid) (transition : VoiceRoomTransition Uuid)
      → on j (after_disconnect {Json = Json} state s r us transition) ≡ []
  unfolding after_disconnect on
  after_disconnect-silent s r us (left p) = send_to_users-silent us (peer_left_room r s.user_uid)
  after_disconnect-silent s r us transition = refl

module _ {Uuid : Type 0} ⦃e : Eq Uuid⦄ (Json : Type 0) (j : ℕ) (state : ServerState Uuid)
    (unlisted : IsUnlisted j state.connections) where
  pub handle_authenticated_message-silent :
      (s : Session Uuid) (m : ClientMessage Uuid Json) (time : ℕ)
      → on j (handle_authenticated_message state s m time).2 ≡ []
  unfolding handle_authenticated_message
  handle_authenticated_message-silent s (ClientMessage.join_voice_room r) time =
      let out = join_voice_room state.rooms s r allow_all_permissions in
      after_join-silent j (record state { rooms = out.0 }) unlisted out.1 r
        (active_peers state.rooms s s.active_voice_room_id) (peers state.rooms r s.user_uid) out.2
  handle_authenticated_message-silent s (ClientMessage.leave_voice_room r) time =
      let out = leave_voice_room state.rooms s r in
      after_leave-silent j (record state { rooms = out.0 }) unlisted out.1 r
        (peers state.rooms r s.user_uid) out.2
  handle_authenticated_message-silent s m time =
      after_route-silent j state unlisted
        (route_client_room_message state.rooms s m time allow_all_permissions)

  pub leave_active-silent :
      (s : Session Uuid) (o : Option Uuid) → on j (leave_active {Json = Json} state s o).1 ≡ []
  unfolding leave_active on
  leave_active-silent s none = refl
  leave_active-silent s (some r) =
      let out = leave_voice_room state.rooms s r in
      after_disconnect-silent j (record state { rooms = out.0 }) unlisted s r
        (peers state.rooms r s.user_uid) out.2

-- ===== src/Runtime.antt =====
-- server/src/main.rs: the state that all connections share, and what one locked section does to it.
-- A sender of a channel is the number of its connection. A handler returns, in order, the messages
-- that it puts on channels; the code ignores whether a channel still has its reader.
pub mod Connection
pub mod System
pub mod Handlers
pub mod Clock
pub mod Identity
pub mod Channels
pub mod Silence
pub mod Spec
pub mod Refinement
pub mod Network
pub mod Delivery
pub mod Announcements
pub mod Confirmation
pub mod Told
pub mod Table
pub mod Invariant
pub mod Safety
pub mod Residue
pub mod Login
pub mod Validity
use vtnet.Base.{ℕ, Eq, Option, none, some, List, [], ◌∷◌, ◌++◌, Result, ok, err}
use vtnet.Collections.Set
use vtnet.Collections.Map
use vtnet.Collections.Map.{HashMap}
use vtnet.Shared.Uid.{UserUid, uid_eq}
use vtnet.Shared.Messages.{
  ClientMessage, ServerMessage, voice_room_joined, voice_room_left, peer_joined_room,
  peer_left_room,
}
use vtnet.Room.Session.{Session}
use vtnet.Room.Permission.{PermissionEvaluator}
use vtnet.Room.Registry.{
  RoomRegistry, RoomJoinError, VoiceRoomTransition, joined, switched, left, default, members,
  or_default, join_voice_room, leave_voice_room,
}
use vtnet.Room.Routing.{RoutedServerMessage, RoomRoutingError, route_client_room_message}

-- `AllowAllPermissions`
abbrev pub allow_all_permissions : {Uuid : Type 0} → PermissionEvaluator Uuid
allow_all_permissions = record {
  effective_power = λ user_uid action. 1;
  required_power = λ room_id action. 0;
}

pub record ServerState (Uuid : Type 0) : Type 0 where
  pub rooms : RoomRegistry Uuid
  pub connections : HashMap UserUid ℕ

-- `ServerState::default`
abbrev pub default_state : {Uuid : Type 0} → ServerState Uuid
default_state = record { rooms = default; connections = [] }

-- What is put on which channel.
abbrev pub Sent : Type 0 → Type 0 → Type 0
Sent Uuid Json = List (ℕ × ServerMessage Uuid Json)

module _ {Uuid Json : Type 0} where
  -- `state.connections.get(&uid).map(|sender| sender.send(message))`
  unfoldable pub send_to : ServerState Uuid → UserUid → ServerMessage Uuid Json → Sent Uuid Json
  send_to state recipient message = elim (Map.get recipient state.connections) [
    | none ↦ []
    | some sender ↦ (sender, message) ∷ []
  ]

  unfoldable pub send_to_users :
      ServerState Uuid → List UserUid → ServerMessage Uuid Json → Sent Uuid Json
  send_to_users state [] message = []
  send_to_users state (recipient ∷ rest) message =
      send_to state recipient message ++ send_to_users state rest message

module _ {Uuid : Type 0} ⦃e : Eq Uuid⦄ where
  -- `.members(room_id).into_iter().flatten().copied().filter(|user_uid| *user_uid != ..)`
  unfoldable pub peers : RoomRegistry Uuid → Uuid → UserUid → List UserUid
  peers rooms room_id user_uid = Set.without user_uid (or_default (members rooms room_id))

  -- `session.active_voice_room_id().map(..).unwrap_or_default()`
  unfoldable pub active_peers : RoomRegistry Uuid → Session Uuid → Option Uuid → List UserUid
  active_peers rooms session none = []
  active_peers rooms session (some room_id) = peers rooms room_id session.user_uid

  module _ {Json : Type 0} where
    -- The messages after a join, given who was in the rooms before.
    unfoldable pub after_join :
        ServerState Uuid
        → Session Uuid
        → Uuid
        → List UserUid
        → List UserUid
        → Result (VoiceRoomTransition Uuid) RoomJoinError
        → Sent Uuid Json
    after_join state session room_id leaving joining (ok (switched from_room_id _)) =
        send_to_users state leaving (peer_left_room from_room_id session.user_uid)
        ++ (send_to state session.user_uid (voice_room_joined room_id)
            ++ send_to_users state joining
                (peer_joined_room room_id session.user_uid session.display_name))
    after_join state session room_id leaving joining (ok (joined _)) =
        send_to state session.user_uid (voice_room_joined room_id)
        ++ send_to_users state joining
            (peer_joined_room room_id session.user_uid session.display_name)
    after_join _ _ _ _ _ _ = []

    -- The messages after a leave.
    unfoldable pub after_leave :
        ServerState Uuid
        → Session Uuid
        → Uuid
        → List UserUid
        → VoiceRoomTransition Uuid
        → Sent Uuid Json
    after_leave state session room_id recipients (left _) =
        send_to state session.user_uid (voice_room_left room_id)
        ++ send_to_users state recipients (peer_left_room room_id session.user_uid)
    after_leave _ _ _ _ _ = []

    unfoldable pub after_route :
        ServerState Uuid → Result (RoutedServerMessage Uuid Json) RoomRoutingError → Sent Uuid Json
    after_route state (ok routed) = send_to_users state routed.recipients routed.message
    after_route state (err _) = []

    unfoldable pub handle_authenticated_message :
        ServerState Uuid
        → Session Uuid
        → ClientMessage Uuid Json
        → ℕ
        → ServerState Uuid × Session Uuid × Sent Uuid Json
    unfolding after_join after_leave after_route
    handle_authenticated_message state session (ClientMessage.join_voice_room room_id) _ =
        let leaving = active_peers state.rooms session session.active_voice_room_id in
        let joining = peers state.rooms room_id session.user_uid in
        let (rooms, session', transition) =
          join_voice_room state.rooms session room_id allow_all_permissions in
        let state' = record state { rooms = rooms } in
        (state', session', after_join state' session' room_id leaving joining transition)
    handle_authenticated_message state session (ClientMessage.leave_voice_room room_id) _ =
        let recipients = peers state.rooms room_id session.user_uid in
        let (rooms, session', transition) = leave_voice_room state.rooms session room_id in
        let state' = record state { rooms = rooms } in
        (state', session', after_leave state' session' room_id recipients transition)
    handle_authenticated_message state session message server_timestamp = (
      state,
      session,
      after_route state (
          route_client_room_message state.rooms session message server_timestamp
            allow_all_permissions),
    )

    -- The messages of a disconnect: the user's own channel is gone from the table.
    unfoldable pub after_disconnect :
        ServerState Uuid
        → Session Uuid
        → Uuid
        → List UserUid
        → VoiceRoomTransition Uuid
        → Sent Uuid Json
    after_disconnect state session room_id recipients (left _) =
        send_to_users state recipients (peer_left_room room_id session.user_uid)
    after_disconnect _ _ _ _ _ = []

    unfoldable pub leave_active :
        ServerState Uuid → Session Uuid → Option Uuid → ServerState Uuid × Sent Uuid Json
    leave_active state session none = (state, [])
    leave_active state session (some room_id) =
        let recipients = peers state.rooms room_id session.user_uid in
        let (rooms, _, transition) = leave_voice_room state.rooms session room_id in
        let state' = record state { rooms = rooms } in
        (state', after_disconnect state' session room_id recipients transition)

    unfoldable pub disconnect_session :
        ServerState Uuid → Session Uuid → ServerState Uuid × Sent Uuid Json
    unfolding leave_active after_disconnect
    disconnect_session state session =
        leave_active (record state { connections = Map.remove session.user_uid state.connections })
          session session.active_voice_room_id

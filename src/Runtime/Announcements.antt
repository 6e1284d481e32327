-- ===== src/Runtime/Announcements.antt =====
-- What the other connections are told when a user joins or leaves a room, by the handlers of
-- server/src/main.rs.
use vtnet.Base.{
  ℕ, Eq, nat_eq, ◌≡◌, ◌≢◌, ◌&&◌, none, some, [], ◌∷◌, ◌++◌, arith, if◌then◌else◌, Option-cases, inl,
  inr, ok,
}
use vtnet.Shared.Uid.{uid_eq}
use vtnet.Shared.Messages.{
  ClientMessage, ServerMessage, voice_room_joined, voice_room_left, peer_joined_room,
  peer_left_room,
}
use vtnet.Room.Session.{Session, is_active_in}
use vtnet.Room.Permission.{is_allowed}
use vtnet.Room.Registry.{
  RoomRegistry, join_voice_room, leave_voice_room, joined, switched, left, add_member,
  remove_member,
}
use vtnet.Runtime.{
  ServerState, send_to, send_to_users, peers, active_peers, after_join, after_leave,
  handle_authenticated_message,
}
use vtnet.Runtime.Spec.{spec_left}
use vtnet.Runtime.Table.{Sessions, IsTable}
use vtnet.Runtime.Channels.{on, on-append, on-send_to, on-peers, users_differ}

module _ {Uuid : Type 0} ⦃e : Eq Uuid⦄ {state : ServerState Uuid} {sess : Sessions Uuid}
    (h : IsTable state sess) where
  module _ (rooms' : RoomRegistry Uuid) {Json : Type 0} (i j : ℕ) (s t : Session Uuid)
      (has_s : sess i ≡ some s) (has_t : sess j ≡ some t) (differ : j ≢ i) where
    -- What another connection is told of a join: that the user left its room, or entered it.
    on-joined :
        (r : Uuid)
        → on j (
            after_join {Json = Json}
              (record state { rooms = rooms' })
              (record s { active_voice_room_id = some r })
              r
              []
              (peers state.rooms r s.user_uid)
              (ok (joined r)))
          ≡ (if is_active_in t.active_voice_room_id r
              then peer_joined_room r s.user_uid s.display_name ∷ []
              else [])
    unfolding after_join
    on-joined r = ground (
      arith,
      users_differ h i j s t has_s has_t differ,
      on-append j
          (send_to {Json = Json} (record state { rooms = rooms' }) s.user_uid (voice_room_joined r))
          (send_to_users (record state { rooms = rooms' }) (peers state.rooms r s.user_uid)
            (peer_joined_room r s.user_uid s.display_name)),
      on-send_to h rooms' {Json = Json} (voice_room_joined r) j t s.user_uid has_t,
      on-peers h rooms' {Json = Json} (peer_joined_room r s.user_uid s.display_name) r s.user_uid j
          t has_t,
    )

    on-switched :
        (q r : Uuid)
        → on j (
            after_join {Json = Json}
              (record state { rooms = rooms' })
              (record s { active_voice_room_id = some r })
              r
              (peers state.rooms q s.user_uid)
              (peers state.rooms r s.user_uid)
              (ok (switched q r)))
          ≡ (if is_active_in t.active_voice_room_id q then peer_left_room q s.user_uid ∷ [] else [])
            ++ (if is_active_in t.active_voice_room_id r
                then peer_joined_room r s.user_uid s.display_name ∷ []
                else [])
    unfolding after_join
    on-switched q r =
        let state' : ServerState Uuid = record state { rooms = rooms' } in
        let leave : ServerMessage Uuid Json = peer_left_room q s.user_uid in
        let own : ServerMessage Uuid Json = voice_room_joined r in
        let enter : ServerMessage Uuid Json = peer_joined_room r s.user_uid s.display_name in
        ground (
          arith,
          users_differ h i j s t has_s has_t differ,
          on-append j (send_to_users state' (peers state.rooms q s.user_uid) leave) (
              send_to state' s.user_uid own
              ++ send_to_users state' (peers state.rooms r s.user_uid) enter),
          on-append j (send_to state' s.user_uid own)
              (send_to_users state' (peers state.rooms r s.user_uid) enter),
          on-send_to h rooms' own j t s.user_uid has_t,
          on-peers h rooms' enter r s.user_uid j t has_t,
          on-peers h rooms' leave q s.user_uid j t has_t,
        )

    on-left :
        (r : Uuid)
        → on j (
            after_leave {Json = Json}
              (record state { rooms = rooms' })
              (record s { active_voice_room_id = none })
              r
              (peers state.rooms r s.user_uid)
              (left r))
          ≡ (if is_active_in t.active_voice_room_id r then peer_left_room r s.user_uid ∷ [] else [])
    unfolding after_leave
    on-left r =
        let state' : ServerState Uuid = record state { rooms = rooms' } in
        let own : ServerMessage Uuid Json = voice_room_left r in
        let leave : ServerMessage Uuid Json = peer_left_room r s.user_uid in
        ground (
          arith,
          users_differ h i j s t has_s has_t differ,
          on-append j (send_to state' s.user_uid own)
              (send_to_users state' (peers state.rooms r s.user_uid) leave),
          on-send_to h rooms' own j t s.user_uid has_t,
          on-peers h rooms' leave r s.user_uid j t has_t,
        )

  -- While table, rooms and sessions agree, a join is announced to every other authenticated
  -- connection in the room that the user leaves and in the one that it enters, once each, and nowhere
  -- else; joining the room that one is in is silent.
  pub join_delivery :
      (Json : Type 0) (i j : ℕ) (s t : Session Uuid) (r : Uuid) (time : ℕ)
      → sess i ≡ some s
      → sess j ≡ some t
      → j ≢ i
      → on j
          (handle_authenticated_message {Json = Json} state s
            (ClientMessage.join_voice_room r)
            time).2
        ≡ (if is_active_in s.active_voice_room_id r
            then []
            else spec_left s.active_voice_room_id s t
              ++ (if is_active_in t.active_voice_room_id r
                  then peer_joined_room r s.user_uid s.display_name ∷ []
                  else []))
  unfolding handle_authenticated_message join_voice_room is_allowed active_peers on
  join_delivery Json i j s t r time has_s has_t differ =
      elim (Option-cases s.active_voice_room_id) [
        | inl outside ↦ ground (
          arith,
          on-joined (add_member state.rooms r s.user_uid) {Json = Json} i j s t has_s has_t differ
              r,
        )
        | inr (q, inside) ↦ ground (
          arith,
          on-switched (add_member (remove_member state.rooms q s.user_uid) r s.user_uid)
              {Json = Json} i j s t has_s has_t differ q r,
        )
      ]

  -- While table, rooms and sessions agree, a leave is announced to every other authenticated
  -- connection in the room, once, and nowhere else; a leave of a room that the user is not in is
  -- silent.
  pub leave_delivery :
      (Json : Type 0) (i j : ℕ) (s t : Session Uuid) (r : Uuid) (time : ℕ)
      → sess i ≡ some s
      → sess j ≡ some t
      → j ≢ i
      → on j
          (handle_authenticated_message {Json = Json} state s
            (ClientMessage.leave_voice_room r)
            time).2
        ≡ (if is_active_in s.active_voice_room_id r && is_active_in t.active_voice_room_id r
            then peer_left_room r s.user_uid ∷ []
            else [])
  unfolding handle_authenticated_message leave_voice_room on after_leave
  leave_delivery Json i j s t r time has_s has_t differ = ground (
    arith,
    on-left (remove_member state.rooms r s.user_uid) {Json = Json} i j s t has_s has_t differ r,
  )

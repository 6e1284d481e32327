-- ===== src/Runtime/Confirmation.antt =====
-- What a connection's own channel gets from the handlers of server/src/main.rs, and what a
-- disconnect tells the others.
use vtnet.Base.{
  ℕ, Eq, nat_eq, eq?, ◌≡◌, ◌≢◌, ◌∙◌, none, some, [], ◌∷◌, ◌++◌, arith, if◌then◌else◌, Option-cases,
  inl, inr, if_neg,
}
use vtnet.Shared.Uid.{uid_eq}
use vtnet.Shared.Messages.{
  ClientMessage, ServerMessage, voice_room_joined, voice_room_left, peer_joined_room,
  peer_left_room,
}
use vtnet.Room.Session.{Session, is_active_in}
use vtnet.Room.Permission.{is_allowed}
use vtnet.Room.Registry.{RoomRegistry, join_voice_room, leave_voice_room, add_member, remove_member}
use vtnet.Runtime.{
  ServerState, send_to, send_to_users, peers, active_peers, after_join, after_leave,
  handle_authenticated_message, disconnect_session,
}
use vtnet.Runtime.Table.{disconnect-IsTable, Sessions, IsTable}
use vtnet.Runtime.Spec.{spec_left}
use vtnet.Runtime.Channels.{
  on, on-append, on-send_to, on-peers, users_differ, on-send_to_users, contains-peers,
  peers-Distinct,
}

module _ {Uuid : Type 0} ⦃e : Eq Uuid⦄ {state : ServerState Uuid} {sess : Sessions Uuid}
    (h : IsTable state sess) where
  module _ (rooms' : RoomRegistry Uuid) {Json : Type 0} (i : ℕ) (s : Session Uuid)
      (has : sess i ≡ some s) where
    -- A confirmation to the user, with a message to the others of a room: the user gets the first.
    on_own :
        (r : Uuid) (own others : ServerMessage Uuid Json)
        → let state' : ServerState Uuid = record state { rooms = rooms' } in
          on i (
            send_to state' s.user_uid own
            ++ send_to_users state' (peers state.rooms r s.user_uid) others)
          ≡ own ∷ []
    on_own r own others =
        let state' : ServerState Uuid = record state { rooms = rooms' } in
        ground (
          arith,
          on-append i (send_to state' s.user_uid own)
              (send_to_users state' (peers state.rooms r s.user_uid) others),
          on-send_to h rooms' own i s s.user_uid has,
          on-peers h rooms' others r s.user_uid i s has,
        )

  -- While table, rooms and sessions agree, a user who joins a room is told so once on its own
  -- connection, and nothing else, unless the room is the user's own already.
  pub join_confirmed :
      (Json : Type 0) (i : ℕ) (s : Session Uuid) (r : Uuid) (time : ℕ)
      → sess i ≡ some s
      → on i
          (handle_authenticated_message {Json = Json} state s
            (ClientMessage.join_voice_room r)
            time).2
        ≡ (if is_active_in s.active_voice_room_id r then [] else voice_room_joined r ∷ [])
  unfolding handle_authenticated_message join_voice_room is_allowed active_peers on after_join
  join_confirmed Json i s r time has = elim (Option-cases s.active_voice_room_id) [
    | inl outside ↦ ground (
      arith,
      on_own (add_member state.rooms r s.user_uid) {Json = Json} i s has r (voice_room_joined r)
          (peer_joined_room r s.user_uid s.display_name),
    )
    | inr (q, inside) ↦
        let rooms' = add_member (remove_member state.rooms q s.user_uid) r s.user_uid in
        let state' : ServerState Uuid = record state { rooms = rooms' } in
        let own : ServerMessage Uuid Json = voice_room_joined r in
        let news : ServerMessage Uuid Json = peer_joined_room r s.user_uid s.display_name in
        let bye : ServerMessage Uuid Json = peer_left_room q s.user_uid in
        ground (
          arith,
          on_own rooms' i s has r own news,
          on-peers h rooms' bye q s.user_uid i s has,
          on-append i (send_to_users state' (peers state.rooms q s.user_uid) bye) (
              send_to state' s.user_uid own
              ++ send_to_users state' (peers state.rooms r s.user_uid) news),
        )
  ]

  -- While table, rooms and sessions agree, a user who leaves a room is told so once on its own
  -- connection, and nothing else, if it was the user's room.
  pub leave_confirmed :
      (Json : Type 0) (i : ℕ) (s : Session Uuid) (r : Uuid) (time : ℕ)
      → sess i ≡ some s
      → on i
          (handle_authenticated_message {Json = Json} state s
            (ClientMessage.leave_voice_room r)
            time).2
        ≡ (if is_active_in s.active_voice_room_id r then voice_room_left r ∷ [] else [])
  unfolding handle_authenticated_message leave_voice_room on after_leave
  leave_confirmed Json i s r time has = ground (
    arith,
    on_own (remove_member state.rooms r s.user_uid) {Json = Json} i s has r (voice_room_left r)
        (peer_left_room r s.user_uid),
  )

  -- While table, rooms and sessions agree, a disconnect is announced to every other authenticated
  -- connection in the room that the user was in, once, and to no other.
  pub disconnect_delivery :
      (Json : Type 0) (i j : ℕ) (s t : Session Uuid)
      → sess i ≡ some s
      → sess j ≡ some t
      → j ≢ i
      → on j (disconnect_session {Json = Json} state s).1 ≡ spec_left s.active_voice_room_id s t
  unfolding disconnect_session leave_voice_room on
  disconnect_delivery Json i j s t has_s has_t differ = elim (Option-cases s.active_voice_room_id) [
    | inl outside ↦ ground arith
    | inr (q, inside) ↦
        let table = disconnect-IsTable Json state sess i s h has_s in
        let out = disconnect_session {Json = Json} state s in
        let bye : ServerMessage Uuid Json = peer_left_room q s.user_uid in
        ground (
          arith,
          users_differ h i j s t has_s has_t differ,
          contains-peers h q s.user_uid j t has_t,
          on-send_to_users table out.0.rooms bye j t (peers state.rooms q s.user_uid)
              (if_neg (eq? j i) differ none (sess j) ∙ has_t) (peers-Distinct h q s.user_uid),
        )
  ]

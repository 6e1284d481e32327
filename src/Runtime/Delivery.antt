-- ===== src/Runtime/Delivery.antt =====
-- Who is told what by the handlers of server/src/main.rs, connection by connection, in every state
-- in which table, rooms and sessions agree.
use vtnet.Base.{ℕ, Eq, nat_eq, ◌==◌, ◌≡◌, ◌≢◌, ◌&&◌, some, [], ◌∷◌, arith, if◌then◌else◌}
use vtnet.Shared.Uid.{UserUid, uid_eq}
use vtnet.Shared.Content.{RoomTextContent}
use vtnet.Shared.Messages.{
  ClientMessage, ServerMessage, broadcast_text_message, forward_web_rtc_sdp, SdpType,
  forward_web_rtc_ice,
}
use vtnet.Room.Session.{Session, is_active_in}
use vtnet.Room.Permission.{is_allowed}
use vtnet.Room.Registry.{is_member}
use vtnet.Room.Routing.{route_client_room_message, other_members}
use vtnet.Runtime.{ServerState, send_to, send_to_users, peers, handle_authenticated_message}
use vtnet.Runtime.Table.{Sessions, IsTable}
use vtnet.Runtime.Channels.{on, on-append, on-send_to, on-peers, users_differ}
use vtnet.Text.{Text}

module _ {Uuid : Type 0} ⦃e : Eq Uuid⦄ {state : ServerState Uuid} {sess : Sessions Uuid}
    (h : IsTable state sess) where
  -- The registry has a session's user in a room exactly when the session is there.
  pub member_of_session :
      (i : ℕ) (s : Session Uuid) (r : Uuid)
      → sess i ≡ some s
      → is_member state.rooms r s.user_uid ≡ is_active_in s.active_voice_room_id r
  member_of_session i s r has = ground (arith, h.refines.agrees r s.user_uid, h.registered i s has)

  -- While table, rooms and sessions agree, a text reaches every other authenticated connection in the
  -- sender's room exactly once, under the sender's own uid and name, and no connection elsewhere; to
  -- a room that the sender is not in it reaches none.
  pub text_delivery :
      (Json : Type 0) (i j : ℕ) (s t : Session Uuid) (room : Uuid) (content : RoomTextContent)
      (time : ℕ)
      → sess i ≡ some s
      → sess j ≡ some t
      → j ≢ i
      → on j
          (handle_authenticated_message {Json = Json} state s
            (ClientMessage.send_text_message room content)
            time).2
        ≡ (if is_active_in s.active_voice_room_id room && is_active_in t.active_voice_room_id room
            then broadcast_text_message room s.user_uid s.display_name content time ∷ []
            else [])
  unfolding handle_authenticated_message route_client_room_message is_allowed peers other_members on
  text_delivery Json i j s t room content time has_s has_t differ = ground (
    arith,
    member_of_session i s room has_s,
    users_differ h i j s t has_s has_t differ,
    on-peers h state.rooms {Json = Json}
        (broadcast_text_message room s.user_uid s.display_name content time) room s.user_uid j t
        has_t,
  )

  -- While table, rooms and sessions agree, a session description reaches its target's connection once
  -- if sender and target are in the room, and otherwise, or on another connection, nothing arrives.
  pub sdp_delivery :
      (Json : Type 0) (i j : ℕ) (s t : Session Uuid) (room : Uuid) (target : UserUid)
      (kind : SdpType) (raw : Text) (time : ℕ)
      → sess i ≡ some s
      → sess j ≡ some t
      → on j
          (handle_authenticated_message {Json = Json} state s
            (ClientMessage.send_web_rtc_sdp room target kind raw)
            time).2
        ≡ (if is_active_in s.active_voice_room_id room
              && (is_active_in t.active_voice_room_id room && t.user_uid == target)
            then forward_web_rtc_sdp room s.user_uid kind raw ∷ []
            else [])
  unfolding handle_authenticated_message route_client_room_message is_allowed on send_to_users
  sdp_delivery Json i j s t room target kind raw time has_s has_t =
      let message : ServerMessage Uuid Json = forward_web_rtc_sdp room s.user_uid kind raw in
      ground (
        arith,
        member_of_session i s room has_s,
        member_of_session j t room has_t,
        on-append j (send_to state target message) [],
        on-send_to h state.rooms message j t target has_t,
      )

  -- While table, rooms and sessions agree, an ICE candidate reaches its target's connection once if
  -- sender and target are in the room, and otherwise, or on another connection, nothing arrives.
  pub ice_delivery :
      (Json : Type 0) (i j : ℕ) (s t : Session Uuid) (room : Uuid) (target : UserUid)
      (candidate : Json) (time : ℕ)
      → sess i ≡ some s
      → sess j ≡ some t
      → on j
          (handle_authenticated_message {Json = Json} state s
            (ClientMessage.send_web_rtc_ice room target candidate)
            time).2
        ≡ (if is_active_in s.active_voice_room_id room
              && (is_active_in t.active_voice_room_id room && t.user_uid == target)
            then forward_web_rtc_ice room s.user_uid candidate ∷ []
            else [])
  unfolding handle_authenticated_message route_client_room_message is_allowed on send_to_users
  ice_delivery Json i j s t room target candidate time has_s has_t =
      let message : ServerMessage Uuid Json = forward_web_rtc_ice room s.user_uid candidate in
      ground (
        arith,
        member_of_session i s room has_s,
        member_of_session j t room has_t,
        on-append j (send_to state target message) [],
        on-send_to h state.rooms message j t target has_t,
      )

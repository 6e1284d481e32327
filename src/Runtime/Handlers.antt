-- ===== src/Runtime/Handlers.antt =====
-- What the handlers of server/src/main.rs do to the room that each user is in.
use vtnet.Base.{
  ℕ, Eq, eq?, ◌≡◌, ◌≢◌, refl, sym, ◌∙◌, subst, fun_ext, ap, Bool, true, false, Option, none, some,
  arith, if_pos, if_neg,
}
use vtnet.Collections.Map
use vtnet.Shared.Uid.{UserUid, uid_eq}
use vtnet.Shared.Messages.{ClientMessage}
use vtnet.Room.Session.{Session}
use vtnet.Room.Permission.{is_allowed, join}
use vtnet.Room.Registry.{RoomRegistry}
use vtnet.Room.Registry.Presence.{
  Presence, place, Refines, IsTracked, Simulates, spec_join, spec_enter, spec_leave,
  join_voice_room-Simulates, leave_voice_room-Simulates,
}
use vtnet.Runtime.{
  ServerState, Sent, allow_all_permissions, handle_authenticated_message, disconnect_session,
  leave_active,
}

module _ {Uuid : Type 0} ⦃e : Eq Uuid⦄ where
  spec_enter-others :
      (p : Presence Uuid) (u : UserUid) (r : Uuid) (o : Option Uuid) (v : UserUid)
      → v ≢ u
      → (spec_enter p u r o).0 v ≡ p v
  spec_enter-others p u r none v n = if_neg (eq? v u) n _ _
  spec_enter-others p u r (some q) v n = ground arith

  spec_join-others :
      (allowed : Bool) (p : Presence Uuid) (u : UserUid) (r : Uuid) (v : UserUid)
      → v ≢ u
      → (spec_join allowed p u r).0 v ≡ p v
  spec_join-others true p u r v n = spec_enter-others p u r (p u) v n
  spec_join-others false p u r v n = refl

  spec_leave-others :
      (p : Presence Uuid) (u : UserUid) (r : Uuid) (v : UserUid)
      → v ≢ u
      → (spec_leave p u r).0 v ≡ p v
  spec_leave-others p u r v n = ground arith

  -- A map that differs at one user only is the old one with that user placed.
  place_eq :
      (p q : Presence Uuid) (u : UserUid) (o : Option Uuid)
      → o ≡ q u
      → ((v : UserUid) → v ≢ u → q v ≡ p v)
      → q ≡ place p u o
  place_eq p q u o at_u others = fun_ext λ v. elim (eq? v u) [
    | yes same ↦ ap q same ∙ sym at_u ∙ sym (if_pos (eq? v u) same _ _)
    | no differs ↦ others v differs ∙ sym (if_neg (eq? v u) differs _ _)
  ]

  Simulates-Refines :
      {R : Type 0} (p : Presence Uuid) (session : Session Uuid)
      (out : RoomRegistry Uuid × Session Uuid × R) (spec : Presence Uuid × R)
      → ((v : UserUid) → v ≢ session.user_uid → spec.0 v ≡ p v)
      → Simulates session out spec
      → Refines out.0 (place p session.user_uid out.1.active_voice_room_id)
  Simulates-Refines p session out spec others h =
      subst (Refines out.0)
        (place_eq p spec.0 session.user_uid out.1.active_voice_room_id
          (h.tracked ∙ ap spec.0 h.same_uid) others)
        h.refines

  module _ {Json : Type 0} where
    -- The effect of a handler on the shared state and the session.
    pub record IsHandled (p : Presence Uuid) (state : ServerState Uuid) (session : Session Uuid)
        (out : ServerState Uuid × Session Uuid × Sent Uuid Json) : Type 0 where
      pub refines : Refines out.0.rooms (place p session.user_uid out.1.active_voice_room_id)
      pub same_connections : out.0.connections ≡ state.connections
      pub same_uid : out.1.user_uid ≡ session.user_uid
      pub same_name : out.1.display_name ≡ session.display_name

    handle-nothing :
        (p : Presence Uuid) (state : ServerState Uuid) (session : Session Uuid)
        (sent : Sent Uuid Json)
        → Refines state.rooms p
        → IsTracked session p
        → IsHandled p state session (state, session, sent)
    handle-nothing p state session sent h t = record {
      refines = subst (Refines state.rooms) (place_eq p p session.user_uid _ t (λ v n. refl)) h;
      same_connections = refl;
      same_uid = refl;
      same_name = refl;
    }

    -- A message of an authenticated session moves at most its own user, keeps the table of
    -- connections, and keeps registry and sessions in agreement.
    pub handle_authenticated_message-IsHandled :
        (p : Presence Uuid) (state : ServerState Uuid) (session : Session Uuid)
        (m : ClientMessage Uuid Json) (time : ℕ)
        → Refines state.rooms p
        → IsTracked session p
        → IsHandled p state session (handle_authenticated_message state session m time)
    unfolding handle_authenticated_message
    handle_authenticated_message-IsHandled p state session (ClientMessage.join_voice_room r) time h
          t =
        let sim = join_voice_room-Simulates state.rooms session r allow_all_permissions p h t in
        record {
          refines =
              Simulates-Refines p session _ _
                (spec_join-others (is_allowed allow_all_permissions session.user_uid r join) p
                  session.user_uid r)
                sim;
          same_connections = refl;
          same_uid = sim.same_uid;
          same_name = sim.same_name;
        }
    handle_authenticated_message-IsHandled p state session (ClientMessage.leave_voice_room r) time h
          t =
        let sim = leave_voice_room-Simulates state.rooms session r p h t in
        record {
          refines = Simulates-Refines p session _ _ (spec_leave-others p session.user_uid r) sim;
          same_connections = refl;
          same_uid = sim.same_uid;
          same_name = sim.same_name;
        }
    handle_authenticated_message-IsHandled p state session m time h t =
        handle-nothing p state session _ h t

  spec_leave_self :
      (p : Presence Uuid) (u : UserUid) (r : Uuid) → p u ≡ some r → none ≡ (spec_leave p u r).0 u
  spec_leave_self p u r h = ground arith

  -- A disconnect takes its user out of the rooms and of the table of connections.
  pub record IsDisconnected {Json : Type 0} (p : Presence Uuid) (state : ServerState Uuid)
      (session : Session Uuid) (out : ServerState Uuid × Sent Uuid Json) : Type 0 where
    pub refines : Refines out.0.rooms (place p session.user_uid none)
    pub connections_eq : out.0.connections ≡ Map.remove session.user_uid state.connections

  leave_active-IsDisconnected :
      (Json : Type 0) (p : Presence Uuid) (state : ServerState Uuid) (session : Session Uuid)
      (o : Option Uuid)
      → session.active_voice_room_id ≡ o
      → Refines state.rooms p
      → IsTracked session p
      → Refines (leave_active {Json = Json} state session o).0.rooms (place p session.user_uid none)
        × ((leave_active {Json = Json} state session o).0.connections ≡ state.connections)
  unfolding leave_active
  leave_active-IsDisconnected Json p state session none active h t = (
    subst (Refines state.rooms) (place_eq p p session.user_uid none (sym active ∙ t) (λ v n. refl))
        h,
    refl,
  )
  leave_active-IsDisconnected Json p state session (some r) active h t =
      let sim = leave_voice_room-Simulates state.rooms session r p h t in
      (
        subst (Refines _)
            (place_eq p (spec_leave p session.user_uid r).0 session.user_uid none
              (spec_leave_self p session.user_uid r (sym t ∙ active))
              (spec_leave-others p session.user_uid r))
            sim.refines,
        refl,
      )

  pub disconnect_session-IsDisconnected :
      (Json : Type 0) (p : Presence Uuid) (state : ServerState Uuid) (session : Session Uuid)
      → Refines state.rooms p
      → IsTracked session p
      → IsDisconnected {Json = Json} p state session (disconnect_session state session)
  unfolding disconnect_session
  disconnect_session-IsDisconnected Json p state session h t =
      let state' : ServerState Uuid = record state {
        connections = Map.remove session.user_uid state.connections;
      } in
      let (refines, same) =
        leave_active-IsDisconnected Json p state' session session.active_voice_room_id refl h t in
      record { refines = refines; connections_eq = same }

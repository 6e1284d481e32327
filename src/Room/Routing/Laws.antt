-- ===== src/Room/Routing/Laws.antt =====
-- Who gets a routed message, what it says of its sender, and when routing fails.
use vtnet.Base.{
  ℕ, Eq, eq?, ite, ◌≡◌, refl, Bool, true, false, ◌&&◌, [], ◌∷◌, Result, ok, arith, ◌>>◌, subst,
  ok_inj,
}
use vtnet.Collections.Set
use vtnet.Collections.Set.{Distinct}
use vtnet.Shared.Uid.{UserUid, uid_eq}
use vtnet.Shared.Content.{RoomTextContent}
use vtnet.Shared.Messages.{ClientMessage, ServerMessage}
use vtnet.Room.Session.{Session, is_active_in}
use vtnet.Room.Permission.{PermissionEvaluator, signal}
use vtnet.Room.Registry.{RoomRegistry, members, is_member, or_default}
use vtnet.Room.Registry.Membership.{IsRegistry, or_default-contains, or_default-Distinct}
use vtnet.Room.Routing.{
  RoutedServerMessage, RoomRoutingError, route_client_room_message, other_members,
  ensure_active_member, ensure_permission, ensure_target_member, ensure,
}

ensure-ok :
    {B : Type 0} (test : Bool) (error : RoomRoutingError) (k : Result B RoomRoutingError) {b : B}
    → (ensure test error >> k) ≡ ok b
    → (test ≡ true) × (k ≡ ok b)
ensure-ok true error k h = (refl, h)
ensure-ok false error k h = cc

module _ {Uuid : Type 0} ⦃e : Eq Uuid⦄ where
  -- The session's own room is this one, and the registry has its user there.
  abbrev pub is_present : RoomRegistry Uuid → Session Uuid → Uuid → Bool
  is_present rooms s r = is_active_in s.active_voice_room_id r && is_member rooms r s.user_uid

  pub contains-other_members :
      (rooms : RoomRegistry Uuid) (r : Uuid) (u v : UserUid)
      → Set.contains v (other_members rooms r u) ≡ ite (eq? v u) false (is_member rooms r v)
  unfolding other_members is_member
  contains-other_members rooms r u v = ground (
    arith,
    Set.contains-without v u (or_default (members rooms r)),
    or_default-contains (members rooms r) v,
  )

  pub other_members-Distinct :
      (rooms : RoomRegistry Uuid) (r : Uuid) (u : UserUid)
      → IsRegistry rooms
      → Distinct (other_members rooms r u)
  unfolding other_members
  other_members-Distinct rooms r u h =
      Set.without-Distinct u _ (or_default-Distinct (members rooms r) (h r))

  module _ {Json : Type 0} where
    -- The message names the session's user, and its display name where it names one, and the room.
    abbrev pub IsFrom : Session Uuid → Uuid → ServerMessage Uuid Json → Type 0
    IsFrom s r (ServerMessage.broadcast_text_message room sender name content time) =
        (room ≡ r) × (sender ≡ s.user_uid) × (name ≡ s.display_name)
    IsFrom s r (ServerMessage.forward_web_rtc_sdp room sender kind raw) =
        (room ≡ r) × (sender ≡ s.user_uid)
    IsFrom s r (ServerMessage.forward_web_rtc_ice room sender candidate) =
        (room ≡ r) × (sender ≡ s.user_uid)
    IsFrom s r _ = ⊥

    -- What holds of every message that is routed.
    pub record IsRouted (rooms : RoomRegistry Uuid) (s : Session Uuid)
        (routed : RoutedServerMessage Uuid Json) : Type 0 where
      pub room : Uuid
      pub present : is_present rooms s room ≡ true
      pub trusted : IsFrom s room routed.message
      pub members_only :
          (v : UserUid) → Set.contains v routed.recipients ≡ true → is_member rooms room v ≡ true
      pub once : Distinct routed.recipients

    module _ (rooms : RoomRegistry Uuid) (s : Session Uuid) (p : PermissionEvaluator Uuid)
        (registry : IsRegistry rooms) (room : Uuid) where
      text-IsRouted :
          (content : RoomTextContent) (time : ℕ)
          → is_present rooms s room ≡ true
          → IsRouted rooms s (record {
            recipients = other_members rooms room s.user_uid;
            message =
                ServerMessage.broadcast_text_message room s.user_uid s.display_name content time;
          })
      text-IsRouted content time here = record {
        room = room;
        present = here;
        trusted = (refl, refl, refl);
        members_only = λ v m. ground (arith, contains-other_members rooms room s.user_uid v);
        once = other_members-Distinct rooms room s.user_uid registry;
      }

      signal-IsRouted :
          (target : UserUid) (message : ServerMessage Uuid Json)
          → IsFrom s room message
          → is_present rooms s room ≡ true
          → is_member rooms room target ≡ true
          → IsRouted rooms s (record { recipients = target ∷ []; message = message })
      unfolding Set.contains
      signal-IsRouted target message from here there = record {
        room = room;
        present = here;
        trusted = from;
        members_only = λ v m. ground arith;
        once = (refl, tt);
      }

      signal_route-IsRouted :
          (target : UserUid) (message : ServerMessage Uuid Json)
          {routed : RoutedServerMessage Uuid Json}
          → IsFrom s room message
          → (do
            ensure_active_member rooms s room
            ensure_permission p s.user_uid room signal
            ensure_target_member rooms room target
            ok (record { recipients = target ∷ []; message = message }))
            ≡ ok routed
          → IsRouted rooms s routed
      unfolding ensure_active_member ensure_permission ensure_target_member
      signal_route-IsRouted target message from eq =
          let (here, eq1) = ensure-ok _ _ _ eq in
          let (allowed, eq2) = ensure-ok _ _ _ eq1 in
          let (there, eq3) = ensure-ok _ _ _ eq2 in
          subst (IsRouted rooms s) (ok_inj eq3) (signal-IsRouted target message from here there)

    -- With a well-formed registry, every routed message is from a session that is present in the
    -- room, names that session's user as its sender, and goes to members of that room alone, to
    -- each once.
    pub route-IsRouted :
        (rooms : RoomRegistry Uuid) (s : Session Uuid) (m : ClientMessage Uuid Json) (time : ℕ)
        (p : PermissionEvaluator Uuid) {routed : RoutedServerMessage Uuid Json}
        → IsRegistry rooms
        → route_client_room_message rooms s m time p ≡ ok routed
        → IsRouted rooms s routed
    unfolding route_client_room_message
    route-IsRouted rooms s (ClientMessage.send_text_message room content) time p h eq =
        let (here, eq1) = ensure-ok _ _ _ eq in
        let (allowed, eq2) = ensure-ok _ _ _ eq1 in
        subst (IsRouted rooms s) (ok_inj eq2) (text-IsRouted rooms s p h room content time here)
    route-IsRouted rooms s (ClientMessage.send_web_rtc_sdp room target kind raw) time p h eq =
        signal_route-IsRouted rooms s p h room target _ (refl, refl) eq
    route-IsRouted rooms s (ClientMessage.send_web_rtc_ice room target candidate) time p h eq =
        signal_route-IsRouted rooms s p h room target _ (refl, refl) eq
    route-IsRouted rooms s m time p h eq = cc

-- ===== src/Room/Registry/Presence.antt =====
-- What the registry promises: a map from users to the one voice room they are in. The registry and
-- the sessions together implement that map.
use vtnet.Base.{
  Eq, eq?, ◌≡◌, refl, ite, Bool, true, Option, none, some, arith, Result, ok, err, if◌then◌else◌,
  ◌==◌, Bool-cases, inl, inr, fun_ext, subst, sym, if_pos, if_neg, ◌∙◌,
}
use vtnet.Collections.Map
use vtnet.Shared.Uid.{UserUid, uid_eq}
use vtnet.Room.Session.{Session, is_active_in}
use vtnet.Room.Permission.{PermissionEvaluator, is_allowed, join}
use vtnet.Room.Registry.{
  RoomRegistry, VoiceRoomTransition, RoomJoinError, no_change, joined, switched, left,
  permission_denied, default, members, is_member, add_member, remove_member, enter, join_voice_room,
  leave_voice_room,
}
use vtnet.Room.Registry.Membership.{
  IsRegistry, is_member-add, is_member-remove, default-IsRegistry, add_member-IsRegistry,
  remove_member-IsRegistry,
}

-- The room that each user is in.
abbrev pub Presence : Type 0 → Type 0
Presence Uuid = UserUid → Option Uuid

abbrev pub place : {Uuid : Type 0} → Presence Uuid → UserUid → Option Uuid → Presence Uuid
place p u room v = ite (eq? v u) room (p v)

place-place :
    {Uuid : Type 0} (p : Presence Uuid) (u : UserUid) (a b : Option Uuid)
    → place (place p u a) u b ≡ place p u b
place-place p u a b = fun_ext λ v. ground arith

module _ {Uuid : Type 0} ⦃e : Eq Uuid⦄ where
  -- The registry is well formed, and its members are the users that the map places in the room.
  pub record Refines (rooms : RoomRegistry Uuid) (p : Presence Uuid) : Type 0 where
    pub registry : IsRegistry rooms
    pub agrees : (r : Uuid) (v : UserUid) → is_member rooms r v ≡ is_active_in (p v) r

  pub default-Refines : Refines default (λ _. none)
  unfolding is_member members Map.get
  default-Refines = record { registry = default-IsRegistry; agrees = λ r v. refl }

  pub active_in : (o : Option Uuid) (r : Uuid) → is_active_in o r ≡ true → o ≡ some r
  active_in none r h = cc
  active_in (some q) r h = ground arith

  add-Refines :
      (rooms : RoomRegistry Uuid) (p : Presence Uuid) (r : Uuid) (u : UserUid)
      → p u ≡ none
      → Refines rooms p
      → Refines (add_member rooms r u) (place p u (some r))
  add-Refines rooms p r u free h = record {
    registry = add_member-IsRegistry rooms r u h.registry;
    agrees = λ q v. ground (arith, is_member-add rooms r q u v, h.agrees q v);
  }

  remove-Refines :
      (rooms : RoomRegistry Uuid) (p : Presence Uuid) (r : Uuid) (u : UserUid)
      → p u ≡ some r
      → Refines rooms p
      → Refines (remove_member rooms r u) (place p u none)
  remove-Refines rooms p r u placed h = record {
    registry = remove_member-IsRegistry rooms r u h.registry;
    agrees = λ q v. ground (arith, is_member-remove rooms r q u v, h.agrees q v);
  }

  -- `JoinVoiceRoom` on the map, for a user whose room is the last argument: with the permission the
  -- user is in the new room and in no other.
  abbrev pub spec_enter :
      Presence Uuid
      → UserUid
      → Uuid
      → Option Uuid
      → Presence Uuid × Result (VoiceRoomTransition Uuid) RoomJoinError
  spec_enter p u r none = (place p u (some r), ok (joined r))
  spec_enter p u r (some q) =
      if q == r then (p, ok no_change) else (place p u (some r), ok (switched q r))

  abbrev pub spec_join :
      Bool
      → Presence Uuid
      → UserUid
      → Uuid
      → Presence Uuid × Result (VoiceRoomTransition Uuid) RoomJoinError
  spec_join allowed p u r = if allowed then spec_enter p u r (p u) else (p, err permission_denied)

  -- `LeaveVoiceRoom` on the map: only the room that the user is in can be left.
  abbrev pub spec_leave : Presence Uuid → UserUid → Uuid → Presence Uuid × VoiceRoomTransition Uuid
  spec_leave p u r = if is_active_in (p u) r then (place p u none, left r) else (p, no_change)

  -- The session knows the room that the map has for its user.
  abbrev pub IsTracked : Session Uuid → Presence Uuid → Type 0
  IsTracked session p = session.active_voice_room_id ≡ p session.user_uid

  -- A method's effect on registry and session is that of the map, its result is the map's, and the
  -- session's identity stays.
  pub record Simulates {R : Type 0} (session : Session Uuid)
      (out : RoomRegistry Uuid × Session Uuid × R) (spec : Presence Uuid × R) : Type 0 where
    pub refines : Refines out.0 spec.0
    pub tracked : IsTracked out.1 spec.0
    pub result : out.2 ≡ spec.1
    pub same_uid : out.1.user_uid ≡ session.user_uid
    pub same_name : out.1.display_name ≡ session.display_name

  Simulates-nothing :
      {R : Type 0} {rooms : RoomRegistry Uuid} {session : Session Uuid} {p : Presence Uuid} (a : R)
      → Refines rooms p
      → IsTracked session p
      → Simulates session (rooms, session, a) (p, a)
  Simulates-nothing a h t = record {
    refines = h;
    tracked = t;
    result = refl;
    same_uid = refl;
    same_name = refl;
  }

  Simulates-placed :
      {R : Type 0} {rooms : RoomRegistry Uuid} (session : Session Uuid) (p : Presence Uuid)
      (o : Option Uuid) (a : R)
      → Refines rooms (place p session.user_uid o)
      → Simulates session
          (rooms, record session { active_voice_room_id = o }, a)
          (place p session.user_uid o, a)
  Simulates-placed session p o a h = record {
    refines = h;
    tracked = sym (if_pos (eq? session.user_uid session.user_uid) refl o (p session.user_uid));
    result = refl;
    same_uid = refl;
    same_name = refl;
  }

  enter-Simulates :
      (rooms : RoomRegistry Uuid) (session : Session Uuid) (r : Uuid) (p : Presence Uuid)
      (o : Option Uuid)
      → Refines rooms p
      → p session.user_uid ≡ o
      → session.active_voice_room_id ≡ o
      → Simulates session (enter rooms session r o) (spec_enter p session.user_uid r o)
  unfolding enter
  enter-Simulates rooms session r p none h f t =
      Simulates-placed session p (some r) (ok (joined r)) (add-Refines rooms p r _ f h)
  enter-Simulates rooms session r p (some q) h f t = elim (eq? q r) [
    | yes same ↦ rw (if_pos (eq? q r) same) (Simulates-nothing (ok no_change) h (t ∙ sym f))
    | no other ↦ rw (if_neg (eq? q r) other) (
        Simulates-placed session p (some r) (ok (switched q r)) (
          subst (Refines _) (place-place p u none (some r)) (
            add-Refines (remove_member rooms q u) (place p u none) r u (if_pos (eq? u u) refl _ _)
              (remove-Refines rooms p q u f h))))
  ]
    where
      u : UserUid
      u = session.user_uid

  -- Where a well-formed registry agrees with a map from users to rooms, and the session with the map,
  -- `join_voice_room` moves the user as the map's join does, with its result and with its refusal
  -- where the permission is missing; registry and session agree with the new map, and the session
  -- keeps its user and name.
  pub join_voice_room-Simulates :
      (rooms : RoomRegistry Uuid) (session : Session Uuid) (r : Uuid)
      (permission : PermissionEvaluator Uuid) (p : Presence Uuid)
      → Refines rooms p
      → IsTracked session p
      → Simulates session
          (join_voice_room rooms session r permission)
          (spec_join (is_allowed permission session.user_uid r join) p session.user_uid r)
  unfolding join_voice_room
  join_voice_room-Simulates rooms session r permission p h t =
      elim (Bool-cases (is_allowed permission session.user_uid r join)) [
        | inl allowed ↦
            rw (allowed, ← t)
              (enter-Simulates rooms session r p session.active_voice_room_id h (sym t) refl)
        | inr denied ↦ rw denied (Simulates-nothing (err permission_denied) h t)
      ]

  -- Where a well-formed registry agrees with a map from users to rooms, and the session with the map,
  -- `leave_voice_room` moves the user as the map's leave does, with its result; registry and session
  -- agree with the new map, and the session keeps its user and name.
  pub leave_voice_room-Simulates :
      (rooms : RoomRegistry Uuid) (session : Session Uuid) (r : Uuid) (p : Presence Uuid)
      → Refines rooms p
      → IsTracked session p
      → Simulates session (leave_voice_room rooms session r) (spec_leave p session.user_uid r)
  unfolding leave_voice_room
  leave_voice_room-Simulates rooms session r p h t =
      elim (Bool-cases (is_active_in session.active_voice_room_id r)) [
        | inl here ↦
            rw (← t, here)
              (Simulates-placed session p none (left r) (
                remove-Refines rooms p r session.user_uid
                  (sym t ∙ active_in session.active_voice_room_id r here) h))
        | inr elsewhere ↦ rw (← t, elsewhere) (Simulates-nothing no_change h t)
      ]

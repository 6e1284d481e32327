-- ===== src/Room/Registry.antt =====
-- `RoomRegistry` of server/src/lib.rs: who is in which voice room. A method that takes `&mut self`
-- and `&mut session` returns both beside its result.
pub mod Membership
pub mod Presence
use vtnet.Base.{
  Eq, Bool, false, Option, none, some, List, [], ◌∷◌, Result, ok, err, if◌then◌else◌, ◌==◌,
}
use vtnet.Collections.Set
use vtnet.Collections.Map
use vtnet.Collections.Map.{HashMap}
use vtnet.Shared.Uid.{UserUid, uid_eq}
use vtnet.Room.Session.{Session, is_active_in}
use vtnet.Room.Permission.{PermissionEvaluator, is_allowed, join}

pub record RoomRegistry (Uuid : Type 0) : Type 0 where
  pub members_by_room : HashMap Uuid (List UserUid)

pub data VoiceRoomTransition (Uuid : Type 0) : Type 0 where
  no_change : VoiceRoomTransition Uuid
  joined : Uuid → VoiceRoomTransition Uuid
  -- the room left and the room entered
  switched : Uuid → Uuid → VoiceRoomTransition Uuid
  left : Uuid → VoiceRoomTransition Uuid

pub data RoomJoinError : Type 0 where
  permission_denied : RoomJoinError

-- `RoomRegistry::default`
abbrev pub default : {Uuid : Type 0} → RoomRegistry Uuid
default = record { members_by_room = [] }

-- `.is_some_and(|members| members.contains(&user_uid))`
abbrev pub some_and_contains : Option (List UserUid) → UserUid → Bool
some_and_contains none user_uid = false
some_and_contains (some s) user_uid = Set.contains user_uid s

abbrev pub or_default : Option (List UserUid) → List UserUid
or_default none = []
or_default (some s) = s

module _ {Uuid : Type 0} ⦃e : Eq Uuid⦄ where
  unfoldable pub members : RoomRegistry Uuid → Uuid → Option (List UserUid)
  members rooms room_id = Map.get room_id rooms.members_by_room

  unfoldable pub is_member : RoomRegistry Uuid → Uuid → UserUid → Bool
  is_member rooms room_id user_uid = some_and_contains (members rooms room_id) user_uid

  unfoldable pub add_member : RoomRegistry Uuid → Uuid → UserUid → RoomRegistry Uuid
  add_member rooms room_id user_uid =
      let s = or_default (members rooms room_id) in
      record { members_by_room = Map.insert room_id (Set.insert user_uid s) rooms.members_by_room }

  -- What is left of the room under `get_mut`: the entry goes if its set is empty.
  abbrev put_back : HashMap Uuid (List UserUid) → Uuid → List UserUid → HashMap Uuid (List UserUid)
  put_back m room_id [] = Map.remove room_id m
  put_back m room_id (x ∷ s) = Map.insert room_id (x ∷ s) m

  unfoldable pub remove_member : RoomRegistry Uuid → Uuid → UserUid → RoomRegistry Uuid
  remove_member rooms room_id user_uid = elim (members rooms room_id) [
    | none ↦ rooms
    | some s ↦ record {
      members_by_room = put_back rooms.members_by_room room_id (Set.remove user_uid s);
    }
  ]

  -- The `match` of `join_voice_room` on the session's active room.
  unfoldable pub enter :
      RoomRegistry Uuid
      → Session Uuid
      → Uuid
      → Option Uuid
      → RoomRegistry Uuid × Session Uuid × Result (VoiceRoomTransition Uuid) RoomJoinError
  enter rooms session room_id none = (
    add_member rooms room_id session.user_uid,
    record session { active_voice_room_id = some room_id },
    ok (joined room_id),
  )
  enter rooms session room_id (some previous_room_id) =
      if previous_room_id == room_id then (rooms, session, ok no_change) else (
        add_member (remove_member rooms previous_room_id session.user_uid) room_id session.user_uid,
        record session { active_voice_room_id = some room_id },
        ok (switched previous_room_id room_id),
      )

  unfoldable pub join_voice_room :
      RoomRegistry Uuid
      → Session Uuid
      → Uuid
      → PermissionEvaluator Uuid
      → RoomRegistry Uuid × Session Uuid × Result (VoiceRoomTransition Uuid) RoomJoinError
  unfolding enter
  join_voice_room rooms session room_id permission_evaluator =
      if is_allowed permission_evaluator session.user_uid room_id join
      then enter rooms session room_id session.active_voice_room_id
      else (rooms, session, err permission_denied)

  unfoldable pub leave_voice_room :
      RoomRegistry Uuid
      → Session Uuid
      → Uuid
      → RoomRegistry Uuid × Session Uuid × VoiceRoomTransition Uuid
  leave_voice_room rooms session room_id =
      if is_active_in session.active_voice_room_id room_id
      then (
        remove_member rooms room_id session.user_uid,
        record session { active_voice_room_id = none },
        left room_id,
      )
      else (rooms, session, no_change)

-- ===== src/UnitTests/Rooms.antt =====
-- The unit tests of server/src/lib.rs that are about sessions and the registry. A fresh id
-- (`Uuid::new_v4()`) is an argument; ids of two rooms are taken to differ.
use vtnet.Base.{
  Eq, nat_eq, ◌≡◌, ◌≢◌, refl, true, none, some, List, [], ◌∷◌, length, replicate, Result, ok, err,
  arith,
}
use vtnet.Text.{Text}
use vtnet.Collections.Set
use vtnet.Collections.Map
use vtnet.Shared.Uid.{UserUid, uid_eq, from_bytes}
use vtnet.Room.Session.{Session, new}
use vtnet.Room.Permission.{PermissionEvaluator, is_allowed}
use vtnet.Room.Registry.{
  RoomRegistry, VoiceRoomTransition, no_change, joined, switched, left, RoomJoinError,
  permission_denied, default, members, is_member, add_member, remove_member, enter, join_voice_room,
  leave_voice_room,
}

-- What the operations on rooms compute.
unfoldable pub rooms : Unit {0}
unfolding nat_eq uid_eq is_allowed members is_member add_member remove_member enter join_voice_room
    leave_voice_room Set.contains Set.insert Set.remove Set.without Map.get Map.insert Map.remove
rooms = tt

module _ {Uuid : Type 0} where
  abbrev pub allow_all_permissions : PermissionEvaluator Uuid
  allow_all_permissions = record {
    effective_power = λ user_uid action. 1;
    required_power = λ room_id action. 0;
  }

  abbrev pub deny_all_permissions : PermissionEvaluator Uuid
  deny_all_permissions = record {
    effective_power = λ user_uid action. 0;
    required_power = λ room_id action. 1;
  }

abbrev pub ada_uid : UserUid
ada_uid = from_bytes (replicate 32 1)

abbrev pub ada : Text
ada = b'A' ∷ b'd' ∷ b'a' ∷ []

abbrev pub new_ada : {Uuid : Type 0} → Session Uuid
new_ada = new ada_uid ada

-- `.unwrap()`
abbrev pub Unwraps : {A E : Type 0} → Result A E → Type 0
Unwraps {A} r = (a : A) × (r ≡ ok a)

module _ {Uuid : Type 0} ⦃e : Eq Uuid⦄ where
  -- The helper of the tests: a join that must succeed.
  abbrev pub joins :
      RoomRegistry Uuid × Session Uuid
      → Uuid
      → RoomRegistry Uuid × Session Uuid × Result (VoiceRoomTransition Uuid) RoomJoinError
  joins (registry, session) room_id = join_voice_room registry session room_id allow_all_permissions

  abbrev NewSessionHasNoActiveVoiceRoom : Session Uuid → Type 0
  NewSessionHasNoActiveVoiceRoom session =
      (session.user_uid ≡ ada_uid)
      × (session.display_name ≡ ada)
      × (session.active_voice_room_id ≡ none)

  abbrev NewRoomRegistryHasNoMembers : Uuid → Type 0
  NewRoomRegistryHasNoMembers room_id = members default room_id ≡ none

  abbrev JoiningAVoiceRoomAddsTheSessionToThatRoom : Uuid → Type 0
  JoiningAVoiceRoomAddsTheSessionToThatRoom room_id =
      let (registry, session, transition) = joins (default, new_ada) room_id in
      (transition ≡ ok (joined room_id))
      × (session.active_voice_room_id ≡ some room_id)
      × (is_member registry room_id ada_uid ≡ true)

  abbrev JoiningTheCurrentVoiceRoomIsANoOp : Uuid → Type 0
  JoiningTheCurrentVoiceRoomIsANoOp room_id =
      let (registry, session, first) = joins (default, new_ada) room_id in
      let (registry', session', transition) = joins (registry, session) room_id in
      Unwraps first
      × (transition ≡ ok no_change)
      × ((ms : List UserUid) × (members registry' room_id ≡ some ms) × (length ms ≡ 1))

  abbrev JoiningAnotherVoiceRoomSwitchesRooms : Uuid → Uuid → Type 0
  JoiningAnotherVoiceRoomSwitchesRooms first_room_id second_room_id =
      let (registry, session, first) = joins (default, new_ada) first_room_id in
      let (registry', session', transition) = joins (registry, session) second_room_id in
      Unwraps first
      × (transition ≡ ok (switched first_room_id second_room_id))
      × (session'.active_voice_room_id ≡ some second_room_id)
      × (members registry' first_room_id ≡ none)
      × (is_member registry' second_room_id ada_uid ≡ true)

  abbrev LeavingTheActiveVoiceRoomRemovesTheSession : Uuid → Type 0
  LeavingTheActiveVoiceRoomRemovesTheSession room_id =
      let (registry, session, first) = joins (default, new_ada) room_id in
      let (registry', session', transition) = leave_voice_room registry session room_id in
      Unwraps first
      × (transition ≡ left room_id)
      × (session'.active_voice_room_id ≡ none)
      × (members registry' room_id ≡ none)

  abbrev StaleOrDuplicateLeaveDoesNotRemoveTheCurrentVoiceRoom : Uuid → Uuid → Type 0
  StaleOrDuplicateLeaveDoesNotRemoveTheCurrentVoiceRoom first_room_id second_room_id =
      let (registry, session, first) = joins (default, new_ada) first_room_id in
      let (registry', session', second) = joins (registry, session) second_room_id in
      let (registry1, session1, stale_leave) = leave_voice_room registry' session' first_room_id in
      let (registry2, session2, leave) = leave_voice_room registry1 session1 second_room_id in
      let (registry3, session3, duplicate_leave) =
        leave_voice_room registry2 session2 second_room_id in
      Unwraps first
      × Unwraps second
      × (stale_leave ≡ no_change)
      × (leave ≡ left second_room_id)
      × (duplicate_leave ≡ no_change)
      × (session3.active_voice_room_id ≡ none)
      × (members registry3 second_room_id ≡ none)

  abbrev JoiningARoomRequiresSufficientJoinPower : Uuid → Type 0
  JoiningARoomRequiresSufficientJoinPower room_id =
      let (registry, session, result) =
        join_voice_room default new_ada room_id deny_all_permissions in
      (result ≡ err permission_denied)
      × (session.active_voice_room_id ≡ none)
      × (members registry room_id ≡ none)

  -- The tests of the registry pass, whatever distinct ids they draw.
  record RegistryTests (first_room_id second_room_id : Uuid) : Type 0 where
    new_session : NewSessionHasNoActiveVoiceRoom new_ada
    new_registry : NewRoomRegistryHasNoMembers first_room_id
    adds : JoiningAVoiceRoomAddsTheSessionToThatRoom first_room_id
    no_op : JoiningTheCurrentVoiceRoomIsANoOp first_room_id
    switches : JoiningAnotherVoiceRoomSwitchesRooms first_room_id second_room_id
    leaves : LeavingTheActiveVoiceRoomRemovesTheSession first_room_id
    stale : StaleOrDuplicateLeaveDoesNotRemoveTheCurrentVoiceRoom first_room_id second_room_id
    requires : JoiningARoomRequiresSufficientJoinPower first_room_id

  all-RegistryTests : (r q : Uuid) → r ≢ q → RegistryTests r q
  unfolding rooms
  all-RegistryTests r q differ = record {
    new_session = (refl, refl, refl);
    new_registry = refl;
    adds = (refl, refl, ground arith);
    no_op = ((joined r, refl), ground arith, (ada_uid ∷ [], ground arith, refl));
    switches = ((joined r, refl), ground arith, ground arith, ground arith, ground arith);
    leaves = ((joined r, refl), ground arith, ground arith, ground arith);
    stale = (
      (joined r, refl),
      (switched r q, ground arith),
      ground arith,
      ground arith,
      ground arith,
      ground arith,
      ground arith,
    );
    requires = (refl, refl, refl);
  }

-- ===== src/Room/Session.antt =====
-- `Session` of server/src/lib.rs: an authenticated connection's identity and its voice room.
use vtnet.Base.{Option, none, some, Eq, Bool, false, ◌==◌}
use vtnet.Text.{Text}
use vtnet.Shared.Uid.{UserUid}

pub record Session (Uuid : Type 0) : Type 0 where
  pub user_uid : UserUid
  pub display_name : Text
  pub active_voice_room_id : Option Uuid

-- `Session::new`
abbrev pub new : {Uuid : Type 0} → UserUid → Text → Session Uuid
new user_uid display_name = record {
  user_uid = user_uid;
  display_name = display_name;
  active_voice_room_id = none;
}

-- `session.active_voice_room_id == Some(room_id)`
abbrev pub is_active_in : {Uuid : Type 0} ⦃e : Eq Uuid⦄ → Option Uuid → Uuid → Bool
is_active_in none room_id = false
is_active_in (some active_room_id) room_id = active_room_id == room_id

-- ===== src/Room/Permission.antt =====
-- `RoomAction` and the trait `PermissionEvaluator` of server/src/lib.rs.
use vtnet.Base.{ℕ, Bool, leb}
use vtnet.Shared.Uid.{UserUid}

pub data RoomAction : Type 0 where
  join speak write signal manage_room : RoomAction

-- An implementation of the trait: the two methods that have no default.
pub record PermissionEvaluator (Uuid : Type 0) : Type 0 where
  pub effective_power : UserUid → RoomAction → ℕ
  pub required_power : Uuid → RoomAction → ℕ

-- The trait's default method.
unfoldable pub is_allowed :
    {Uuid : Type 0} → PermissionEvaluator Uuid → UserUid → Uuid → RoomAction → Bool
is_allowed p user_uid room_id action =
    leb (p.required_power room_id action) (p.effective_power user_uid action)

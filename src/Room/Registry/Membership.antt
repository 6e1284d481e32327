-- ===== src/Room/Registry/Membership.antt =====
-- Who is a member of which room after a member is added or removed, and what a well-formed
-- `RoomRegistry` of server/src/lib.rs is.
use vtnet.Base.{
  Eq, eq?, ◌≡◌, refl, ◌≢◌, ite, true, false, Option, none, some, List, [], ◌∷◌, arith, if_pos,
  if_neg,
}
use vtnet.Collections.Set
use vtnet.Collections.Set.{Distinct}
use vtnet.Collections.Map
use vtnet.Shared.Uid.{UserUid, uid_eq}
use vtnet.Room.Registry.{
  RoomRegistry, default, members, is_member, or_default, some_and_contains, add_member,
  remove_member, put_back,
}
use vtnet.Collections.Map.{HashMap}

-- A room without members has no set.
abbrev pub occupied : List UserUid → Option (List UserUid)
occupied [] = none
occupied (x ∷ s) = some (x ∷ s)

-- What is stored for one room: nothing, or a set with at least one member.
abbrev pub IsRoom : Option (List UserUid) → Type 0
IsRoom none = Unit {0}
IsRoom (some s) = (s ≢ []) × Distinct s

occupied-IsRoom : (s : List UserUid) → Distinct s → IsRoom (occupied s)
occupied-IsRoom [] d = tt
occupied-IsRoom (x ∷ s) d = ((λ h. cc), d)

occupied-contains :
    (s : List UserUid) (u : UserUid) → some_and_contains (occupied s) u ≡ Set.contains u s
unfolding Set.contains
occupied-contains [] u = refl
occupied-contains (x ∷ s) u = refl

pub or_default-contains :
    (o : Option (List UserUid)) (u : UserUid)
    → Set.contains u (or_default o) ≡ some_and_contains o u
unfolding Set.contains
or_default-contains none u = refl
or_default-contains (some s) u = refl

pub or_default-Distinct : (o : Option (List UserUid)) → IsRoom o → Distinct (or_default o)
or_default-Distinct none h = tt
or_default-Distinct (some s) h = h.1

insert-IsRoom : (u : UserUid) (s : List UserUid) → Distinct s → IsRoom (some (Set.insert u s))
insert-IsRoom u s d = (Set.insert-ne-nil u s, Set.insert-Distinct u s d)

module _ {Uuid : Type 0} ⦃e : Eq Uuid⦄ where
  abbrev pub IsRegistry : RoomRegistry Uuid → Type 0
  IsRegistry rooms = (r : Uuid) → IsRoom (members rooms r)

  get-put_back :
      (m : HashMap Uuid (List UserUid)) (r q : Uuid) (s : List UserUid)
      → Map.get q (put_back m r s) ≡ ite (eq? q r) (occupied s) (Map.get q m)
  get-put_back m r q [] = Map.get-remove q r m
  get-put_back m r q (x ∷ s) = Map.get-insert q r (x ∷ s) m

  members-add :
      (rooms : RoomRegistry Uuid) (r q : Uuid) (u : UserUid)
      → members (add_member rooms r u) q
        ≡ ite (eq? q r) (some (Set.insert u (or_default (members rooms r)))) (members rooms q)
  unfolding members add_member
  members-add rooms r q u = Map.get-insert q r _ rooms.members_by_room

  members-remove :
      (rooms : RoomRegistry Uuid) (r q : Uuid) (u : UserUid)
      → members (remove_member rooms r u) q
        ≡ ite (eq? q r) (occupied (Set.remove u (or_default (members rooms r)))) (members rooms q)
  unfolding members remove_member Set.remove
  members-remove rooms r q u =
      ground (
        arith,
        get-put_back rooms.members_by_room r q (Set.remove u (or_default (members rooms r))),
      )

  pub is_member-add :
      (rooms : RoomRegistry Uuid) (r q : Uuid) (u v : UserUid)
      → is_member (add_member rooms r u) q v
        ≡ ite (eq? q r) (ite (eq? v u) true (is_member rooms q v)) (is_member rooms q v)
  unfolding is_member
  is_member-add rooms r q u v = ground (
    arith,
    members-add rooms r q u,
    Set.contains-insert v u (or_default (members rooms r)),
    or_default-contains (members rooms r) v,
  )

  pub is_member-remove :
      (rooms : RoomRegistry Uuid) (r q : Uuid) (u v : UserUid)
      → is_member (remove_member rooms r u) q v
        ≡ ite (eq? q r) (ite (eq? v u) false (is_member rooms q v)) (is_member rooms q v)
  unfolding is_member
  is_member-remove rooms r q u v = ground (
    arith,
    members-remove rooms r q u,
    Set.contains-remove v u (or_default (members rooms r)),
    occupied-contains (Set.remove u (or_default (members rooms r))) v,
    or_default-contains (members rooms r) v,
  )

  pub default-IsRegistry : IsRegistry default
  unfolding members Map.get
  default-IsRegistry r = tt

  pub add_member-IsRegistry :
      (rooms : RoomRegistry Uuid) (r : Uuid) (u : UserUid)
      → IsRegistry rooms
      → IsRegistry (add_member rooms r u)
  add_member-IsRegistry rooms r u h q = elim (eq? q r) [
    | yes p ↦
        rw (members-add rooms r q u, if_pos _ p) (insert-IsRoom u _ (or_default-Distinct _ (h r)))
    | no n ↦ rw (members-add rooms r q u, if_neg _ n) (h q)
  ]

  pub remove_member-IsRegistry :
      (rooms : RoomRegistry Uuid) (r : Uuid) (u : UserUid)
      → IsRegistry rooms
      → IsRegistry (remove_member rooms r u)
  remove_member-IsRegistry rooms r u h q = elim (eq? q r) [
    | yes p ↦
        rw (members-remove rooms r q u, if_pos _ p)
          (occupied-IsRoom _ (Set.remove-Distinct u _ (or_default-Distinct _ (h r))))
    | no n ↦ rw (members-remove rooms r q u, if_neg _ n) (h q)
  ]

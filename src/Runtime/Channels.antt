-- ===== src/Runtime/Channels.antt =====
-- `send_to_users` of server/src/main.rs, seen from one connection's channel.
use vtnet.Base.{
  ℕ, Eq, nat_eq, eq?, ◌==◌, ◌≡◌, ◌≢◌, refl, ◌∙◌, subst, ap, not, ◌&&◌, some, List, [], ◌∷◌, ◌++◌,
  arith, if◌then◌else◌, Option-cases, inl, inr,
}
use vtnet.Collections.Set
use vtnet.Collections.Set.{Distinct}
use vtnet.Collections.Map
use vtnet.Shared.Uid.{UserUid, uid_eq}
use vtnet.Shared.Messages.{ServerMessage}
use vtnet.Room.Session.{Session, is_active_in}
use vtnet.Room.Registry.{RoomRegistry}
use vtnet.Room.Routing.{other_members}
use vtnet.Room.Routing.Laws.{contains-other_members, other_members-Distinct}
use vtnet.Runtime.{ServerState, Sent, send_to, send_to_users, peers}
use vtnet.Runtime.Table.{Sessions, IsTable, HasUid}

-- What is put on one channel, in order.
unfoldable pub on : {Uuid Json : Type 0} → ℕ → Sent Uuid Json → List (ServerMessage Uuid Json)
on j [] = []
on j ((i, message) ∷ rest) = let later = on j rest in if i == j then message ∷ later else later

pub on-append :
    {Uuid Json : Type 0} (j : ℕ) (xs ys : Sent Uuid Json) → on j (xs ++ ys) ≡ on j xs ++ on j ys
unfolding on
on-append j [] ys = refl
on-append j ((i, m) ∷ xs) ys = ground (arith, on-append j xs ys)

module _ {Uuid : Type 0} ⦃e : Eq Uuid⦄ where
  module _ {state : ServerState Uuid} {sess : Sessions Uuid} (h : IsTable state sess)
      (rooms : RoomRegistry Uuid) {Json : Type 0} (message : ServerMessage Uuid Json) where
    -- The session's user is the one user whose sender is this channel.
    pub on-send_to :
        (j : ℕ) (t : Session Uuid) (u : UserUid)
        → sess j ≡ some t
        → on j (send_to (record state { rooms = rooms }) u message)
          ≡ (if t.user_uid == u then message ∷ [] else [])
    unfolding on send_to
    on-send_to j t u has = elim (Option-cases (Map.get u state.connections)) [
      | inl absent ↦ ground (arith, h.registered j t has)
      | inr (i, found) ↦ elim (eq? i j) [
        | yes same ↦ ground (arith, subst (HasUid u) (ap sess same ∙ has) (h.backed u i found))
        | no differs ↦ ground (arith, h.registered j t has)
      ]
    ]

    pub on-send_to_users :
        (j : ℕ) (t : Session Uuid) (recipients : List UserUid)
        → sess j ≡ some t
        → Distinct recipients
        → on j (send_to_users (record state { rooms = rooms }) recipients message)
          ≡ (if Set.contains t.user_uid recipients then message ∷ [] else [])
    unfolding send_to_users Set.contains on
    on-send_to_users j t [] has d = refl
    on-send_to_users j t (u ∷ us) has d = ground (
      arith,
      on-append j (send_to (record state { rooms = rooms }) u message)
          (send_to_users (record state { rooms = rooms }) us message),
      on-send_to j t u has,
      on-send_to_users j t us has d.1,
    )

  -- The others in a room, by the sessions: each is told once.
  module _ {state : ServerState Uuid} {sess : Sessions Uuid} (h : IsTable state sess) where
    pub contains-peers :
        (r : Uuid) (u : UserUid) (j : ℕ) (t : Session Uuid)
        → sess j ≡ some t
        → Set.contains t.user_uid (peers state.rooms r u)
          ≡ (not (t.user_uid == u) && is_active_in t.active_voice_room_id r)
    unfolding peers other_members
    contains-peers r u j t has = ground (
      arith,
      contains-other_members state.rooms r u t.user_uid,
      h.refines.agrees r t.user_uid,
      h.registered j t has,
    )

    pub peers-Distinct : (r : Uuid) (u : UserUid) → Distinct (peers state.rooms r u)
    unfolding peers other_members
    peers-Distinct r u = other_members-Distinct state.rooms r u h.refines.registry

    -- A message to the others of a room reaches a connection once, or not at all.
    pub on-peers :
        (rooms : RoomRegistry Uuid) {Json : Type 0} (message : ServerMessage Uuid Json) (r : Uuid)
        (u : UserUid) (j : ℕ) (t : Session Uuid)
        → sess j ≡ some t
        → on j (send_to_users (record state { rooms = rooms }) (peers state.rooms r u) message) ≡ (
            if not (t.user_uid == u) && is_active_in t.active_voice_room_id r
            then message ∷ []
            else [])
    on-peers rooms message r u j t has =
        rw (← contains-peers r u j t has)
          (on-send_to_users h rooms message j t (peers state.rooms r u) has (peers-Distinct r u))

    -- Two connections have two users.
    pub users_differ :
        (i j : ℕ) (s t : Session Uuid)
        → sess i ≡ some s
        → sess j ≡ some t
        → j ≢ i
        → t.user_uid ≢ s.user_uid
    users_differ i j s t has_s has_t differ same =
        ground (arith, h.registered i s has_s, h.registered j t has_t)

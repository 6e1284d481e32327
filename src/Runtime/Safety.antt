-- ===== src/Runtime/Safety.antt =====
-- Every reachable state of the server, under every interleaving of its connections.
use vtnet.Base.{
  ℕ, Eq, nat_eq, eq?, ◌≡◌, ◌↔◌, refl, sym, ◌∙◌, subst, fun_ext, true, Bool, Option, none, some,
  arith, if_pos, if_neg, Option-cases, inl, inr,
}
use vtnet.External.{Base64, Ed25519}
use vtnet.Collections.Map
use vtnet.Shared.Uid.{UserUid, uid_eq}
use vtnet.Shared.Wire.{SerdeJson}
use vtnet.Room.Session.{Session, is_active_in}
use vtnet.Room.Registry.{is_member}
use vtnet.Room.Registry.Presence.{default-Refines, active_in}
use vtnet.Runtime.{ServerState}
use vtnet.Runtime.Connection.{Connection, ended, accepted, finish_session, finish}
use vtnet.Runtime.System.{
  System, init, update, Step, Reach, accept, read, hang_up, close, start, next,
}
use vtnet.Runtime.Table.{Sessions, IsTable, HasUid, presence, disconnect-IsTable}
use vtnet.Runtime.Invariant.{IsSound, update_self, ended-IsSound, receive-IsKept}

abbrev pub sessions : {Uuid : Type 0} → System Uuid → Sessions Uuid
sessions sys i = (sys.connection i).session

module _ {Uuid : Type 0} ⦃e : Eq Uuid⦄ where
  finish_session-IsTable :
      (Json : Type 0) (sess : Sessions Uuid) (i : ℕ) (state : ServerState Uuid) (flag : Bool)
      (o : Option (Session Uuid))
      → IsTable state sess
      → sess i ≡ o
      → ((s : Session Uuid) → o ≡ some s → flag ≡ true)
      → IsTable (finish_session {Json = Json} state flag o).0 (update sess i none)
  unfolding finish_session
  finish_session-IsTable Json sess i state flag none table has f =
      subst (IsTable state) (update_self sess i none has) table
  finish_session-IsTable Json sess i state flag (some s) table has f =
      rw (f s refl) (disconnect-IsTable Json state sess i s table has)

  pub record Inv (sys : System Uuid) : Type 0 where
    pub sound : (i : ℕ) → IsSound (sys.connection i)
    pub table : IsTable sys.server (sessions sys)

  sessions_update :
      (f : ℕ → Connection Uuid) (i : ℕ) (conn : Connection Uuid)
      → update (λ j. (f j).session) i conn.session ≡ (λ j. (update f i conn j).session)
  sessions_update f i conn = fun_ext λ j. ground arith

  update-IsSound :
      (f : ℕ → Connection Uuid) (i : ℕ) (conn : Connection Uuid)
      → ((j : ℕ) → IsSound (f j))
      → IsSound conn
      → (j : ℕ) → IsSound (update f i conn j)
  update-IsSound f i conn h k j = elim (eq? j i) [
    | yes same ↦ rw (if_pos (eq? j i) same) k
    | no differs ↦ rw (if_neg (eq? j i) differs) (h j)
  ]

  put-Inv :
      (sys : System Uuid) (i : ℕ) (server : ServerState Uuid) (conn : Connection Uuid)
      → Inv sys
      → IsTable server (update (sessions sys) i conn.session)
      → IsSound conn
      → Inv (record { server = server; connection = update sys.connection i conn })
  put-Inv sys i server conn h table sound = record {
    sound = update-IsSound sys.connection i conn h.sound sound;
    table = subst (IsTable server) (sessions_update sys.connection i conn) table;
  }

  -- A change of a slot that keeps its session.
  slot-Inv :
      (sys : System Uuid) (i : ℕ) (conn : Connection Uuid)
      → Inv sys
      → sessions sys i ≡ conn.session
      → IsSound conn
      → Inv (record sys { connection = update sys.connection i conn })
  slot-Inv sys i conn h same sound =
      put-Inv sys i sys.server conn h
        (subst (IsTable sys.server) (update_self (sessions sys) i conn.session same) h.table) sound

  accepted-IsSound : IsSound {Uuid = Uuid} accepted
  accepted-IsSound = record { flagged = λ s q. cc; fresh = tt; idle = λ h. refl }

  pub init-Inv : Inv init
  unfolding Map.get
  init-Inv = record {
    sound = λ i. record { flagged = λ s q. cc; fresh = tt; idle = λ h. refl };
    table = record { registered = λ i s q. cc; backed = λ u i q. cc; refines = default-Refines };
  }

  -- A user that the table places in a room has a connection whose session is there.
  present :
      {state : ServerState Uuid} {sess : Sessions Uuid}
      → IsTable state sess
      → (r : Uuid) (u : UserUid) → is_active_in (presence state.connections sess u) r ≡ true
      → (i : ℕ) × (s : Session Uuid) × (sess i ≡ some s)
        × (s.user_uid ≡ u)
        × (s.active_voice_room_id ≡ some r)
  present {state} {sess} h r u here = elim (Option-cases (Map.get u state.connections)) [
    | inl absent ↦ absurd (ground arith)
    | inr (i, found) ↦ elim (Option-cases (sess i)) [
      | inl none_there ↦ absurd (subst (HasUid u) none_there (h.backed u i found))
      | inr (s, has) ↦ (
        i,
        s,
        has,
        subst (HasUid u) has (h.backed u i found),
        active_in s.active_voice_room_id r (ground arith),
      )
    ]
  ]

  module _ {Json : Type 0} {b : Base64} {c : Ed25519} {serde : SerdeJson Uuid Json} where
    -- Every step of the server keeps the invariant: table, rooms and sessions agree, and every
    -- connection is sound.
    pub Step-Inv : {s t : System Uuid} → Step b c serde s t → Inv s → Inv t
    unfolding finish
    Step-Inv {s} (accept i h) v = slot-Inv s i accepted v ((v.sound i).idle h) accepted-IsSound
    Step-Inv {s} (read i frame ambient h) v =
        let kept =
          receive-IsKept b c serde (sessions s) i s.server (s.connection i) v.table refl (v.sound i)
            h ambient frame in
        put-Inv s i _ _ v kept.table kept.sound
    Step-Inv {s} (hang_up i h) v =
        slot-Inv s i (record (s.connection i) { phase = ended }) v refl
          (ended-IsSound (s.connection i) (v.sound i))
    Step-Inv {s} (close i h) v =
        put-Inv s i _ _ v
          (finish_session-IsTable Json (sessions s) i s.server (s.connection i).is_registered
            (s.connection i).session v.table refl (v.sound i).flagged)
          (record { flagged = λ t q. cc; fresh = (v.sound i).fresh; idle = λ h. refl })

    -- Every reachable state has the invariant.
    pub Reach-Inv : {s : System Uuid} → Reach b c serde s → Inv s
    Reach-Inv start = init-Inv
    Reach-Inv (next r st) = Step-Inv st (Reach-Inv r)

    -- In every reachable state the members of a room are exactly the users of the connections
    -- whose session is in that room.
    pub members_are_present :
        {sys : System Uuid}
        → Reach b c serde sys
        → (r : Uuid) (u : UserUid)
        → (is_member sys.server.rooms r u ≡ true) ↔ (
            (i : ℕ) × (s : Session Uuid) × ((sys.connection i).session ≡ some s)
            × (s.user_uid ≡ u)
            × (s.active_voice_room_id ≡ some r))
    members_are_present {sys} reach r u =
        let table = (Reach-Inv reach).table in
        let agrees = table.refines.agrees r u in
        (
          λ member. present table r u (sym agrees ∙ member),
          λ (i, s, has, own, there). ground (arith, table.registered i s has, agrees),
        )

    -- In every reachable state a user is a member of at most one room.
    pub one_room :
        {sys : System Uuid}
        → Reach b c serde sys
        → (r q : Uuid) (u : UserUid) → is_member sys.server.rooms r u ≡ true
        → is_member sys.server.rooms q u ≡ true
        → r ≡ q
    one_room {sys} reach r q u h k =
        let refines = (Reach-Inv reach).table.refines in
        ground (arith, refines.agrees r u, refines.agrees q u)

    -- In every reachable state no two connections have a session of the same user.
    pub one_connection :
        {sys : System Uuid}
        → Reach b c serde sys
        → (i j : ℕ) (s t : Session Uuid) → (sys.connection i).session ≡ some s
        → (sys.connection j).session ≡ some t
        → s.user_uid ≡ t.user_uid
        → i ≡ j
    one_connection {sys} reach i j s t h k same =
        let table = (Reach-Inv reach).table in
        ground (arith, table.registered i s h, table.registered j t k)

-- ===== src/Runtime/Table.antt =====
-- The table of connections of server/src/main.rs against the sessions of the connections, and the
-- rooms against both: what the shared state means, and how each way to change it keeps that.
use vtnet.Base.{
  ℕ, Eq, nat_eq, eq?, ◌≡◌, ◌≢◌, sym, ◌∙◌, subst, fun_ext, ap, Option, none, some, arith, if_pos,
  if_neg, Option-cases, inl, inr,
}
use vtnet.Collections.Map
use vtnet.Collections.Map.{HashMap}
use vtnet.Shared.Uid.{UserUid, uid_eq}
use vtnet.Shared.Messages.{ClientMessage}
use vtnet.Room.Session.{Session}
use vtnet.Room.Registry.Presence.{Presence, place, Refines, IsTracked}
use vtnet.Runtime.{ServerState, handle_authenticated_message, disconnect_session}
use vtnet.Runtime.System.{update}
use vtnet.Runtime.Handlers.{
  handle_authenticated_message-IsHandled, disconnect_session-IsDisconnected,
}

-- The session that each connection has.
abbrev pub Sessions : Type 0 → Type 0
Sessions Uuid = ℕ → Option (Session Uuid)

abbrev pub room_of : {Uuid : Type 0} → Option (Session Uuid) → Option Uuid
room_of none = none
room_of (some session) = session.active_voice_room_id

abbrev pub slot_room : {Uuid : Type 0} → Sessions Uuid → Option ℕ → Option Uuid
slot_room sess none = none
slot_room sess (some i) = room_of (sess i)

-- The room of a user: that of the session of the connection that the table has for the user.
abbrev pub presence : {Uuid : Type 0} → HashMap UserUid ℕ → Sessions Uuid → Presence Uuid
presence connections sess u = slot_room sess (Map.get u connections)

abbrev pub HasUid : {Uuid : Type 0} → UserUid → Option (Session Uuid) → Type 0
HasUid u none = ⊥
HasUid u (some session) = session.user_uid ≡ u

module _ {Uuid : Type 0} ⦃e : Eq Uuid⦄ where
  -- The table has exactly the users that have a session, each with its one connection, and the
  -- members of a room are the users whose session is in it.
  pub record IsTable (state : ServerState Uuid) (sess : Sessions Uuid) : Type 0 where
    pub registered :
        (i : ℕ) (s : Session Uuid) → sess i ≡ some s → Map.get s.user_uid state.connections ≡ some i
    pub backed : (u : UserUid) (i : ℕ) → Map.get u state.connections ≡ some i → HasUid u (sess i)
    pub refines : Refines state.rooms (presence state.connections sess)

  IsTable-IsTracked :
      {state : ServerState Uuid} {sess : Sessions Uuid} (i : ℕ) (s : Session Uuid)
      → IsTable state sess
      → sess i ≡ some s
      → IsTracked s (presence state.connections sess)
  IsTable-IsTracked i s h has = ground (arith, h.registered i s has)

  -- A user other than the session's has another connection.
  slot_ne :
      {state : ServerState Uuid} {sess : Sessions Uuid} (i j : ℕ) (s : Session Uuid) (v : UserUid)
      → IsTable state sess
      → sess i ≡ some s
      → v ≢ s.user_uid
      → Map.get v state.connections ≡ some j
      → j ≢ i
  slot_ne {sess = sess} i j s v h has differs q same =
      differs (sym (subst (HasUid v) (ap sess same ∙ has) (h.backed v j q)))

  module _ (state : ServerState Uuid) (sess : Sessions Uuid) (i : ℕ) (s : Session Uuid)
      (h : IsTable state sess) where
    -- The session of one connection changes, but not its user.
    moved_presence :
        (s' : Session Uuid)
        → sess i ≡ some s
        → place (presence state.connections sess) s.user_uid s'.active_voice_room_id
          ≡ presence state.connections (update sess i (some s'))
    moved_presence s' has = fun_ext λ v. elim (eq? v s.user_uid) [
      | yes same ↦ ground (arith, h.registered i s has)
      | no differs ↦ elim (Option-cases (Map.get v state.connections)) [
        | inl absent ↦ ground arith
        | inr (j, q) ↦ ground (arith, slot_ne i j s v h has differs q)
      ]
    ]

    moved-IsTable :
        (state' : ServerState Uuid) (s' : Session Uuid)
        → sess i ≡ some s
        → state'.connections ≡ state.connections
        → s'.user_uid ≡ s.user_uid
        → Refines state'.rooms
            (place (presence state.connections sess) s.user_uid s'.active_voice_room_id)
        → IsTable state' (update sess i (some s'))
    moved-IsTable state' s' has conns uid refines = record {
      registered = λ j t q. ground (arith, h.registered j t, h.registered i s has);
      backed = λ u j q. elim (eq? j i) [
        | yes same ↦ rw (if_pos (eq? j i) same) (
            uid
            ∙ subst (HasUid u) (ap sess same ∙ has) (h.backed u j (ap (Map.get u) (sym conns) ∙ q)))
        | no differs ↦ rw (if_neg (eq? j i) differs) (h.backed u j (ap (Map.get u) (sym conns) ∙ q))
      ];
      refines =
          subst (Refines state'.rooms)
            (moved_presence s' has ∙ ap (λ c. presence c (update sess i (some s'))) (sym conns))
            refines;
    }

    pub register-IsTable :
        sess i ≡ none
        → Map.get s.user_uid state.connections ≡ none
        → s.active_voice_room_id ≡ none
        → IsTable
            (record state { connections = Map.insert s.user_uid i state.connections })
            (update sess i (some s))
    register-IsTable free new idle = record {
      registered = λ j t q.
          ground
            (arith, Map.get-insert t.user_uid s.user_uid i state.connections, h.registered j t);
      backed = λ u j q. elim (eq? u s.user_uid) [
        | yes own ↦ ground (arith, Map.get-insert u s.user_uid i state.connections)
        | no differs ↦ elim (eq? j i) [
          | yes same ↦ absurd (free_slot j u (kept u j differs q) same)
          | no other ↦ rw (if_neg (eq? j i) other) (h.backed u j (kept u j differs q))
        ]
      ];
      refines =
          subst (Refines state.rooms)
            (fun_ext λ v. elim (eq? v s.user_uid) [
              | yes own ↦ ground (
                arith,
                ap (λ w. Map.get w state.connections) own,
                Map.get-insert v s.user_uid i state.connections,
              )
              | no differs ↦ elim (Option-cases (Map.get v state.connections)) [
                | inl absent ↦
                    ground (arith, Map.get-insert_ne v s.user_uid i state.connections differs)
                | inr (j, q) ↦ ground (
                  arith,
                  free_slot j v q,
                  Map.get-insert_ne v s.user_uid i state.connections differs,
                )
              ]
            ])
            h.refines;
    }
      where
        free_slot : (j : ℕ) (u : UserUid) → Map.get u state.connections ≡ some j → j ≢ i
        free_slot j u q same = subst (HasUid u) (ap sess same ∙ free) (h.backed u j q)

        kept :
            (u : UserUid) (j : ℕ)
            → u ≢ s.user_uid
            → Map.get u (Map.insert s.user_uid i state.connections) ≡ some j
            → Map.get u state.connections ≡ some j
        kept u j differs q = sym (Map.get-insert_ne u s.user_uid i state.connections differs) ∙ q

    removed-IsTable :
        (state' : ServerState Uuid)
        → sess i ≡ some s
        → state'.connections ≡ Map.remove s.user_uid state.connections
        → Refines state'.rooms (place (presence state.connections sess) s.user_uid none)
        → IsTable state' (update sess i none)
    removed-IsTable state' has conns refines = record {
      registered = λ j t q. ground (
        arith,
        ap (Map.get t.user_uid) conns,
        Map.get-remove t.user_uid s.user_uid state.connections,
        h.registered j t,
        h.registered i s has,
      );
      backed = λ u j q. elim (eq? u s.user_uid) [
        | yes own ↦
            absurd
              (ground (arith, ap (Map.get u) conns, Map.get-remove u s.user_uid state.connections))
        | no differs ↦
            let old =
              sym (Map.get-remove_ne u s.user_uid state.connections differs)
              ∙ ap (Map.get u) (sym conns)
              ∙ q in
            rw (if_neg (eq? j i) (slot_ne i j s u h has differs old)) (h.backed u j old)
      ];
      refines =
          subst (Refines state'.rooms)
            (fun_ext λ v. elim (eq? v s.user_uid) [
              | yes own ↦
                  ground
                    (arith, ap (Map.get v) conns, Map.get-remove v s.user_uid state.connections)
              | no differs ↦ elim (Option-cases (Map.get v state.connections)) [
                | inl absent ↦ ground (
                  arith,
                  ap (Map.get v) conns,
                  Map.get-remove_ne v s.user_uid state.connections differs,
                )
                | inr (j, q) ↦ ground (
                  arith,
                  ap (Map.get v) conns,
                  slot_ne i j s v h has differs q,
                  Map.get-remove_ne v s.user_uid state.connections differs,
                )
              ]
            ])
            refines;
    }

  pub handle-IsTable :
      {Json : Type 0} (state : ServerState Uuid) (sess : Sessions Uuid) (i : ℕ) (s : Session Uuid)
      (m : ClientMessage Uuid Json) (time : ℕ)
      → IsTable state sess
      → sess i ≡ some s
      → let out = handle_authenticated_message state s m time in
        IsTable out.0 (update sess i (some out.1))
  handle-IsTable state sess i s m time h has =
      let handled =
        handle_authenticated_message-IsHandled (presence state.connections sess) state s m time
          h.refines (IsTable-IsTracked i s h has) in
      moved-IsTable state sess i s h _ _ has handled.same_connections handled.same_uid
        handled.refines

  pub disconnect-IsTable :
      (Json : Type 0) (state : ServerState Uuid) (sess : Sessions Uuid) (i : ℕ) (s : Session Uuid)
      → IsTable state sess
      → sess i ≡ some s
      → IsTable (disconnect_session {Json = Json} state s).0 (update sess i none)
  disconnect-IsTable Json state sess i s h has =
      let gone =
        disconnect_session-IsDisconnected Json (presence state.connections sess) state s h.refines
          (IsTable-IsTracked i s h has) in
      removed-IsTable state sess i s h _ has gone.connections_eq gone.refines

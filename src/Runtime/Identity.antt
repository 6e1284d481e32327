-- ===== src/Runtime/Identity.antt =====
-- Whose the sessions of the running server are.
use vtnet.Base.{
  ℕ, Eq, nat_eq, eq?, ◌≡◌, refl, subst, Option, none, some, if_pos, if_neg, Result, ok, err, arith,
  inl, inr, Option-cases, sym, List, ◌⊎◌,
}
use vtnet.External.{Base64, Ed25519}
use vtnet.Collections.Map
use vtnet.Shared.Uid.{uid_eq}
use vtnet.Shared.Messages.{ClientMessage, ServerMessage}
use vtnet.Shared.Wire.{SerdeJson}
use vtnet.Room.Session.{Session}
use vtnet.Room.Registry.{join_voice_room, leave_voice_room, enter}
use vtnet.Room.Permission.{is_allowed}
use vtnet.Auth.{handle_message, take_authenticated_session}
use vtnet.Auth.Identity.{
  IsOwned, IsOwnedIfAny, IsOwnedState, IsOwned-same, handle_message-IsOwnedState, take-IsOwned,
  later-IsOwnedState, later-IsOwnedIfAny,
}
use vtnet.Transport.{WebSocketMessageError, decode_client_message}
use vtnet.Runtime.{ServerState, handle_authenticated_message}
use vtnet.Runtime.Connection.{
  Connection, Frame, text, other, Ambient, admit, receive_message, receive_decoded, receive,
  unix_timestamp_millis, message_of, finish, accepted,
}
use vtnet.Runtime.System.{System, update, Step, Reach, accept, read, hang_up, start, next}

module _ {Uuid Json : Type 0} ⦃e : Eq Uuid⦄ where
  -- A handler keeps the user and the name of the session.
  handled_same :
      (state : ServerState Uuid) (s : Session Uuid) (m : ClientMessage Uuid Json) (time : ℕ)
      → ((handle_authenticated_message state s m time).1.user_uid ≡ s.user_uid)
        × ((handle_authenticated_message state s m time).1.display_name ≡ s.display_name)
  unfolding handle_authenticated_message join_voice_room leave_voice_room enter is_allowed
  handled_same state s (ClientMessage.join_voice_room r) time = ground arith
  handled_same state s (ClientMessage.leave_voice_room r) time = ground arith
  handled_same state s m time = (refl, refl)

-- The session of a connection, and what its authenticator holds, are owned.
record IsHonest (b : Base64) (c : Ed25519) {Uuid Json : Type 0}
    (Heard : ClientMessage Uuid Json → List ℕ → ℕ → Type 0) (conn : Connection Uuid) : Type 0 where
  held : IsOwnedState b c Heard conn.authenticator.state
  session : IsOwnedIfAny b c Heard conn.session

module _ {Uuid Json : Type 0} ⦃e : Eq Uuid⦄ (b : Base64) (c : Ed25519) where
  module _ (serde : SerdeJson Uuid Json) where
    -- The frame is the text of the message.
    abbrev pub Reads : Frame → ClientMessage Uuid Json → Type 0
    Reads (text payload) m = decode_client_message serde b payload ≡ ok m
    Reads _ m = ⊥

    -- In the course of the server, the connection read the message when nonce and time were these.
    abbrev pub Heard :
        {sys : System Uuid}
        → Reach b c serde sys
        → ℕ
        → ClientMessage Uuid Json
        → List ℕ
        → ℕ
        → Type 0
    Heard start i m n t = ⊥
    Heard (next r (read j frame ambient h)) i m n t =
        ((i ≡ j)
          × Reads frame m
          × (n ≡ ambient.nonce)
          × (t ≡ unix_timestamp_millis ambient.since_epoch))
        ⊎ Heard r i m n t
    Heard (next r st) i m n t = Heard r i m n t

  module _ (H : ClientMessage Uuid Json → List ℕ → ℕ → Type 0) where
    admit-IsHonest :
        (state : ServerState Uuid) (conn : Connection Uuid) (i : ℕ)
        (message : ServerMessage Uuid Json) (o : Option (Session Uuid))
        → IsOwnedIfAny b c H o
        → IsHonest b c H conn
        → IsHonest b c H (admit state conn i message o).1
    unfolding admit
    admit-IsHonest state conn i message none owned h = h
    admit-IsHonest state conn i message (some s) owned h =
        elim (Option-cases (Map.get s.user_uid state.connections)) [
          | inl new ↦ rw new (record { held = h.held; session = owned })
          | inr (j, taken) ↦ rw taken (record { held = h.held; session = h.session })
        ]

    module _ (serde : SerdeJson Uuid Json) (state : ServerState Uuid) (conn : Connection Uuid)
        (i : ℕ) (ambient : Ambient) (honest : IsHonest b c H conn) where
      receive_message-IsHonest :
          (m : ClientMessage Uuid Json) (o : Option (Session Uuid))
          → H m ambient.nonce (unix_timestamp_millis ambient.since_epoch)
          → IsOwnedIfAny b c H o
          → IsHonest b c H (receive_message b c serde state conn i ambient m o).1
      unfolding receive_message
      receive_message-IsHonest m (some s) heard owned =
          let (uid, name) = handled_same state s m (unix_timestamp_millis ambient.since_epoch) in
          record { held = honest.held; session = IsOwned-same b c H s _ uid name owned }
      receive_message-IsHonest m none heard owned =
          let time = unix_timestamp_millis ambient.since_epoch in
          let handled = handle_message b c conn.authenticator m ambient.nonce time ambient.now in
          let (held, taken) = take-IsOwned b c H handled.0 (
            handle_message-IsOwnedState b c H conn.authenticator m ambient.nonce time ambient.now
              heard honest.held) in
          admit-IsHonest state _ i (message_of handled.1) (take_authenticated_session handled.0).1
            taken (record { held = held; session = honest.session })

      receive_decoded-IsHonest :
          (r : Result (ClientMessage Uuid Json) WebSocketMessageError)
          → ((m : ClientMessage Uuid Json)
              → r ≡ ok m
              → H m ambient.nonce (unix_timestamp_millis ambient.since_epoch))
          → IsHonest b c H (receive_decoded b c serde state conn i ambient r).1
      unfolding receive_decoded
      receive_decoded-IsHonest (ok m) heard =
          receive_message-IsHonest m conn.session (heard m refl) honest.session
      receive_decoded-IsHonest (err _) heard = record {
        held = honest.held;
        session = honest.session;
      }

      receive-IsHonest :
          (frame : Frame)
          → ((m : ClientMessage Uuid Json)
              → Reads serde frame m
              → H m ambient.nonce (unix_timestamp_millis ambient.since_epoch))
          → IsHonest b c H (receive b c serde state conn i ambient frame).1
      unfolding receive
      receive-IsHonest (text payload) heard =
          receive_decoded-IsHonest (decode_client_message serde b payload) heard
      receive-IsHonest Frame.close heard = record { held = honest.held; session = honest.session }
      receive-IsHonest other heard = honest

  update-IsHonest :
      (H : ℕ → ClientMessage Uuid Json → List ℕ → ℕ → Type 0) (f : ℕ → Connection Uuid) (i : ℕ)
      (conn : Connection Uuid)
      → ((j : ℕ) → IsHonest b c (H j) (f j))
      → IsHonest b c (H i) conn
      → (j : ℕ) → IsHonest b c (H j) (update f i conn j)
  update-IsHonest H f i conn h k j = elim (eq? j i) [
    | yes same ↦ rw (if_pos (eq? j i) same) (subst (λ l. IsHonest b c (H l) conn) (sym same) k)
    | no differs ↦ rw (if_neg (eq? j i) differs) (h j)
  ]

  later-IsHonest :
      (H K : ClientMessage Uuid Json → List ℕ → ℕ → Type 0) (conn : Connection Uuid)
      → ((m : ClientMessage Uuid Json) (n : List ℕ) (t : ℕ) → H m n t → K m n t)
      → IsHonest b c H conn
      → IsHonest b c K conn
  later-IsHonest H K conn more h = record {
    held = later-IsOwnedState b c H K more conn.authenticator.state h.held;
    session = later-IsOwnedIfAny b c H K more conn.session h.session;
  }

  module _ {serde : SerdeJson Uuid Json} where
    Reach-IsHonest :
        {sys : System Uuid} (reach : Reach b c serde sys) (i : ℕ)
        → IsHonest b c (Heard serde reach i) (sys.connection i)
    unfolding finish
    Reach-IsHonest start = λ i. record { held = tt; session = tt }
    Reach-IsHonest (next {s = s} r (accept i h)) =
        update-IsHonest (Heard serde r) s.connection i accepted (Reach-IsHonest r)
          (record { held = tt; session = tt })
    Reach-IsHonest (next {s = s} r (read i frame ambient h)) =
        let H = Heard serde (next r (read i frame ambient h)) in
        let before : (j : ℕ) → IsHonest b c (H j) (s.connection j) = λ j.
          later-IsHonest (Heard serde r j) (H j) (s.connection j) (λ m n t q. inr q)
            (Reach-IsHonest r j) in
        update-IsHonest H s.connection i _ before (
          receive-IsHonest (H i) serde s.server (s.connection i) i ambient (before i) frame
            (λ m q. inl (refl, q, refl, refl)))
    Reach-IsHonest (next {s = s} r (hang_up i h)) =
        let before = Reach-IsHonest r in
        update-IsHonest (Heard serde r) s.connection i _ before
          (record { held = (before i).held; session = (before i).session })
    Reach-IsHonest (next {s = s} r (Step.close i h)) =
        let before = Reach-IsHonest r in
        update-IsHonest (Heard serde r) s.connection i _ before
          (record { held = (before i).held; session = tt })

    -- A connection has a session only after it has itself read, since the server began, an
    -- identification as the session's user under the server's protocol version, and a response whose
    -- signature verifies under that user's key, over the nonce and the server's time of the very
    -- round that read the identification. The session's name is made of the key.
    pub session-IsOwned :
        {sys : System Uuid} (reach : Reach b c serde sys) (i : ℕ) (s : Session Uuid)
        → (sys.connection i).session ≡ some s
        → IsOwned b c (Heard serde reach i) s
    session-IsOwned reach i s has =
        subst (IsOwnedIfAny b c (Heard serde reach i)) has (Reach-IsHonest reach i).session

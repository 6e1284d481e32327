-- ===== src/Runtime/Spec/Steps.antt =====
-- The promise of the whole server of server/src/main.rs, as steps between the states of its
-- connections alone, each with what every channel gets.
use vtnet.Base.{
  ℕ, Eq, nat_eq, ◌==◌, ◌≡◌, none, some, List, [], ◌∷◌, false, true, if◌then◌else◌, ok, err,
}
use vtnet.Text.{Text}
use vtnet.External.{Base64, Ed25519}
use vtnet.Shared.Uid.{UserUid}
use vtnet.Shared.Messages.{ClientMessage, ServerMessage, auth_failure, invalid_credentials}
use vtnet.Shared.Wire.{SerdeJson}
use vtnet.Room.Session.{Session}
use vtnet.Auth.{
  ConnectionAuthenticator, AuthenticationResult, handle_message, take_authenticated_session,
}
use vtnet.Transport.{WebSocketMessageError, decode_client_message}
use vtnet.Runtime.Connection.{
  Connection, absent, running, ended, gone, Frame, text, close, other, Ambient, accepted,
  unix_timestamp_millis, message_of,
}
use vtnet.Runtime.System.{update}
use vtnet.Runtime.Spec.{spec_session, spec_sent, spec_farewell}

-- What every channel gets.
abbrev pub Posts : Type 0 → Type 0 → Type 0
Posts Uuid Json = ℕ → List (ServerMessage Uuid Json)

abbrev pub IsQuiet : {Uuid Json : Type 0} → Posts Uuid Json → Type 0
IsQuiet posts = (j : ℕ) → posts j ≡ []

-- What a step is about: a connection is opened, its loop reads a frame, its stream ends, or it is
-- over.
pub data Event : Type 0 where
  opened : ℕ → Event
  received : ℕ → Frame → Ambient → Event
  hung_up closed : ℕ → Event

-- Only one channel gets something: one message.
abbrev pub IsReply : {Uuid Json : Type 0} → ℕ → ServerMessage Uuid Json → Posts Uuid Json → Type 0
IsReply i message posts = (j : ℕ) → posts j ≡ (if i == j then message ∷ [] else [])

module _ {Uuid : Type 0} where
  -- Some connection has a session of the user.
  abbrev pub IsOnline : (ℕ → Connection Uuid) → UserUid → Type 0
  IsOnline conns u = (j : ℕ) × (t : Session Uuid) × ((conns j).session ≡ some t) × (t.user_uid ≡ u)

module _ {Uuid Json : Type 0} ⦃e : Eq Uuid⦄ (b : Base64) (c : Ed25519)
    (serde : SerdeJson Uuid Json) where
  -- The answer of the connection's authenticator to a message, and what it then hands out.
  abbrev pub answer :
      Connection Uuid
      → ClientMessage Uuid Json
      → Ambient
      → ConnectionAuthenticator Uuid × AuthenticationResult Uuid Json
  answer conn m ambient =
      handle_message b c conn.authenticator m ambient.nonce
        (unix_timestamp_millis ambient.since_epoch) ambient.now

  abbrev pub answered : Connection Uuid → ClientMessage Uuid Json → Ambient → Connection Uuid
  answered conn m ambient = record conn {
    authenticator = (take_authenticated_session (answer conn m ambient).0).0;
  }

  -- The connection reads the text of a message.
  abbrev pub IsHeard : ℕ → ClientMessage Uuid Json → Ambient → Event → Type 0
  IsHeard i m ambient event =
      (payload : Text) × (event ≡ received i (text payload) ambient)
      × (decode_client_message serde b payload ≡ ok m)

  abbrev pub IsEnd : ℕ → Event → Type 0
  IsEnd i (hung_up j) = j ≡ i
  IsEnd i (received j close ambient) = j ≡ i
  IsEnd i (received j (text payload) ambient) =
      (j ≡ i) × (x : WebSocketMessageError) × (decode_client_message serde b payload ≡ err x)
  IsEnd i _ = ⊥

  pub data Promise (conns : ℕ → Connection Uuid) (event : Event) (posts : Posts Uuid Json)
      : (ℕ → Connection Uuid) → Type 0 where
    -- A client comes.
    opens :
        (i : ℕ)
        → event ≡ opened i
        → (conns i).phase ≡ absent
        → IsQuiet posts
        → Promise conns event posts (update conns i accepted)
    -- A frame that is neither a text nor a close.
    skips :
        (i : ℕ) (ambient : Ambient)
        → event ≡ received i other ambient
        → (conns i).phase ≡ running
        → IsQuiet posts
        → Promise conns event posts (update conns i (conns i))
    -- The stream ends, or a close frame or a text that is no message is read.
    ends :
        (i : ℕ)
        → IsEnd i event
        → (conns i).phase ≡ running
        → IsQuiet posts
        → Promise conns event posts (update conns i (record (conns i) { phase = ended }))
    -- A message of a session.
    handles :
        (i : ℕ) (m : ClientMessage Uuid Json) (ambient : Ambient) (s : Session Uuid)
        → (conns i).phase ≡ running
        → IsHeard i m ambient event
        → (conns i).session ≡ some s
        → ((j : ℕ)
            → posts j
              ≡ spec_sent
                  (λ k. (conns k).session)
                  i
                  s
                  m
                  (unix_timestamp_millis ambient.since_epoch)
                  j)
        → Promise conns event posts
            (update conns i (record (conns i) { session = some (spec_session m s) }))
    -- A message of the handshake that makes no session.
    replies :
        (i : ℕ) (m : ClientMessage Uuid Json) (ambient : Ambient)
        → (conns i).phase ≡ running
        → IsHeard i m ambient event
        → (conns i).session ≡ none
        → (take_authenticated_session (answer (conns i) m ambient).0).1 ≡ none
        → IsReply i (message_of (answer (conns i) m ambient).1) posts
        → Promise conns event posts (update conns i (answered (conns i) m ambient))
    -- One that makes a session, of a user who is not online.
    admits :
        (i : ℕ) (m : ClientMessage Uuid Json) (ambient : Ambient) (s : Session Uuid)
        → (conns i).phase ≡ running
        → IsHeard i m ambient event
        → (conns i).session ≡ none
        → (take_authenticated_session (answer (conns i) m ambient).0).1 ≡ some s
        → ¬ IsOnline conns s.user_uid
        → IsReply i (message_of (answer (conns i) m ambient).1) posts
        → Promise conns event posts (
            update conns i
              (record (answered (conns i) m ambient) { session = some s; is_registered = true }))
    -- One that would make a session of a user who is online.
    refuses :
        (i : ℕ) (m : ClientMessage Uuid Json) (ambient : Ambient) (s : Session Uuid)
        → (conns i).phase ≡ running
        → IsHeard i m ambient event
        → (conns i).session ≡ none
        → (take_authenticated_session (answer (conns i) m ambient).0).1 ≡ some s
        → IsOnline conns s.user_uid
        → IsReply i (auth_failure invalid_credentials) posts
        → Promise conns event posts
            (update conns i (record (answered (conns i) m ambient) { phase = ended }))
    -- The end of a connection that has a session.
    leaves :
        (i : ℕ) (s : Session Uuid)
        → event ≡ closed i
        → (conns i).phase ≡ ended
        → (conns i).session ≡ some s
        → ((j : ℕ) → posts j ≡ spec_farewell (λ k. (conns k).session) i s j)
        → Promise conns event posts (
            update conns i
              (record (conns i) { phase = gone; session = none; is_registered = false }))
    -- The end of one that has none.
    vanishes :
        (i : ℕ)
        → event ≡ closed i
        → (conns i).phase ≡ ended
        → (conns i).session ≡ none
        → IsQuiet posts
        → Promise conns event posts (
            update conns i
              (record (conns i) { phase = gone; session = none; is_registered = false }))

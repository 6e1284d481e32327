-- ===== src/Runtime/Connection.antt =====
-- `handle_socket` of server/src/main.rs: the loop of one connection, a frame at a time. The channel
-- is the connection's number; the random nonce and the two clocks are arguments.
use vtnet.Base.{
  ℕ, Eq, Bool, true, false, Option, none, some, List, [], ◌∷◌, Result, ok, err, if◌then◌else◌, ◌-◌,
  ◌^◌, ◌/◌,
}
use Prim.Native.Nat.{min}
use vtnet.Text.{Text}
use vtnet.External.{Base64, Ed25519}
use vtnet.Collections.Map
use vtnet.Shared.Uid.{uid_eq}
use vtnet.Shared.Messages.{ClientMessage, ServerMessage, auth_failure, invalid_credentials}
use vtnet.Shared.Wire.{SerdeJson}
use vtnet.Room.Session.{Session}
use vtnet.Auth.{
  ConnectionAuthenticator, AuthenticationResult, reply, new_authenticator, handle_message,
  take_authenticated_session,
}
use vtnet.Transport.{WebSocketMessageError, decode_client_message}
use vtnet.Runtime.{ServerState, Sent, handle_authenticated_message, disconnect_session}

abbrev pub server_name : Text
server_name = b'V' ∷ b'T' ∷ b'N' ∷ b'e' ∷ b't' ∷ []

-- `axum::extract::ws::Message`, as the loop tells its cases apart.
pub data Frame : Type 0 where
  text : Text → Frame
  close : Frame
  -- binary, ping and pong
  other : Frame

-- Before the upgrade; in the loop; after the loop, with the session still registered; gone.
pub data Phase : Type 0 where
  absent running ended gone : Phase

pub record Connection (Uuid : Type 0) : Type 0 where
  pub phase : Phase
  pub authenticator : ConnectionAuthenticator Uuid
  pub session : Option (Session Uuid)
  pub is_registered : Bool

-- A slot that no client has used yet, and what `handle_socket` begins with.
abbrev pub unused : {Uuid : Type 0} → Connection Uuid
unused = record {
  phase = absent;
  authenticator = new_authenticator server_name;
  session = none;
  is_registered = false;
}

abbrev pub accepted : {Uuid : Type 0} → Connection Uuid
accepted = record unused { phase = running }

abbrev pub u64_max : ℕ
u64_max = 2 ^ 64 - 1

unfoldable pub unix_timestamp_millis : Option ℕ → ℕ
unix_timestamp_millis none = 0
unix_timestamp_millis (some duration) = min (duration / 1_000_000) u64_max

-- What one round of the loop reads from outside.
pub record Ambient : Type 0 where
  pub nonce : List ℕ
  -- `SystemTime::now().duration_since(UNIX_EPOCH)`, in nanoseconds, if it is no error
  pub since_epoch : Option ℕ
  pub now : ℕ

abbrev pub message_of :
    {Uuid Json : Type 0} → AuthenticationResult Uuid Json → ServerMessage Uuid Json
message_of (reply message) = message
message_of (AuthenticationResult.authenticated message) = message

module _ {Uuid Json : Type 0} ⦃e : Eq Uuid⦄ where
  -- The end of a handshake round: a session that the authenticator hands out is registered, unless
  -- its identity is connected already.
  unfoldable pub admit :
      ServerState Uuid
      → Connection Uuid
      → ℕ
      → ServerMessage Uuid Json
      → Option (Session Uuid)
      → ServerState Uuid × Connection Uuid × Sent Uuid Json
  admit state connection channel message none = (state, connection, (channel, message) ∷ [])
  admit state connection channel message (some session) =
      if Map.contains_key session.user_uid state.connections
      then (
        state,
        record connection { phase = ended },
        (channel, auth_failure invalid_credentials) ∷ [],
      )
      else (
        record state { connections = Map.insert session.user_uid channel state.connections },
        record connection { session = some session; is_registered = true },
        (channel, message) ∷ [],
      )

  module _ (b : Base64) (c : Ed25519) (serde : SerdeJson Uuid Json) where
    -- A decoded message, before and after authentication.
    unfoldable pub receive_message :
        ServerState Uuid
        → Connection Uuid
        → ℕ
        → Ambient
        → ClientMessage Uuid Json
        → Option (Session Uuid)
        → ServerState Uuid × Connection Uuid × Sent Uuid Json
    unfolding admit
    receive_message state connection channel ambient message (some session) =
        let (state', session', sent) =
          handle_authenticated_message state session message
            (unix_timestamp_millis ambient.since_epoch) in
        (state', record connection { session = some session' }, sent)
    receive_message state connection channel ambient message none =
        let (authenticator, result) =
          handle_message b c connection.authenticator message ambient.nonce
            (unix_timestamp_millis ambient.since_epoch) ambient.now in
        let (authenticator', taken) = take_authenticated_session authenticator in
        admit state (record connection { authenticator = authenticator' }) channel
          (message_of result) taken

    unfoldable pub receive_decoded :
        ServerState Uuid
        → Connection Uuid
        → ℕ
        → Ambient
        → Result (ClientMessage Uuid Json) WebSocketMessageError
        → ServerState Uuid × Connection Uuid × Sent Uuid Json
    receive_decoded state connection channel ambient (err _) =
        (state, record connection { phase = ended }, [])
    receive_decoded state connection channel ambient (ok message) =
        receive_message state connection channel ambient message connection.session

    -- One round of the loop.
    unfoldable pub receive :
        ServerState Uuid
        → Connection Uuid
        → ℕ
        → Ambient
        → Frame
        → ServerState Uuid × Connection Uuid × Sent Uuid Json
    unfolding receive_decoded
    receive state connection channel ambient (text payload) =
        receive_decoded state connection channel ambient (decode_client_message serde b payload)
    receive state connection channel ambient close =
        (state, record connection { phase = ended }, [])
    receive state connection channel ambient other = (state, connection, [])

  unfoldable pub finish_session :
      ServerState Uuid → Bool → Option (Session Uuid) → ServerState Uuid × Sent Uuid Json
  finish_session state is_registered none = (state, [])
  finish_session state is_registered (some session) =
      if is_registered then disconnect_session state session else (state, [])

  -- After the loop: a registered session is disconnected, and the locals of the loop are dropped.
  unfoldable pub finish :
      ServerState Uuid → Connection Uuid → ServerState Uuid × Connection Uuid × Sent Uuid Json
  unfolding finish_session
  finish state connection =
      let (state', sent) = finish_session state connection.is_registered connection.session in
      (state', record connection { phase = gone; session = none; is_registered = false }, sent)

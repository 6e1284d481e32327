-- ===== src/Frontend.antt =====
-- client/src/App.tsx: the state of the page, what its handlers read of a message, and what they do.
-- Texts of JavaScript are taken as their characters. The handlers return the effects on the socket,
-- the media and the shell in order; what answers an effect comes in through a handler of its own.
pub mod Script
pub mod Uuid
pub mod Messages
pub mod Typed
pub mod Page
pub mod Machine
pub mod Silence
pub mod Envelopes
pub mod Sent
pub mod Link
pub mod Rooms
pub mod Signal
pub mod Early
pub mod Chat
pub mod Login
pub mod Texts
use vtnet.Base.{
  ℕ, Bool, true, false, Option, none, some, List, [], ◌∷◌, ◌++◌, text_eq, if◌then◌else◌,
}
use vtnet.Text.{Text, codes}
use vtnet.Shared.Json.{Value, Fields, envelope}
use vtnet.Collections.Set

-- `SERVER_URL`, `PROTOCOL_VERSION`
abbrev pub server_url : Text
server_url = codes "ws://127.0.0.1:3000/ws"

abbrev pub protocol_version : ℕ
protocol_version = 1

pub data ConnectionStatus : Type 0 where
  disconnected connecting authenticating connected : ConnectionStatus

-- What `setErrorMessage` is called with.
pub data ErrorMessage : Type 0 where
  could_not_load_identity microphone_required invalid_protocol_message : ErrorMessage
  challenge_incomplete could_not_sign challenge_expired authentication_rejected : ErrorMessage
  could_not_connect enter_valid_uuid : ErrorMessage

pub record ChatMessage : Type 0 where
  pub sender_name : Text
  pub text : Text
  pub timestamp : Value

-- `WebSocket.readyState`, until the close event.
pub data ReadyState : Type 0 where
  socket_connecting socket_open socket_closing : ReadyState

pub record State : Type 0 where
  -- `socketRef.current`
  pub socket : Option ReadyState
  -- `activeRoomRef.current`
  pub active_room_ref : Option Text
  -- whether `localStreamRef.current` is there
  pub local_stream : Bool
  -- the keys of `peerConnectionsRef.current` and of `remoteAudioRef.current`
  pub peer_connections : List Text
  pub remote_audio : List Text
  -- `identity?.user_uid`, and as the handlers of the socket have captured it
  pub identity : Option Text
  pub captured_identity : Option Text
  pub connection_status : ConnectionStatus
  pub active_room_id : Option Text
  pub room_id_input : Text
  pub text_input : Text
  pub messages : List ChatMessage
  pub is_muted : Bool
  pub error_message : Option ErrorMessage

-- The initial values of `useState` and `useRef`.
abbrev pub initial : State
initial = record {
  socket = none;
  active_room_ref = none;
  local_stream = false;
  peer_connections = [];
  remote_audio = [];
  identity = none;
  captured_identity = none;
  connection_status = disconnected;
  active_room_id = none;
  room_id_input = [];
  text_input = [];
  messages = [];
  is_muted = false;
  error_message = none;
}

pub data Effect : Type 0 where
  -- `socket.send(JSON.stringify(..))`
  send : Value → Effect
  close_websocket : Effect
  -- `new WebSocket(SERVER_URL)`
  open_websocket : Text → Effect
  -- `invoke("get_or_create_identity")`
  get_identity : Effect
  -- `invoke("sign_auth_challenge", ..)`, with the nonce and the time
  sign_auth_challenge : Text → Value → Effect
  -- `getUserMedia`, for a join of the room
  get_microphone : Text → Effect
  -- `createOffer` and `setLocalDescription`, for a peer in a room
  create_offer : Text → Value → Effect
  -- `setRemoteDescription`, with the peer, the type and the description
  set_remote_description : Text → Text → Text → Effect
  -- `addIceCandidate`
  add_ice_candidate : Text → Value → Effect

-- What a handler leaves, and what it asks for.
abbrev pub Outcome : Type 0
Outcome = State × List Effect

-- `socketRef.current?.close()`
unfoldable pub close_socket : State → Outcome
close_socket s = elim s.socket [
  | none ↦ (s, [])
  | some _ ↦ (record s { socket = some socket_closing }, close_websocket ∷ [])
]

-- `sendMessage`, with whether it was sent.
unfoldable pub send_message : State → Text → Fields → List Effect × Bool
send_message s event payload = elim s.socket [
  | some socket_open ↦ (send (envelope event payload) ∷ [], true)
  | _ ↦ ([], false)
]

-- `cleanupMedia`
unfoldable pub cleanup_media : State → State
cleanup_media s = record s {
  peer_connections = [];
  remote_audio = [];
  local_stream = false;
  is_muted = false;
}

-- `peerConnection`: the peer's connection, made if there is none.
unfoldable pub peer_connection : State → Text → State
peer_connection s peer_uid =
    if Set.contains peer_uid s.peer_connections
    then s
    else record s { peer_connections = s.peer_connections ++ peer_uid ∷ [] }

-- `removePeer`
unfoldable pub remove_peer : State → Text → State
remove_peer s peer_uid = record s {
  peer_connections = Set.without peer_uid s.peer_connections;
  remote_audio = Set.without peer_uid s.remote_audio;
}

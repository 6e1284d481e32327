-- ===== src/Lib.antt =====
-- VTNet: the voice and text rooms of a Rust server, the protocol that it shares with its clients, the
-- identity of a client, and the page that a user sees.
--
-- Parts, with the repository's paths and the files that model them:
--
--   shared/src/lib.rs            Shared/Uid (UserUid and its Base64 form), Shared/Content
--                                (RoomTextContent::new), Shared/Payload (auth_signature_payload),
--                                Shared/Messages (ClientMessage, ServerMessage), Shared/Wire (their
--                                derived and hand-written Serialize and Deserialize), Shared/Json
--                                (the JSON values that their serde attributes determine)
--   server/src/transport.rs      Transport (decode_client_message, encode_server_message)
--   server/src/lib.rs            Room/Session, Room/Permission, Room/Registry (RoomRegistry with
--                                join_voice_room and leave_voice_room), Room/Routing
--                                (route_client_room_message and the ensure_* functions)
--   server/src/auth.rs           Auth (ConnectionAuthenticator)
--   server/src/main.rs           Runtime (handle_authenticated_message, disconnect_session,
--                                send_to_users), Runtime/Connection (one round of handle_socket),
--                                Runtime/System (all connections, interleaved), Runtime/Network
--                                (their channels and writer tasks)
--   client/src-tauri/src/identity.rs   Client (get_or_create_identity, sign_auth_challenge)
--   client/src-tauri/src/lib.rs        Client/Commands (run: the dispatch of the two commands)
--   client/src/App.tsx           Frontend (the state of App and its helpers), Frontend/Script (what it
--                                asks of JSON values and strings), Frontend/Messages
--                                (handleServerMessage), Frontend/Page (connect, joinRoom, sendText and
--                                the other handlers), Frontend/Machine (all of them, as inputs)
--
-- Frontend/Login, Chat, Signal, Rooms and Texts of that folder are about page and server together,
-- over Frontend/Link, which says how each reads the other's frames; Runtime/Told is what they need of
-- the server.
--
-- Base, Collections and Text hold what these share: tests and equality, HashSet and HashMap as lists,
-- the characters of a String. Files below a part hold its theorems, Tests the theorems at concrete
-- inputs, UnitTests the repository's own unit tests, with what they draw as arguments. Runtime/Spec
-- says what the server promises, with nothing but the sessions of its connections: no table, no
-- registry, no order; Runtime/Refinement relates the code to it.
--
-- A client's frame is decoded by Transport, which applies the Deserialize of Shared. Until a session
-- is there the message goes to the connection's ConnectionAuthenticator, with a random nonce and the
-- time; an authenticated session is registered in the shared ServerState, from where its messages go
-- to the handlers. They change the RoomRegistry and the session together, and put messages on the
-- channels of other connections. When the loop of a connection ends, its session is removed again.
--
-- State and its changes: a method that takes &mut self returns the new value beside its result. The
-- code locks the shared state once in each round of a connection's loop, and once after the loop, so
-- Runtime/System takes those as its atomic steps; the list of messages that a step puts on channels
-- is part of its result, and a sender is the number of its connection. Runtime/Network runs the
-- channels beside that: a step posts its messages, and a writer takes one at a time, in any
-- interleaving; a writer that stops drops what is queued, and sends to it are lost, as the code
-- ignores their failure. HashMap is an association list of which `get` sees the first entry, HashSet
-- a list without repetition; no theorem depends on an order.
--
-- Numbers: bytes, characters and machine integers are natural numbers. The payload writes a u16 and a
-- u64 in big-endian bytes, modulo 256; what must fit its Rust type is a condition where a theorem needs
-- it (IsUid, IsArray, IsHandshake). The server's time saturates at 2^64 - 1, as in the source. An
-- instant is a number of nanoseconds, and duration_since stops at 0. There is no fuel: every loop of
-- the code is a recursion on a list.
--
-- The page keeps what React renders and what its refs hold as one state. A change of state is rendered
-- at once; only the effect that copies the active room into its ref is an input of its own. An await
-- ends a handler with an effect, and its answer is an input, so that anything may come between.
--
-- Crates are parameters (External, Shared/Wire, Frontend/Link): base64, ed25519_dalek, keyring and
-- serde_json are records of the calls that the program makes, and what is relied on is a named
-- hypothesis: Base64 decodes what it encodes, to bytes; a signature verifies under its own key and
-- survives its 64 bytes; a stored password is read back; serde_json reads back what it writes;
-- serde_json and the browser's JSON read each other's values of the shapes in Shared/Json, and a
-- script's numbers are exact up to 2^53. Uuid and serde_json::Value are type parameters, Uuid with a
-- decidable equality. Nothing is assumed about forged signatures.
--
-- Not modelled: main, the axum router and the TCP listener, which only start handle_socket; debug
-- output; of the Tauri shell, its window and plugins; of the frontend, its rendering and styles, and the
-- media streams and peer connections behind the effects; the text of a JSON value, and what derived
-- readers make of JSON that no part of the program writes, which serde and serde_json determine.
pub mod Base
pub mod Collections
pub mod Text
pub mod External
pub mod Shared
pub mod Transport
pub mod Room
pub mod Auth
pub mod Client
pub mod Frontend
pub mod Runtime
pub mod Tests
pub mod UnitTests

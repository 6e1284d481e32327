-- ===== src/Tests/Frontend.antt =====
-- A page of App.tsx beside the server of Tests/Server.
use vtnet.Base.{
  ◌⊎◌, ℕ, suc, zero, nat_eq, ◌*◌, ◌≡◌, ◌≢◌, ◌≤◌, ◌↔◌, refl, true, false, none, some, List, [], ◌∷◌,
  ok, All, replicate, arith, text_eq, List-discrete, ℕ_discrete, IsArray,
}
use vtnet.Text.{Text, len, len_utf8, codes}
use vtnet.Shared.Uid.{serialize}
use vtnet.Shared.Content.Laws.{IsContent}
use vtnet.Shared.Messages.{ClientMessage}
use vtnet.Shared.Wire.{ServerWire, ClientWire}
use vtnet.Shared.Json.{Value, number, server_to_value, client_to_value, string}
use vtnet.Transport.{decode_client_message, max_websocket_text_bytes}
use vtnet.Runtime.{ServerState}
use vtnet.Runtime.Connection.{server_name, Connection, Ambient, text, ended, absent, receive}
use vtnet.Frontend.{State, initial, send, connected, socket_open, create_offer}
use vtnet.Frontend.Script.{has_visible, utf16_len, is_script_space}
use vtnet.Frontend.Messages.{handle_server_message}
use vtnet.Frontend.Typed.{on_server_message, handle-server_to_value}
use vtnet.Frontend.Page.{send_text, type_text}
use vtnet.Frontend.Machine.{Input, message_received, description_set, rendered, step, run}
use vtnet.Frontend.Silence.{sends}
use vtnet.Frontend.Envelopes.{IsClientJson}
use vtnet.Frontend.Sent.{IsRoomless, step-AreSent}
use vtnet.Frontend.Link.{server_view}
use vtnet.Frontend.Texts.{said, text_frame, text_frame-decode, long_text-Ends}
use vtnet.Frontend.Rooms.{page_room, HasGot}
use vtnet.Frontend.Login.{IsLogin, app_logs_in, identify_frame, response_frame}
use vtnet.Tests.Crates.{
  base64, base64-IsBase64, ed25519, ed25519-IsEd25519, keyring, serde, link, link-IsLink,
  write_server,
}
use vtnet.Tests.Server.{server, alice, bob, ambient, meeting-Reach}
use vtnet.Tests.Network.{nobody, nobody-Reach, nobody_there, network, reach_run, cons_waits}
use vtnet.Runtime.Network.{Network, new_network, take, Run, next, write, writing}
use vtnet.Runtime.System.{update}
use vtnet.Room.Session.{Session}
use vtnet.Auth.{default_display_name}
use vtnet.Client.{Process}
use vtnet.Client.Identity.{IsCached}
use vtnet.Runtime.Login.{response_to}
use vtnet.Frontend.Early.{arrives, joined, early_peer}

-- A page in the room 7.
abbrev pub page : State
page = record initial {
  socket = some socket_open;
  identity = some alice.bytes;
  captured_identity = some alice.bytes;
  connection_status = connected;
  active_room_id = some (link.uuid_text 7);
  active_room_ref = some (link.uuid_text 7);
}

abbrev message : ServerWire Text Value
message =
    ServerWire.broadcast_text_message (link.uuid_text 7) bob.bytes (codes "Bob") (codes "hi") 5000

handle-server_to_value_example :
    handle_server_message page (some (server_to_value message))
    ≡ ok (on_server_message page message)
handle-server_to_value_example = handle-server_to_value page message

-- The page has left its room while the offer of a peer was set.
abbrev outside : State
outside = record page { active_room_id = none; active_room_ref = none }

step-AreSent_example :
    All
      (λ v.
        IsClientJson v
        ⊎ IsRoomless outside (description_set bob.bytes (codes "offer") (codes "sdp")) v)
      (sends (step outside (description_set bob.bytes (codes "offer") (codes "sdp"))).1)
step-AreSent_example =
    step-AreSent outside (description_set bob.bytes (codes "offer") (codes "sdp"))

abbrev pub hi : Text
hi = codes "hi"

text_frame-decode_example :
    (decode_client_message serde base64 (text_frame link-IsLink base64 7 hi)
      ≡ ok (ClientMessage.send_text_message 7 (record { value = hi })))
    ↔ ((len (text_frame link-IsLink base64 7 hi) ≤ max_websocket_text_bytes)
        × IsContent (record { value = hi }))
text_frame-decode_example = text_frame-decode link-IsLink base64 7 hi

-- 1366 characters, each of three bytes.
abbrev euros : Text
euros = replicate 1366 0x20ac

euros_len : (n : ℕ) → len (replicate n 0x20ac) ≡ 3 * n
unfolding len len_utf8
euros_len zero = refl
euros_len (suc n) = omega (arith, euros_len n)

euros_utf16 : (n : ℕ) → utf16_len (replicate n 0x20ac) ≡ n
unfolding utf16_len
euros_utf16 zero = refl
euros_utf16 (suc n) = omega (arith, euros_utf16 n)

euros_visible : (n : ℕ) → has_visible (replicate (suc n) 0x20ac) ≡ true
unfolding has_visible is_script_space nat_eq ℕ_discrete
euros_visible n = refl

abbrev message_to_7 : Value
message_to_7 = client_to_value (ClientWire.send_text_message (link.uuid_text 7) euros)

long_text-Ends_example :
    (send_text (type_text page euros) (number 0)
      ≡ (said page (link.uuid_text 7) euros (number 0), send message_to_7 ∷ []))
    × ((state : ServerState ℕ) (conn : Connection ℕ) (channel : ℕ) (ambient : Ambient)
        → receive base64 ed25519 serde state conn channel ambient
            (text (text_frame link-IsLink base64 7 euros))
          ≡ (state, record conn { phase = ended }, []))
long_text-Ends_example =
    long_text-Ends link-IsLink base64 ed25519 page 7 euros (number 0) refl refl (euros_visible 1365)
      (omega (arith, euros_utf16 1366)) (omega (arith, euros_len 1366))

-- Bob's writer writes all that was posted, and Bob's page gets it.
abbrev write_next : Network ℕ ℕ → Network ℕ ℕ
write_next net = record net {
  outbox = update net.outbox 1 (write serde base64 (net.outbox 1) true);
}

abbrev one : Network ℕ ℕ
one = write_next (network meeting-Reach)

abbrev two : Network ℕ ℕ
two = write_next one

abbrev all_written : Network ℕ ℕ
all_written = write_next two

all_written_run : Run base64 ed25519 serde new_network all_written
unfolding server meeting-Reach
all_written_run =
    next
      (next (next (reach_run meeting-Reach) (take 1 true refl (cons_waits _ _)))
        (take 1 true refl (cons_waits _ _)))
      (take 1 true refl (cons_waits _ _))

abbrev inputs : List Text → List Input
inputs [] = []
inputs (t ∷ ts) = message_received (link.parse t) ∷ rendered ∷ inputs ts

inputs-HasGot : (ts : List Text) → HasGot link (inputs ts) ts
inputs-HasGot [] = tt
inputs-HasGot (t ∷ ts) = (refl, inputs-HasGot ts)

abbrev pub bob_session : Session ℕ
bob_session = record {
  user_uid = bob;
  display_name = default_display_name bob;
  active_voice_room_id = some 7;
}

bob_is_in : (all_written.system.connection 1).session ≡ some bob_session
unfolding server
bob_is_in = refl

bob_wrote : (all_written.outbox 1).queue ≡ []
unfolding server meeting-Reach
bob_wrote = refl

writer_runs : (all_written.outbox 1).writer ≡ writing
unfolding server meeting-Reach
writer_runs = refl

page_room_example :
    (run initial (inputs (all_written.outbox 1).written)).0.active_room_id ≡ some (link.uuid_text 7)
page_room_example =
    page_room link link-IsLink base64 {c = ed25519} all_written_run 1 bob_session bob_is_in
      writer_runs bob_wrote initial (inputs (all_written.outbox 1).written) refl
      (inputs-HasGot (all_written.outbox 1).written)

abbrev process : Process keyring
process = record { cached_seed = some (1 ∷ []); is_poisoned = false; keyring = none }

process-IsCached : IsCached base64 keyring ed25519 process true
process-IsCached = record { seed = 1 ∷ []; cached = refl; unpoisoned = refl; key_eq = refl }

unused_slot : (nobody.connection 2).phase ≡ absent
unfolding server
unused_slot = refl

offline : (j : ℕ) (s : Session ℕ) → (nobody.connection j).session ≡ some s → s.user_uid ≢ alice
offline j s has = λ q. cc (nobody_there j, has)

nonce-IsArray : IsArray 32 ambient.nonce
nonce-IsArray = omega arith

identify_short : len (identify_frame link base64 ed25519 true) ≤ max_websocket_text_bytes
unfolding server client_to_value server_view serialize text_eq List-discrete ℕ_discrete
identify_short = omega arith

response_short :
    len (response_frame link (response_to base64 ed25519 true ambient)) ≤ max_websocket_text_bytes
unfolding server client_to_value server_view serialize text_eq List-discrete ℕ_discrete
response_short = omega arith

abbrev welcome : Text
welcome =
    write_server
      (ServerWire.auth_success (serialize base64 alice) (default_display_name alice) server_name)

app_logs_in_example :
    IsLogin base64-IsBase64 ed25519-IsEd25519 link-IsLink keyring true ambient ambient process []
      initial
      (0 ∷ 5_000 ∷ ambient.nonce)
      welcome
      nobody
      2
unfolding server
app_logs_in_example =
    app_logs_in base64-IsBase64 ed25519-IsEd25519 link-IsLink keyring true ambient ambient process
      [] process-IsCached nonce-IsArray (omega arith) (omega arith) nobody-Reach 2 unused_slot
      offline (0 ∷ 5_000 ∷ ambient.nonce) refl welcome refl initial identify_short response_short

early_peer_example :
    (run initial (
        arrives (ServerWire.voice_room_joined hi)
        ∷ rendered
        ∷ arrives (ServerWire.peer_joined_room hi bob.bytes hi)
        ∷ [])
      ≡ (
        record (joined initial hi) { active_room_ref = some hi; peer_connections = bob.bytes ∷ [] },
        create_offer bob.bytes (string hi) ∷ [],
      ))
    × (run initial (
          arrives (ServerWire.voice_room_joined hi)
          ∷ arrives (ServerWire.peer_joined_room hi bob.bytes hi)
          ∷ [])
        ≡ (joined initial hi, []))
early_peer_example = early_peer initial hi bob.bytes hi refl refl

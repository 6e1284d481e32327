-- ===== src/Frontend/Rooms.antt =====
-- The room that App.tsx shows, against the room that the server has the user in.
use mathlib.Core.List.{append-nil}
use vtnet.Base.{
  ℕ, Eq, ◌≡◌, refl, sym, ◌∙◌, ap, Option, none, some, List, [], ◌∷◌, arith, Option-cases, inl, inr,
}
use vtnet.Text.{Text}
use vtnet.External.{Base64, Ed25519}
use vtnet.Room.Session.{Session}
use vtnet.Shared.Messages.{ServerMessage}
use vtnet.Shared.Wire.{SerdeJson, server_to_wire}
use vtnet.Shared.Json.{Value}
use vtnet.Transport.{encode_server_message}
use vtnet.Runtime.Network.{Network, new_network, Run, posted, writing}
use vtnet.Runtime.Network.Order.{Encodes, posted-IsOrdered}
use vtnet.Runtime.Told.{told, told-append}
use vtnet.Runtime.Told.Rooms.{posted-IsTold}
use vtnet.Frontend.{State, close_socket, cleanup_media, peer_connection, remove_peer}
use vtnet.Frontend.Typed.{on_server_message, handle-server_to_value}
use vtnet.Frontend.Page.{
  press_connect, connect, identified, opened, signed, offered, described, found_candidate,
  submit_room, join_room, join_after_audio, microphone, press_leave, type_text, send_text, say,
  press_disconnect, type_room,
}
use vtnet.Frontend.Machine.{Input, message_received, socket_closed, step, run}
use vtnet.Frontend.Link.{Link, page_view, IsLink}
use vtnet.Frontend.Script.{as_object}

-- An input other than a message and the end of the socket.
abbrev IsOther : Input → Type 0
IsOther (message_received message) = ⊥
IsOther socket_closed = ⊥
IsOther _ = Unit {0}

close_socket-room : (s : State) → (close_socket s).0.active_room_id ≡ s.active_room_id
unfolding close_socket
close_socket-room s = ground arith

send_text-room : (s : State) (now : Value) → (send_text s now).0.active_room_id ≡ s.active_room_id
unfolding send_text say
send_text-room s now = ground arith

step-room :
    (s : State) (input : Input) → IsOther input → (step s input).0.active_room_id ≡ s.active_room_id
unfolding step press_connect connect identified opened signed offered described found_candidate
    submit_room join_room join_after_audio microphone press_leave press_disconnect type_room
    type_text cleanup_media
step-room s (Input.identity_loaded o) h = ground arith
step-room s Input.rendered h = refl
step-room s Input.unmounted h = close_socket-room s
step-room s Input.connect_pressed h = ground arith
step-room s Input.disconnect_pressed h = ground (arith, close_socket-room s)
step-room s (Input.room_typed r) h = ground arith
step-room s Input.leave_pressed h = ground arith
step-room s Input.mute_pressed h = ground arith
step-room s (Input.identity_found o) h = ground arith
step-room s (Input.challenge_signed o) h = ground arith
step-room s (Input.description_set p k q) h = ground arith
step-room s (Input.candidate_found p k) h = ground arith
step-room s (Input.microphone_answered r k) h = ground arith
step-room s (Input.text_typed r) h = ground arith
step-room s Input.room_submitted h = ground arith
step-room s (Input.text_submitted r) h = send_text-room s r
step-room s (message_received m) h = elim h [ ]
step-room s socket_closed h = elim h [ ]
step-room s _ h = refl

module _ {Uuid Json : Type 0} (l : Link Uuid Json) where
  abbrev pub room_text : Option Uuid → Option Text
  room_text none = none
  room_text (some room) = some (l.uuid_text room)

  -- The page has got these frames, each as `JSON.parse` reads it, and its socket has not closed.
  abbrev pub HasGot : List Input → List Text → Type 0
  HasGot [] [] = Unit {0}
  HasGot [] (t ∷ ts) = ⊥
  HasGot (message_received m ∷ rest) (t ∷ ts) = (m ≡ l.parse t) × HasGot rest ts
  HasGot (message_received m ∷ rest) [] = ⊥
  HasGot (socket_closed ∷ rest) ts = ⊥
  HasGot (_ ∷ rest) ts = HasGot rest ts

  message-room :
      (b : Base64) (s : State) (m : ServerMessage Uuid Json) (o : Option Uuid)
      → s.active_room_id ≡ room_text o
      → (on_server_message s (page_view l (server_to_wire b m))).0.active_room_id
        ≡ room_text (told o (m ∷ []))
  unfolding page_view server_to_wire cleanup_media peer_connection remove_peer close_socket
  message-room b s (ServerMessage.auth_challenge _ _) o h = h
  message-room b s (ServerMessage.auth_success _ _ _) o h = h
  message-room b s (ServerMessage.auth_failure reason) o h = close_socket-room _ ∙ h
  message-room b s (ServerMessage.voice_room_joined r) o h = refl
  message-room b s (ServerMessage.voice_room_left _) o h = refl
  message-room b s (ServerMessage.peer_joined_room r p n) o h = ground arith
  message-room b s (ServerMessage.peer_left_room r p) o h = ground arith
  message-room b s (ServerMessage.broadcast_text_message _ _ _ _ _) o h = ground arith
  message-room b s (ServerMessage.forward_web_rtc_sdp _ _ _ _) o h = ground arith
  message-room b s (ServerMessage.forward_web_rtc_ice _ _ c) o h =
      elim (Option-cases (as_object (some (l.value_of c)))) [
        | inl no_object ↦ rw no_object (ground arith)
        | inr (v, is_object) ↦ rw is_object (ground arith)
      ]

  told_one :
      (o : Option Uuid) (m : ServerMessage Uuid Json) (ms : List (ServerMessage Uuid Json))
      → told (told o (m ∷ [])) ms ≡ told o (m ∷ ms)
  told_one o m ms = sym (told-append o (m ∷ []) ms)

  module _ {serde : SerdeJson Uuid Json} (link : IsLink serde l) (b : Base64) where
    received-room :
        (s : State) (m : ServerMessage Uuid Json) (t : Text) (o : Option Uuid)
        → encode_server_message serde b m ≡ some t
        → s.active_room_id ≡ room_text o
        → (step s (message_received (l.parse t))).0.active_room_id ≡ room_text (told o (m ∷ []))
    unfolding step encode_server_message
    received-room s m t o e h =
        rw
          (
            link.parse-to_string (server_to_wire b m) t e,
            handle-server_to_value s (page_view l (server_to_wire b m)),
          )
          (message-room b s m o h)

    run-room :
        (inputs : List Input) (s : State) (ms : List (ServerMessage Uuid Json)) (ts : List Text)
        (o : Option Uuid)
        → Encodes serde b ms ts
        → HasGot inputs ts
        → s.active_room_id ≡ room_text o
        → (run s inputs).0.active_room_id ≡ room_text (told o ms)
    unfolding run
    run-room [] s [] [] o enc got h = h
    run-room [] s ms (t ∷ ts) o enc got h = elim got [ ]
    run-room [] s (n ∷ ns) [] o enc got h = elim enc [ ]
    run-room (message_received m ∷ rest) s ms [] o enc got h = elim got [ ]
    run-room (message_received m ∷ rest) s [] (t ∷ ts) o enc got h = elim enc [ ]
    run-room (message_received m ∷ rest) s (n ∷ ns) (t ∷ ts) o enc got h =
        run-room rest (step s (message_received m)).0 ns ts (told o (n ∷ [])) enc.1 got.1 (
          ap (λ v. (step s (message_received v)).0.active_room_id) got.0
          ∙ received-room s n t o enc.0 h)
        ∙ ap room_text (told_one o n ns)
    run-room (socket_closed ∷ rest) s ms ts o enc got h = elim got [ ]
    run-room (input ∷ rest) s ms ts o enc got h =
        run-room rest (step s input).0 ms ts o enc got (step-room s input tt ∙ h)

    module _ {c : Ed25519} ⦃e : Eq Uuid⦄ where
      -- If serde_json and the browser read each other's JSON: in every reachable network, the page
      -- of a connection with a session, whose writer runs and has written all that was posted, and
      -- that has got all of it, shows the room of the session, whatever else has happened on it
      -- since it was in no room, except that its socket closed.
      pub page_room :
          {net : Network Uuid Json}
          → Run b c serde new_network net
          → (i : ℕ) (s : Session Uuid) → (net.system.connection i).session ≡ some s
          → (net.outbox i).writer ≡ writing
          → (net.outbox i).queue ≡ []
          → (page : State) (inputs : List Input) → page.active_room_id ≡ none
          → HasGot inputs (net.outbox i).written
          → (run page inputs).0.active_room_id ≡ room_text s.active_voice_room_id
      page_room {net} r i s has alive empty page inputs nowhere got =
          let ordered = posted-IsOrdered b c serde r i in
          let all : posted b c serde r i ≡ ordered.done =
            ordered.split ∙ rw (empty, ordered.kept alive) (simp append-nil) in
          run-room inputs page ordered.done (net.outbox i).written none ordered.encoded got nowhere
          ∙ ap room_text (ap (told none) (sym all) ∙ (posted-IsTold r i).room s has)

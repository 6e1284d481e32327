-- ===== src/Frontend/Envelopes.antt =====
-- What App.tsx puts on the socket, as messages of the protocol, while descriptions have a room.
use vtnet.Base.{
  ◌≡◌, refl, ◌==◌, text_eq, Bool, true, false, Bool-cases, Option, none, some, List, [], ◌∷◌, All,
  if◌then◌else◌, inl, inr, arith, ◌&&◌, not,
}
use vtnet.Text.{Text, codes, is_empty}
use vtnet.Shared.Messages.{offer, answer}
use vtnet.Shared.Wire.{ClientWire}
use vtnet.Shared.Json.{Value, text_field, end, string, Fields, envelope, client_to_value}
use vtnet.Frontend.Script.{has_visible}
use vtnet.Frontend.{State, Effect, Outcome, send_message, connected, close_socket}
use vtnet.Frontend.Uuid.{is_uuid}
use vtnet.Frontend.Page.{
  press_connect, connect, identified, opened, signed, offered, described, found_candidate,
  submit_room, join_room, join_after_audio, microphone, press_leave, send_text, say,
  press_disconnect,
}
use vtnet.Frontend.Machine.{
  unmounted, connect_pressed, disconnect_pressed, socket_opened, challenge_signed, candidate_found,
  leave_pressed, mute_pressed, room_submitted, microphone_answered, text_submitted, identity_found,
  identity_loaded, Input, offer_made, description_set, message_received, step, text_typed,
}
use vtnet.Frontend.Silence.{sends, close_socket-sends, message-silent, unless_thrown-silent}
use vtnet.Frontend.Messages.{handle_server_message}

-- The JSON of a client's message.
abbrev pub IsClientJson : Value → Type 0
IsClientJson v = (w : ClientWire Text Value) × (v ≡ client_to_value w)

press_connect-sends : (s : State) → sends (press_connect s).1 ≡ []
unfolding press_connect connect
press_connect-sends s = ground arith

press_disconnect-sends : (s : State) → sends (press_disconnect s).1 ≡ []
unfolding press_disconnect
press_disconnect-sends s = ground (arith, close_socket-sends s)

pub send_message-sends :
    (s : State) (event : Text) (payload : Fields)
    → sends (send_message s event payload).0
      ≡ (if (send_message s event payload).1 then envelope event payload ∷ [] else [])
unfolding send_message
send_message-sends s event payload = ground arith

-- All values that are put on the socket are messages.
abbrev AreClientJson : List Effect → Type 0
AreClientJson effects = All IsClientJson (sends effects)

silent-AreClientJson : (effects : List Effect) → sends effects ≡ [] → AreClientJson effects
silent-AreClientJson effects e = rw e tt

send_message-AreClientJson :
    (s : State) (event : Text) (payload : Fields) (w : ClientWire Text Value)
    → envelope event payload ≡ client_to_value w
    → AreClientJson (send_message s event payload).0
send_message-AreClientJson s event payload w e =
    elim (Bool-cases (send_message s event payload).1) [
      | inl sent ↦ rw (send_message-sends s event payload, sent) ((w, e), tt)
      | inr unsent ↦ rw (send_message-sends s event payload, unsent) tt
    ]

if-AreClientJson :
    (c : Bool) (x y : Outcome)
    → AreClientJson x.1
    → AreClientJson y.1
    → AreClientJson (if c then x else y).1
if-AreClientJson true x y h k = h
if-AreClientJson false x y h k = k

in_room-AreClientJson :
    (s : State) (o : Option Text) (f : Text → Outcome)
    → ((r : Text) → AreClientJson (f r).1)
    → AreClientJson (elim o as (λ _. Outcome) [ none ↦ (s, []) | some r ↦ f r ]).1
in_room-AreClientJson s none f h = tt
in_room-AreClientJson s (some r) f h = h r

submit_room-AreClientJson : (s : State) → AreClientJson (submit_room s).1
unfolding submit_room join_room join_after_audio client_to_value
submit_room-AreClientJson s =
    elim (s.connection_status)
      as (λ k.
        AreClientJson (elim k as (λ _. Outcome) [ connected ↦ join_room s | _ ↦ (s, []) ]).1) [
          | connected ↦ if-AreClientJson (not (is_uuid s.room_id_input)) _ _ tt (
              if-AreClientJson s.local_stream _ _
                (send_message-AreClientJson s _ _ (ClientWire.join_voice_room s.room_id_input) refl)
                tt)
          | _ ↦ tt
        ]

say-AreClientJson : (s : State) (room : Text) (now : Value) → AreClientJson (say s room now).1
unfolding say client_to_value
say-AreClientJson s room now =
    let payload =
      text_field (codes "room_id") room (text_field (codes "text_content") s.text_input end) in
    if-AreClientJson (send_message s (codes "send_text_message") payload).1 _ _
      (send_message-AreClientJson s _ _ (ClientWire.send_text_message room s.text_input) refl)
      (send_message-AreClientJson s _ _ (ClientWire.send_text_message room s.text_input) refl)

send_text-AreClientJson : (s : State) (now : Value) → AreClientJson (send_text s now).1
unfolding send_text
send_text-AreClientJson s now = in_room-AreClientJson s s.active_room_id _ λ r.
    if-AreClientJson (not (is_empty r) && has_visible s.text_input) _ (s, [])
      (say-AreClientJson s r now) tt

-- The room of a session description is a string: of an offer as it was made, and of an answer as the
-- page is in a room.
abbrev pub IsInRoom : State → Input → Type 0
IsInRoom s (offer_made peer room sdp) = (r : Text) × (room ≡ string r)
IsInRoom s (description_set peer sdp_type sdp) = (r : Text) × (s.active_room_ref ≡ some r)
IsInRoom s _ = Unit {0}

-- Whatever happens, if the room of a description is a string, each value that is put on the socket is
-- the JSON of a message.
pub in_room-IsClientJson :
    (s : State) (input : Input) → IsInRoom s input → All IsClientJson (sends (step s input).1)
unfolding step opened signed offered described found_candidate press_leave identified microphone
    join_after_audio client_to_value
in_room-IsClientJson s (message_received message) h =
    silent-AreClientJson (step s (message_received message)).1
      (unless_thrown-silent s (handle_server_message s message) (message-silent s message))
in_room-IsClientJson s unmounted h = silent-AreClientJson (close_socket s).1 (close_socket-sends s)
in_room-IsClientJson s connect_pressed h =
    silent-AreClientJson (press_connect s).1 (press_connect-sends s)
in_room-IsClientJson s disconnect_pressed h =
    silent-AreClientJson (press_disconnect s).1 (press_disconnect-sends s)
in_room-IsClientJson s (text_typed t) h = in_room-AreClientJson s s.active_room_id _ λ r. tt
in_room-IsClientJson s (socket_opened uid) h =
    send_message-AreClientJson _ _ _ (ClientWire.auth_identify 1 uid) refl
in_room-IsClientJson s (challenge_signed none) h = tt
in_room-IsClientJson s (challenge_signed (some signature)) h =
    send_message-AreClientJson s _ _ (ClientWire.auth_response signature) refl
in_room-IsClientJson s (offer_made peer room sdp) (r, e) =
    send_message-AreClientJson s _ _ (ClientWire.send_web_rtc_sdp r peer offer sdp) (rw e refl)
in_room-IsClientJson s (description_set peer sdp_type sdp) (r, e) =
    elim (Bool-cases (sdp_type == codes "offer")) [
      | inl is_offer ↦ rw is_offer (
          send_message-AreClientJson s _ _ (ClientWire.send_web_rtc_sdp r peer answer sdp)
            (rw e refl))
      | inr no_offer ↦ rw no_offer tt
    ]
in_room-IsClientJson s (candidate_found peer candidate) h =
    in_room-AreClientJson s s.active_room_ref _ λ r.
      if-AreClientJson (is_empty r) (s, []) _ tt
        (send_message-AreClientJson s _ _ (ClientWire.send_web_rtc_ice r peer candidate) refl)
in_room-IsClientJson s leave_pressed h = in_room-AreClientJson s s.active_room_id _ λ r.
    if-AreClientJson (is_empty r) (s, []) _ tt
      (send_message-AreClientJson s _ _ (ClientWire.leave_voice_room r) refl)
in_room-IsClientJson s mute_pressed h = in_room-AreClientJson s s.active_room_id _ λ r. tt
in_room-IsClientJson s room_submitted h = submit_room-AreClientJson s
in_room-IsClientJson s (microphone_answered room granted) h =
    if-AreClientJson granted _ _
      (send_message-AreClientJson _ _ _ (ClientWire.join_voice_room room) refl) tt
in_room-IsClientJson s (text_submitted now) h = send_text-AreClientJson s now
in_room-IsClientJson s (identity_found none) h = tt
in_room-IsClientJson s (identity_found (some uid)) h = tt
in_room-IsClientJson s (identity_loaded none) h = tt
in_room-IsClientJson s (identity_loaded (some uid)) h = tt
in_room-IsClientJson s _ h = tt

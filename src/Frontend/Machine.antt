-- ===== src/Frontend/Machine.antt =====
-- App.tsx as a state machine: one input for each event, click and answer, and the runs over them.
use vtnet.Base.{text_eq, Bool, not, ◌++◌, Option, none, some, List, [], ◌∷◌, Result, ok, err}
use vtnet.Text.{Text}
use vtnet.Shared.Json.{Value}
use vtnet.Collections.Set
use vtnet.Frontend.Script.{Thrown}
use vtnet.Frontend.{
  State, Outcome, could_not_load_identity, could_not_connect, close_socket, cleanup_media,
}
use vtnet.Frontend.Messages.{handle_server_message}
use vtnet.Frontend.Page.{
  press_connect, press_disconnect, type_room, identified, opened, closed, signed, offered,
  described, found_candidate, submit_room, microphone, press_leave, type_text, send_text,
}

pub data Input : Type 0 where
  -- `get_or_create_identity` answers the first effect of the page.
  identity_loaded : Option Text → Input
  -- The effect on `activeRoomId` runs; the page is taken down.
  rendered unmounted : Input
  connect_pressed disconnect_pressed leave_pressed mute_pressed : Input
  identity_found : Option Text → Input
  socket_opened : Text → Input
  socket_failed socket_closed : Input
  -- A frame of the socket, as `JSON.parse` reads it.
  message_received : Option Value → Input
  challenge_signed : Option Text → Input
  offer_made : Text → Value → Text → Input
  description_set : Text → Text → Text → Input
  candidate_found : Text → Value → Input
  track_arrived : Text → Input
  microphone_answered : Text → Bool → Input
  room_typed text_typed : Text → Input
  room_submitted : Input
  text_submitted : Value → Input

-- An exception of the handler ends its promise, and nothing else.
abbrev pub unless_thrown : State → Result Outcome Thrown → Outcome
unless_thrown s (ok out) = out
unless_thrown s (err _) = (s, [])

unfoldable pub step : State → Input → Outcome
step s (identity_loaded none) = (record s { error_message = some could_not_load_identity }, [])
step s (identity_loaded (some user_uid)) = (record s { identity = some user_uid }, [])
step s rendered = (record s { active_room_ref = s.active_room_id }, [])
step s unmounted = let (s', effects) = close_socket s in (cleanup_media s', effects)
step s connect_pressed = press_connect s
step s disconnect_pressed = press_disconnect s
step s leave_pressed = press_leave s
step s mute_pressed = elim s.active_room_id [
  | none ↦ (s, [])
  | some _ ↦ (record s { is_muted = not s.is_muted }, [])
]
step s (identity_found found) = identified s found
step s (socket_opened user_uid) = opened s user_uid
step s socket_failed = (record s { error_message = some could_not_connect }, [])
step s socket_closed = (closed s, [])
step s (message_received message) = unless_thrown s (handle_server_message s message)
step s (challenge_signed answer) = signed s answer
step s (offer_made peer_uid room_id sdp) = offered s peer_uid room_id sdp
step s (description_set peer_uid sdp_type sdp) = described s peer_uid sdp_type sdp
step s (candidate_found peer_uid candidate) = found_candidate s peer_uid candidate
step s (track_arrived peer_uid) =
    (record s { remote_audio = Set.insert peer_uid s.remote_audio }, [])
step s (microphone_answered room_id granted) = microphone s room_id granted
step s (room_typed room_id) = (type_room s room_id, [])
step s (text_typed t) = elim s.active_room_id [ none ↦ (s, []) | some _ ↦ (type_text s t, []) ]
step s room_submitted = submit_room s
step s (text_submitted now) = send_text s now

-- The page after all inputs, and all effects in order.
unfoldable pub run : State → List Input → Outcome
unfolding step
run s [] = (s, [])
run s (input ∷ rest) =
    let (s', effects) = step s input in let (s'', later) = run s' rest in (s'', effects ++ later)

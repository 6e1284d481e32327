-- ===== src/Frontend/Page.antt =====
-- What App.tsx does on a click, a submitted form, an event of the socket or of a peer connection, and
-- where an `await` goes on; Machine has the page as a
-- state machine. A re-render follows a change of
-- state at once, but the effect that copies the active room into its ref is an input of its own.
use vtnet.Base.{
  ℕ, Bool, true, not, ◌&&◌, Option, none, some, [], ◌∷◌, ◌++◌, leb, ◌==◌, nat_eq, text_eq,
  if◌then◌else◌,
}
use vtnet.Text.{Text, codes, is_empty}
use vtnet.Shared.Json.{Value, number, Fields, end, field, text_field}
use vtnet.Frontend.Uuid.{is_uuid}
use vtnet.Frontend.Script.{nullable, has_visible, utf16_len}
use vtnet.Frontend.{
  State, Outcome, get_identity, open_websocket, get_microphone, disconnected, connecting,
  authenticating, connected, socket_connecting, socket_open, could_not_load_identity,
  could_not_sign, enter_valid_uuid, microphone_required, protocol_version, server_url, send_message,
  cleanup_media, close_socket,
}

-- A sent message, without what `sendMessage` returns.
abbrev pub sending : State → Text → Fields → Outcome
sending s event payload = (s, (send_message s event payload).0)

-- `connect`, the Connect button and, after `get_or_create_identity`, the rest.
unfoldable pub connect : State → Outcome
connect s = elim s.connection_status [
  | disconnected ↦ (
    record s {
      connection_status = connecting;
      error_message = none;
      captured_identity = s.identity;
    },
    get_identity ∷ [],
  )
  | _ ↦ (s, [])
]

unfoldable pub press_connect : State → Outcome
unfolding connect
press_connect s = elim s.identity [ none ↦ (s, []) | some _ ↦ connect s ]

unfoldable pub identified : State → Option Text → Outcome
identified s none = (
  record s { connection_status = disconnected; error_message = some could_not_load_identity },
  [],
)
identified s (some user_uid) = (
  record s { identity = some user_uid; socket = some socket_connecting },
  open_websocket server_url ∷ [],
)

-- The open event of the socket, with the uid that `connect` has got, and the close event.
unfoldable pub opened : State → Text → Outcome
opened s user_uid =
    sending (record s { socket = some socket_open; connection_status = authenticating })
      (codes "auth_identify")
      (field (codes "protocol_version") (number protocol_version)
        (text_field (codes "client_uid") user_uid end))

unfoldable pub closed : State → State
closed s = cleanup_media (record s {
  socket = none;
  active_room_ref = none;
  connection_status = disconnected;
  active_room_id = none;
  messages = [];
})

-- The Disconnect button, enabled unless disconnected, and the room's input, enabled while connected.
unfoldable pub press_disconnect : State → Outcome
press_disconnect s = elim s.connection_status [ disconnected ↦ (s, []) | _ ↦ close_socket s ]

unfoldable pub type_room : State → Text → State
type_room s room_id = elim s.connection_status [
  | connected ↦ record s { room_id_input = room_id }
  | _ ↦ s
]

-- `sign_auth_challenge` has answered.
unfoldable pub signed : State → Option Text → Outcome
signed s none = (record s { error_message = some could_not_sign }, [])
signed s (some signature) =
    sending s (codes "auth_response") (text_field (codes "signature_base64") signature end)

-- An offer is made for a peer of the room; a description is taken, and answered if it is an offer;
-- a candidate is found.
unfoldable pub offered : State → Text → Value → Text → Outcome
offered s peer_uid room_id sdp = sending s (codes "send_web_rtc_sdp") (
    field (codes "room_id") room_id (
      text_field (codes "target_uid") peer_uid
        (text_field (codes "sdp_type") (codes "offer") (text_field (codes "sdp_raw") sdp end))))

unfoldable pub described : State → Text → Text → Text → Outcome
described s peer_uid sdp_type sdp =
    if sdp_type == codes "offer"
    then sending s (codes "send_web_rtc_sdp") (
        field (codes "room_id") (nullable s.active_room_ref) (
          text_field (codes "target_uid") peer_uid (
            text_field (codes "sdp_type") (codes "answer") (text_field (codes "sdp_raw") sdp end))))
    else (s, [])

unfoldable pub found_candidate : State → Text → Value → Outcome
found_candidate s peer_uid candidate = elim s.active_room_ref [
  | none ↦ (s, [])
  | some room_id ↦
      if is_empty room_id
      then (s, [])
      else sending s (codes "send_web_rtc_ice") (
          text_field (codes "room_id") room_id
            (text_field (codes "target_uid") peer_uid (field (codes "candidate") candidate end)))
]

-- `joinRoom` up to the microphone, and after it.
unfoldable pub join_after_audio : State → Text → Outcome
join_after_audio s room_id =
    sending s (codes "join_voice_room") (text_field (codes "room_id") room_id end)

unfoldable pub join_room : State → Outcome
unfolding is_uuid join_after_audio
join_room s =
    if not (is_uuid s.room_id_input)
    then (record s { error_message = some enter_valid_uuid }, [])
    else if s.local_stream
    then join_after_audio s s.room_id_input
    else (s, get_microphone s.room_id_input ∷ [])

-- The form's button is enabled only while connected.
unfoldable pub submit_room : State → Outcome
unfolding join_room
submit_room s = elim s.connection_status [ connected ↦ join_room s | _ ↦ (s, []) ]

unfoldable pub microphone : State → Text → Bool → Outcome
unfolding join_after_audio
microphone s room_id granted =
    if granted
    then join_after_audio (record s { local_stream = true }) room_id
    else (record s { error_message = some microphone_required }, [])

-- The Leave button, enabled in a room.
unfoldable pub press_leave : State → Outcome
press_leave s = elim s.active_room_id [
  | none ↦ (s, [])
  | some room_id ↦
      if is_empty room_id
      then (s, [])
      else sending s (codes "leave_voice_room") (text_field (codes "room_id") room_id end)
]

-- The chat's input lets no more than 4096 UTF-16 units in: a longer text never becomes its value.
abbrev pub max_length : ℕ
max_length = 4096

unfoldable pub type_text : State → Text → State
type_text s t = if leb (utf16_len t) max_length then record s { text_input = t } else s

-- `sendText`, at the time that `Date.now()` gives.
unfoldable pub say : State → Text → Value → Outcome
say s room_id now =
    let (effects, sent) =
      send_message s (codes "send_text_message") (
        text_field (codes "room_id") room_id
          (text_field (codes "text_content") s.text_input end)) in
    if sent
    then (
      record s {
        messages =
            s.messages
            ++ record { sender_name = codes "You"; text = s.text_input; timestamp = now } ∷ [];
        text_input = [];
      },
      effects,
    )
    else (s, effects)

unfoldable pub send_text : State → Value → Outcome
unfolding say
send_text s now = elim s.active_room_id [
  | none ↦ (s, [])
  | some room_id ↦
      if not (is_empty room_id) && has_visible s.text_input then say s room_id now else (s, [])
]

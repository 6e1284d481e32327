-- ===== src/Frontend/Messages.antt =====
-- `handleServerMessage` of App.tsx, up to its first `await` in each branch. No two branches have the
-- same event, so a branch whose further tests fail does nothing, as its later branches do not apply.
use vtnet.Base.{not, ◌||◌, Option, none, some, [], ◌∷◌, ◌++◌, Result, ok, ◌>>=◌, if◌then◌else◌}
use vtnet.Text.{Text, codes}
use vtnet.Shared.Json.{Value}
use vtnet.Frontend.Script.{
  Thrown, property, property_of, is_text, as_text, as_number, as_object, is_same, nullable,
}
use vtnet.Frontend.{
  Outcome, State, close_socket, sign_auth_challenge, create_offer, set_remote_description,
  add_ice_candidate, connected, challenge_incomplete, challenge_expired, authentication_rejected,
  invalid_protocol_message, cleanup_media, peer_connection, remove_peer,
}

-- `message.payload[name]`
unfoldable pub payload_field : Text → Value → Result (Option Value) Thrown
unfolding property property_of
payload_field name message = do
  payload ← property (codes "payload") message
  property_of name payload

unfoldable pub on_auth_challenge : State → Option Text → Option Value → Outcome
on_auth_challenge s (some nonce_base64) (some server_timestamp) =
    (s, sign_auth_challenge nonce_base64 server_timestamp ∷ [])
on_auth_challenge s _ _ = (record s { error_message = some challenge_incomplete }, [])

abbrev pub on_auth_success : State → Outcome
on_auth_success s = (record s { connection_status = connected; error_message = none }, [])

unfoldable pub on_auth_failure : State → Option Value → Outcome
on_auth_failure s reason = close_socket (record s {
  error_message = some (
      if is_text reason (codes "request_expired")
      then challenge_expired
      else authentication_rejected);
})

unfoldable pub on_voice_room_joined : State → Option Text → Outcome
on_voice_room_joined s (some room_id) = (
  record s {
    peer_connections = [];
    remote_audio = [];
    active_room_id = some room_id;
    messages = [];
  },
  [],
)
on_voice_room_joined s none = (s, [])

unfoldable pub on_voice_room_left : State → Outcome
on_voice_room_left s = (cleanup_media (record s { active_room_id = none; messages = [] }), [])

unfoldable pub on_peer_joined_room : State → Option Text → Option Value → Outcome
on_peer_joined_room s (some peer_uid) room_id =
    if not (is_same room_id s.active_room_ref)
      || is_same (some (Value.string peer_uid)) s.captured_identity
    then (s, [])
    else (peer_connection s peer_uid, create_offer peer_uid (nullable s.active_room_ref) ∷ [])
on_peer_joined_room s none room_id = (s, [])

unfoldable pub on_peer_left_room : State → Option Text → Option Value → Outcome
on_peer_left_room s (some peer_uid) room_id =
    if is_same room_id s.active_room_ref then (remove_peer s peer_uid, []) else (s, [])
on_peer_left_room s none room_id = (s, [])

unfoldable pub on_sdp : State → Option Text → Option Text → Option Text → Option Value → Outcome
on_sdp s (some sender_uid) (some sdp_type) (some sdp_raw) room_id =
    if is_same room_id s.active_room_ref
    then (peer_connection s sender_uid, set_remote_description sender_uid sdp_type sdp_raw ∷ [])
    else (s, [])
on_sdp s _ _ _ room_id = (s, [])

unfoldable pub on_ice : State → Option Text → Option Value → Option Value → Outcome
on_ice s (some sender_uid) room_id (some candidate) =
    if is_same room_id s.active_room_ref
    then (peer_connection s sender_uid, add_ice_candidate sender_uid candidate ∷ [])
    else (s, [])
on_ice s _ room_id _ = (s, [])

unfoldable pub on_text : State → Option Value → Option Text → Option Text → Option Value → Outcome
on_text s room_id (some sender_name) (some content) (some server_timestamp) =
    if is_same room_id s.active_room_ref
    then (
      record s {
        messages =
            s.messages
            ++ record { sender_name = sender_name; text = content; timestamp = server_timestamp }
              ∷ [];
      },
      [],
    )
    else (s, [])
on_text s room_id _ _ _ = (s, [])

-- A branch reads its properties before it does anything.
unfoldable pub read_auth_challenge : State → Value → Result Outcome Thrown
unfolding payload_field
read_auth_challenge s message = do
  nonce_base64 ← payload_field (codes "nonce_base64") message
  server_timestamp ← payload_field (codes "server_timestamp") message
  ok (on_auth_challenge s (as_text nonce_base64) (as_number server_timestamp))

unfoldable pub read_auth_failure : State → Value → Result Outcome Thrown
unfolding payload_field
read_auth_failure s message = do
  reason ← payload_field (codes "reason") message
  ok (on_auth_failure s reason)

unfoldable pub read_voice_room_joined : State → Value → Result Outcome Thrown
unfolding payload_field
read_voice_room_joined s message = do
  room_id ← payload_field (codes "room_id") message
  ok (on_voice_room_joined s (as_text room_id))

unfoldable pub read_peer_joined_room : State → Value → Result Outcome Thrown
unfolding payload_field
read_peer_joined_room s message = do
  peer_uid ← payload_field (codes "peer_uid") message
  room_id ← payload_field (codes "room_id") message
  ok (on_peer_joined_room s (as_text peer_uid) room_id)

unfoldable pub read_peer_left_room : State → Value → Result Outcome Thrown
unfolding payload_field
read_peer_left_room s message = do
  peer_uid ← payload_field (codes "peer_uid") message
  room_id ← payload_field (codes "room_id") message
  ok (on_peer_left_room s (as_text peer_uid) room_id)

unfoldable pub read_forward_sdp : State → Value → Result Outcome Thrown
unfolding payload_field
read_forward_sdp s message = do
  sender_uid ← payload_field (codes "sender_uid") message
  sdp_type ← payload_field (codes "sdp_type") message
  sdp_raw ← payload_field (codes "sdp_raw") message
  room_id ← payload_field (codes "room_id") message
  ok (on_sdp s (as_text sender_uid) (as_text sdp_type) (as_text sdp_raw) room_id)

unfoldable pub read_forward_ice : State → Value → Result Outcome Thrown
unfolding payload_field
read_forward_ice s message = do
  sender_uid ← payload_field (codes "sender_uid") message
  room_id ← payload_field (codes "room_id") message
  candidate ← payload_field (codes "candidate") message
  ok (on_ice s (as_text sender_uid) room_id (as_object candidate))

unfoldable pub read_text : State → Value → Result Outcome Thrown
unfolding payload_field
read_text s message = do
  room_id ← payload_field (codes "room_id") message
  sender_name ← payload_field (codes "sender_name") message
  text_content ← payload_field (codes "text_content") message
  server_timestamp ← payload_field (codes "server_timestamp") message
  ok (on_text s room_id (as_text sender_name) (as_text text_content) (as_number server_timestamp))

unfoldable pub dispatch : State → Value → Option Value → Result Outcome Thrown
unfolding read_auth_challenge read_auth_failure read_voice_room_joined read_peer_joined_room
    read_peer_left_room read_forward_sdp read_forward_ice read_text
dispatch s message event =
    if is_text event (codes "auth_challenge")
    then read_auth_challenge s message
    else if is_text event (codes "auth_success")
    then ok (on_auth_success s)
    else if is_text event (codes "auth_failure")
    then read_auth_failure s message
    else if is_text event (codes "voice_room_joined")
    then read_voice_room_joined s message
    else if is_text event (codes "voice_room_left")
    then ok (on_voice_room_left s)
    else if is_text event (codes "peer_joined_room")
    then read_peer_joined_room s message
    else if is_text event (codes "peer_left_room")
    then read_peer_left_room s message
    else if is_text event (codes "forward_web_rtc_sdp")
    then read_forward_sdp s message
    else if is_text event (codes "forward_web_rtc_ice")
    then read_forward_ice s message
    else if is_text event (codes "broadcast_text_message")
    then read_text s message
    else ok (s, [])

-- The handler of a text that `JSON.parse` has read or refused.
unfoldable pub handle_server_message : State → Option Value → Result Outcome Thrown
unfolding dispatch
handle_server_message s none = ok (record s { error_message = some invalid_protocol_message }, [])
handle_server_message s (some message) = do
  event ← property (codes "event") message
  dispatch s message event

-- ===== src/Frontend/Typed.antt =====
-- What App.tsx does with a message of the server, told from the message's own fields, and that the
-- handler, which looks at untyped JSON, does it.
use vtnet.Base.{
  ◌≡◌, refl, ◌==◌, text_eq, Bool, false, Option, none, some, [], ◌∷◌, ◌++◌, ok, if◌then◌else◌,
  List-discrete, ℕ_discrete, nat_eq, arith, Option-cases, inl, inr,
}
use vtnet.Text.{Text}
use vtnet.Shared.Messages.{
  AuthFailureReason, request_expired, invalid_credentials, unsupported_protocol_version,
  rate_limited,
}
use vtnet.Shared.Wire.{ServerWire}
use vtnet.Shared.Json.{Value, number, sdp_type_name, server_to_value}
use vtnet.Frontend.Script.{as_object, is_same, is_text, find, property, as_text, as_number}
use vtnet.Frontend.{
  Outcome, State, close_socket, sign_auth_challenge, create_offer, set_remote_description,
  add_ice_candidate, connected, challenge_expired, authentication_rejected, ErrorMessage,
  cleanup_media, peer_connection, remove_peer,
}
use vtnet.Frontend.Messages.{
  handle_server_message, payload_field, on_auth_challenge, on_auth_failure, on_voice_room_joined,
  on_voice_room_left, on_peer_joined_room, on_peer_left_room, on_sdp, on_ice, on_text,
}

-- Whether the text is the string or null.
abbrev pub is_room : Text → Option Text → Bool
is_room room none = false
is_room room (some t) = room == t

abbrev pub failure_text : AuthFailureReason → ErrorMessage
failure_text request_expired = challenge_expired
failure_text _ = authentication_rejected

abbrev pub with_candidate : State → Text → Option Value → Outcome
with_candidate s sender none = (s, [])
with_candidate s sender (some candidate) =
    (peer_connection s sender, add_ice_candidate sender candidate ∷ [])

-- The page after a message of the server, and the effects.
abbrev pub on_server_message : State → ServerWire Text Value → Outcome
on_server_message s (ServerWire.auth_challenge nonce time) =
    (s, sign_auth_challenge nonce (number time) ∷ [])
on_server_message s (ServerWire.auth_success uid name server) =
    (record s { connection_status = connected; error_message = none }, [])
on_server_message s (ServerWire.auth_failure reason) =
    close_socket (record s { error_message = some (failure_text reason) })
on_server_message s (ServerWire.voice_room_joined room) = (
  record s { peer_connections = []; remote_audio = []; active_room_id = some room; messages = [] },
  [],
)
on_server_message s (ServerWire.voice_room_left room) =
    (cleanup_media (record s { active_room_id = none; messages = [] }), [])
on_server_message s (ServerWire.peer_joined_room room peer name) =
    if is_room room s.active_room_ref
    then if is_room peer s.captured_identity
      then (s, [])
      else (peer_connection s peer, create_offer peer (Value.string room) ∷ [])
    else (s, [])
on_server_message s (ServerWire.peer_left_room room peer) =
    if is_room room s.active_room_ref then (remove_peer s peer, []) else (s, [])
on_server_message s (ServerWire.broadcast_text_message room sender name content time) =
    if is_room room s.active_room_ref
    then (
      record s {
        messages =
            s.messages
            ++ record { sender_name = name; text = content; timestamp = number time } ∷ [];
      },
      [],
    )
    else (s, [])
on_server_message s (ServerWire.forward_web_rtc_sdp room sender kind raw) =
    if is_room room s.active_room_ref
    then (peer_connection s sender, set_remote_description sender (sdp_type_name kind) raw ∷ [])
    else (s, [])
on_server_message s (ServerWire.forward_web_rtc_ice room sender candidate) =
    if is_room room s.active_room_ref
    then with_candidate s sender (as_object (some candidate))
    else (s, [])

is_same_text :
    (room : Text) (o : Option Text) → is_same (some (Value.string room)) o ≡ is_room room o
unfolding is_same
is_same_text room none = refl
is_same_text room (some t) = refl

-- The handler, on the JSON of any message of the server, throws no exception, reports no protocol
-- error, and does what the message says.
pub handle-server_to_value :
    (s : State) (w : ServerWire Text Value)
    → handle_server_message s (some (server_to_value w)) ≡ ok (on_server_message s w)
unfolding handle_server_message server_to_value is_text text_eq List-discrete ℕ_discrete property
    payload_field find on_auth_challenge on_auth_failure on_voice_room_joined on_voice_room_left
    on_peer_joined_room on_peer_left_room on_sdp on_ice on_text as_text as_number
handle-server_to_value s (ServerWire.auth_failure invalid_credentials) = refl
handle-server_to_value s (ServerWire.auth_failure unsupported_protocol_version) = refl
handle-server_to_value s (ServerWire.auth_failure request_expired) = refl
handle-server_to_value s (ServerWire.auth_failure rate_limited) = refl
handle-server_to_value s (ServerWire.peer_joined_room room peer name) =
    ground (arith, is_same_text room s.active_room_ref, is_same_text peer s.captured_identity)
handle-server_to_value s (ServerWire.peer_left_room room peer) =
    ground (arith, is_same_text room s.active_room_ref)
handle-server_to_value s (ServerWire.broadcast_text_message room sender name content time) =
    rw (is_same_text room s.active_room_ref) refl
handle-server_to_value s (ServerWire.forward_web_rtc_sdp room sender kind raw) =
    rw (is_same_text room s.active_room_ref) refl
handle-server_to_value s (ServerWire.forward_web_rtc_ice room sender candidate) =
    elim (Option-cases (as_object (some candidate))) [
      | inl no_object ↦ rw no_object (ground arith)
      | inr (found, is_object) ↦ rw (is_object, is_same_text room s.active_room_ref) refl
    ]
handle-server_to_value s _ = refl

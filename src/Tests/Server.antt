-- ===== src/Tests/Server.antt =====
-- A server with two connections: Alice and Bob authenticate and meet in a room.
use vtnet.Base.{ℕ, nat_eq, ◌≡◌, refl, Bool, true, false, some, List, [], ◌∷◌, replicate}
use vtnet.Text.{len_utf8, len}
use vtnet.Collections.Set
use vtnet.Collections.Map
use vtnet.Shared.Uid.{UserUid, uid_eq, from_bytes, deserialize, try_into_array}
use vtnet.Shared.Content.{new}
use vtnet.Shared.Payload.{auth_signature_payload, to_be_bytes}
use vtnet.Shared.Wire.{uid_field, content_field, client_from_wire, server_to_wire}
use vtnet.Transport.{decode_client_message, from_str, encode_server_message}
use vtnet.Room.Permission.{is_allowed}
use vtnet.Room.Registry.{
  members, is_member, add_member, remove_member, enter, join_voice_room, leave_voice_room,
}
use vtnet.Room.Routing.{
  ensure_active_member, ensure_permission, ensure_target_member, other_members,
  route_client_room_message,
}
use vtnet.Runtime.Channels.{on}
use vtnet.Auth.{
  hex_digit, hex_byte, default_display_name, verify_signature, accept, dispatch, handle_message,
  take_authenticated_session,
}
use vtnet.Runtime.{
  send_to, send_to_users, peers, active_peers, after_join, after_leave, after_route,
  disconnect_session, leave_active, after_disconnect, handle_authenticated_message,
}
use vtnet.Runtime.Connection.{
  Frame, text, Ambient, unix_timestamp_millis, admit, receive_message, receive_decoded, receive,
  finish_session, finish,
}
use vtnet.Runtime.System
use vtnet.Runtime.System.{System, init, update, put, Reach, start, next, read}
use vtnet.Runtime.Connection.{accepted}
use vtnet.Runtime.Network.{write}
use vtnet.Tests.Crates.{base64, ed25519, serde}

-- All that a run of the server computes.
unfoldable pub server : Unit {0}
unfolding nat_eq uid_eq len_utf8 len deserialize try_into_array new auth_signature_payload
    to_be_bytes uid_field content_field client_from_wire decode_client_message from_str is_allowed
    members is_member add_member remove_member enter join_voice_room leave_voice_room
    ensure_active_member ensure_permission ensure_target_member other_members
    route_client_room_message after_leave after_route disconnect_session leave_active
    after_disconnect hex_digit hex_byte default_display_name verify_signature accept dispatch
    handle_message take_authenticated_session send_to send_to_users peers active_peers after_join
    handle_authenticated_message unix_timestamp_millis admit receive_message receive_decoded receive
    finish_session finish on encode_server_message server_to_wire write Set.contains Set.insert
    Set.remove Set.without Map.get Map.remove Map.insert
server = tt

abbrev pub alice : UserUid
alice = from_bytes (replicate 32 1)

abbrev pub bob : UserUid
bob = from_bytes (replicate 32 0)

abbrev pub nonce : List ℕ
nonce = replicate 32 9

abbrev pub ambient : Ambient
ambient = record { nonce = nonce; since_epoch = some 5_000_000_000; now = 7 }

abbrev pub round : System ℕ → ℕ → Frame → System ℕ
round sys i frame =
    put sys i (receive base64 ed25519 serde sys.server (sys.connection i) i ambient frame)

abbrev pub identify : UserUid → Frame
identify uid = text (0 ∷ 1 ∷ uid.bytes)

-- What the key of the uid answers to a challenge of the run.
abbrev pub respond : Bool → UserUid → Frame
respond key uid =
    text
      (1 ∷ ed25519.signature_to_bytes (ed25519.sign key (auth_signature_payload 1 nonce 5_000 uid)))

abbrev pub enter_room : ℕ → Frame
enter_room room = text (2 ∷ room ∷ [])

abbrev pub both_open : System ℕ
both_open = record init { connection = update (update init.connection 0 accepted) 1 accepted }

abbrev alice_asked : System ℕ
alice_asked = round both_open 0 (identify alice)

abbrev alice_known : System ℕ
alice_known = round alice_asked 0 (respond true alice)

abbrev alice_inside : System ℕ
alice_inside = round alice_known 0 (enter_room 7)

abbrev bob_asked : System ℕ
bob_asked = round alice_inside 1 (identify bob)

abbrev bob_known : System ℕ
bob_known = round bob_asked 1 (respond false bob)

abbrev pub meeting : System ℕ
meeting = round bob_known 1 (enter_room 7)

unfoldable pub meeting-Reach : Reach base64 ed25519 serde meeting
unfolding server
meeting-Reach =
    next
      (next
        (next
          (next
            (next
              (next (next (next start (System.accept 0 refl)) (System.accept 1 refl))
                (read 0 (identify alice) ambient refl))
              (read 0 (respond true alice) ambient refl))
            (read 0 (enter_room 7) ambient refl))
          (read 1 (identify bob) ambient refl))
        (read 1 (respond false bob) ambient refl))
      (read 1 (enter_room 7) ambient refl)

t0 : is_member meeting.server.rooms 7 alice ≡ true
unfolding server
t0 = refl

t1 : is_member meeting.server.rooms 7 bob ≡ true
unfolding server
t1 = refl

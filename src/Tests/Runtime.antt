-- ===== src/Tests/Runtime.antt =====
-- The running server, in the meeting of Tests/Server.
use vtnet.Base.{ℕ, nat_eq, ◌≡◌, ◌↔◌, ◌≤◌, ◌<◌, ◌*◌, ◌+◌, ◌^◌, ◌⊎◌, refl, true, none, some, [], ◌∷◌}
use vtnet.Shared.Uid.{UserUid, uid_eq}
use vtnet.Shared.Content.{RoomTextContent}
use vtnet.Shared.Messages.{ClientMessage}
use vtnet.Room.Session.{Session}
use vtnet.Room.Registry.{is_member}
use vtnet.Auth.{default_display_name}
use vtnet.Runtime.{handle_authenticated_message}
use vtnet.Runtime.Connection.{text, unix_timestamp_millis}
use vtnet.Runtime.Clock.{unix_timestamp_millis_lem}
use vtnet.Runtime.System.{System, Step, read}
use vtnet.Runtime.Table.{IsTable}
use vtnet.Runtime.Channels.{on}
use vtnet.Runtime.Safety.{sessions, Reach-Inv, members_are_present, one_connection}
use vtnet.Auth.Identity.{IsOwned}
use vtnet.Runtime.Identity.{Heard, session-IsOwned}
use vtnet.Runtime.Spec.Steps.{Promise}
use vtnet.Runtime.Refinement.{IsPromised, handle_authenticated_message-IsPromised}
use vtnet.Runtime.Refinement.Steps.{sent_by, event_of, Step-Promise}
use vtnet.Tests.Crates.{base64, ed25519, serde}
use vtnet.Tests.Server.{server, alice, bob, ambient, round, meeting, meeting-Reach}

members_are_present_example : (is_member meeting.server.rooms 7 bob ≡ true) ↔ (
    (i : ℕ) × (s : Session ℕ) × ((meeting.connection i).session ≡ some s)
    × (s.user_uid ≡ bob)
    × (s.active_voice_room_id ≡ some 7))
members_are_present_example = members_are_present meeting-Reach 7 bob

abbrev session_of : UserUid → Session ℕ
session_of uid = record {
  user_uid = uid;
  display_name = default_display_name uid;
  active_voice_room_id = some 7;
}

alice_there : sessions meeting 0 ≡ some (session_of alice)
unfolding server
alice_there = refl

bob_there : sessions meeting 1 ≡ some (session_of bob)
unfolding server
bob_there = refl

one_connection_example : ◌≡◌ {A = ℕ} 1 1
one_connection_example =
    one_connection meeting-Reach 1 1 (session_of bob) (session_of bob) bob_there bob_there refl

session-IsOwned_example :
    IsOwned base64 ed25519 (Heard base64 ed25519 serde meeting-Reach 1) (session_of bob)
session-IsOwned_example = session-IsOwned base64 ed25519 meeting-Reach 1 (session_of bob) bob_there

-- Bob goes on to room 8.
abbrev bob_moved : System ℕ
bob_moved = round meeting 1 (text (2 ∷ 8 ∷ []))

bob_moves : Step base64 ed25519 serde meeting bob_moved
unfolding server
bob_moves = read 1 (text (2 ∷ 8 ∷ [])) ambient refl

meeting-IsTable : IsTable meeting.server (sessions meeting)
meeting-IsTable = (Reach-Inv meeting-Reach).table

abbrev hi : RoomTextContent
hi = record { value = b'h' ∷ b'i' ∷ [] }

handle_authenticated_message-IsPromised_example :
    IsPromised meeting-IsTable ℕ 0
      (session_of alice)
      alice_there
      (ClientMessage.send_text_message 7 hi)
      5_000
      (handle_authenticated_message {Json = ℕ} meeting.server
        (session_of alice)
        (ClientMessage.send_text_message 7 hi)
        5_000)
handle_authenticated_message-IsPromised_example =
    handle_authenticated_message-IsPromised meeting-IsTable ℕ 0 (session_of alice) alice_there
      (ClientMessage.send_text_message 7 hi) 5_000

Step-Promise_example :
    Promise base64 ed25519 serde meeting.connection
      (event_of base64 ed25519 serde bob_moves)
      (λ j. on j (sent_by base64 ed25519 serde bob_moves))
      bob_moved.connection
Step-Promise_example = Step-Promise base64 ed25519 serde bob_moves (Reach-Inv meeting-Reach)

unix_timestamp_millis_lem_example :
    let millis = unix_timestamp_millis (some 1_500_000) in
    (unix_timestamp_millis none ≡ 0)
    × (millis < 2 ^ 64)
    × (millis * 1_000_000 ≤ 1_500_000)
    × ((1_500_000 < (millis + 1) * 1_000_000) ⊎ (millis + 1 ≡ 2 ^ 64))
unix_timestamp_millis_lem_example = unix_timestamp_millis_lem 1_500_000

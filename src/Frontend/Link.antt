-- ===== src/Frontend/Link.antt =====
-- How the server and App.tsx read each other's frames: serde_json with the uuid crate on one side,
-- the browser's JSON on the other. All of that is outside the repository. A text is a string of
-- Unicode scalar values on either side, without lone surrogates.
use vtnet.Base.{ℕ, ◌≡◌, ◌≤◌, ◌<◌, ◌^◌, Option, none, some, length}
use vtnet.Text.{Text}
use vtnet.Shared.Wire.{ClientWire, ServerWire, SerdeJson}
use vtnet.Shared.Json.{Value, client_to_value, server_to_value}

pub record Link (Uuid Json : Type 0) : Type 0 where
  -- `JSON.parse` and `JSON.stringify`
  pub parse : Text → Option Value
  pub stringify : Value → Text
  -- The number that a script has of a natural number of JSON.
  pub rounded : ℕ → ℕ
  -- A uuid's text, and the uuid that serde reads of one.
  pub uuid_text : Uuid → Text
  pub uuid_parse : Text → Option Uuid
  -- The same for a `serde_json::Value`.
  pub value_of : Json → Value
  pub json_of : Value → Option Json

module _ {Uuid Json : Type 0} (l : Link Uuid Json) where
  -- A message of the server, as a script sees it.
  unfoldable pub page_view : ServerWire Uuid Json → ServerWire Text Value
  page_view (ServerWire.auth_challenge nonce time) =
      ServerWire.auth_challenge nonce (l.rounded time)
  page_view (ServerWire.auth_success uid name server) = ServerWire.auth_success uid name server
  page_view (ServerWire.auth_failure reason) = ServerWire.auth_failure reason
  page_view (ServerWire.voice_room_joined room) = ServerWire.voice_room_joined (l.uuid_text room)
  page_view (ServerWire.voice_room_left room) = ServerWire.voice_room_left (l.uuid_text room)
  page_view (ServerWire.peer_joined_room room peer name) =
      ServerWire.peer_joined_room (l.uuid_text room) peer name
  page_view (ServerWire.peer_left_room room peer) =
      ServerWire.peer_left_room (l.uuid_text room) peer
  page_view (ServerWire.broadcast_text_message room sender name content time) =
      ServerWire.broadcast_text_message (l.uuid_text room) sender name content (l.rounded time)
  page_view (ServerWire.forward_web_rtc_sdp room sender kind raw) =
      ServerWire.forward_web_rtc_sdp (l.uuid_text room) sender kind raw
  page_view (ServerWire.forward_web_rtc_ice room sender candidate) =
      ServerWire.forward_web_rtc_ice (l.uuid_text room) sender (l.value_of candidate)

  abbrev with_room : Option Uuid → (Uuid → ClientWire Uuid Json) → Option (ClientWire Uuid Json)
  with_room none f = none
  with_room (some room) f = some (f room)

  abbrev with_candidate :
      Option Uuid
      → Option Json
      → (Uuid → Json → ClientWire Uuid Json)
      → Option (ClientWire Uuid Json)
  with_candidate (some room) (some candidate) f = some (f room candidate)
  with_candidate _ _ f = none

  -- A message of the page, as the server reads it.
  unfoldable pub server_view : ClientWire Text Value → Option (ClientWire Uuid Json)
  server_view (ClientWire.auth_identify v uid) = some (ClientWire.auth_identify v uid)
  server_view (ClientWire.auth_response signature) = some (ClientWire.auth_response signature)
  server_view (ClientWire.join_voice_room room) =
      with_room (l.uuid_parse room) ClientWire.join_voice_room
  server_view (ClientWire.leave_voice_room room) =
      with_room (l.uuid_parse room) ClientWire.leave_voice_room
  server_view (ClientWire.send_text_message room content) =
      with_room (l.uuid_parse room) (λ r. ClientWire.send_text_message r content)
  server_view (ClientWire.send_web_rtc_sdp room target kind raw) =
      with_room (l.uuid_parse room) (λ r. ClientWire.send_web_rtc_sdp r target kind raw)
  server_view (ClientWire.send_web_rtc_ice room target candidate) =
      with_candidate (l.uuid_parse room) (l.json_of candidate)
        (λ r c. ClientWire.send_web_rtc_ice r target c)

-- A version is a value of `u16`.
abbrev pub HasVersion : ClientWire Text Value → Type 0
HasVersion (ClientWire.auth_identify v uid) = v < 2 ^ 16
HasVersion _ = Unit {0}

-- Each side reads the JSON that the other writes; a script's numbers are exact up to 2^53.
pub record IsLink {Uuid Json : Type 0} (serde : SerdeJson Uuid Json) (l : Link Uuid Json)
    : Type 0 where
  pub parse-to_string :
      (w : ServerWire Uuid Json) (t : Text)
      → serde.server_to_string w ≡ some t
      → l.parse t ≡ some (server_to_value (page_view l w))
  pub from_str-stringify :
      (w : ClientWire Text Value)
      → HasVersion w
      → serde.client_from_str (l.stringify (client_to_value w)) ≡ server_view l w
  pub rounded_exact : (n : ℕ) → n ≤ 2 ^ 53 → l.rounded n ≡ n
  pub uuid_parse-uuid_text : (u : Uuid) → l.uuid_parse (l.uuid_text u) ≡ some u
  pub uuid_text_length : (u : Uuid) → length (l.uuid_text u) ≡ 36

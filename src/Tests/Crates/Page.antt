-- ===== src/Tests/Crates/Page.antt =====
-- A small browser and uuid crate beside the small serialization: a frame of the page is read as JSON
-- here and written as the server's crate reads it.
use vtnet.Base.{
  ℕ, ◌≡◌, refl, Option, none, some, [], ◌∷◌, replicate, ◌==◌, text_eq, List-discrete, ℕ_discrete,
  if◌then◌else◌, arith,
}
use vtnet.Text.{Text, codes}
use vtnet.Shared.Messages.{SdpType, offer, answer}
use vtnet.Shared.Wire.{ClientWire, ServerWire}
use vtnet.Shared.Json.{
  Value, number, string, object, Fields, end, field, client_to_value, server_to_value,
}
use vtnet.Frontend.Link.{Link, IsLink, page_view, server_view}
use vtnet.Tests.Crates.Json.{
  write_client, read_client, read_server, read_write, read_write_server, serde,
}

abbrev read_kind : Text → SdpType
read_kind k = if k == codes "offer" then offer else answer

abbrev read_identify : Fields → Option (ClientWire Text Value)
read_identify (field _ (number v) (field _ (string uid) end)) =
    some (ClientWire.auth_identify v uid)
read_identify _ = none

abbrev read_one : (Text → ClientWire Text Value) → Fields → Option (ClientWire Text Value)
read_one f (field _ (string t) end) = some (f t)
read_one f _ = none

abbrev read_text : Fields → Option (ClientWire Text Value)
read_text (field _ (string r) (field _ (string t) end)) = some (ClientWire.send_text_message r t)
read_text _ = none

abbrev read_sdp : Fields → Option (ClientWire Text Value)
read_sdp (field _ (string r) (field _ (string t) (field _ (string k) (field _ (string raw) end)))) =
    some (ClientWire.send_web_rtc_sdp r t (read_kind k) raw)
read_sdp _ = none

abbrev read_ice : Fields → Option (ClientWire Text Value)
read_ice (field _ (string r) (field _ (string t) (field _ v end))) =
    some (ClientWire.send_web_rtc_ice r t v)
read_ice _ = none

abbrev read_event : Text → Fields → Option (ClientWire Text Value)
read_event event payload =
    if event == codes "auth_identify"
    then read_identify payload
    else if event == codes "auth_response"
    then read_one ClientWire.auth_response payload
    else if event == codes "join_voice_room"
    then read_one ClientWire.join_voice_room payload
    else if event == codes "leave_voice_room"
    then read_one ClientWire.leave_voice_room payload
    else if event == codes "send_text_message"
    then read_text payload
    else if event == codes "send_web_rtc_sdp"
    then read_sdp payload
    else read_ice payload

abbrev read_value : Value → Option (ClientWire Text Value)
read_value (object (field _ (string event) (field _ (object payload) end))) =
    read_event event payload
read_value _ = none

read_value-client_to_value : (w : ClientWire Text Value) → read_value (client_to_value w) ≡ some w
unfolding client_to_value text_eq List-discrete ℕ_discrete
read_value-client_to_value (ClientWire.send_web_rtc_sdp r t offer raw) = refl
read_value-client_to_value (ClientWire.send_web_rtc_sdp r t answer raw) = refl
read_value-client_to_value _ = refl

abbrev first : Text → Option ℕ
first [] = none
first (n ∷ rest) = some n

abbrev number_in : Value → Option ℕ
number_in (number n) = some n
number_in _ = none

-- All but the two functions on texts.
abbrev silent : Link ℕ ℕ
silent = record {
  parse = λ t. none;
  stringify = λ v. [];
  rounded = λ n. n;
  uuid_text = λ u. u ∷ replicate 35 0;
  uuid_parse = first;
  value_of = number;
  json_of = number_in;
}

abbrev write_view : Option (ClientWire ℕ ℕ) → Text
write_view none = []
write_view (some w) = write_client w

abbrev write_value : Option (ClientWire Text Value) → Text
write_value none = []
write_value (some w) = write_view (server_view silent w)

abbrev value_of_message : Option (ServerWire ℕ ℕ) → Option Value
value_of_message none = none
value_of_message (some w) = some (server_to_value (page_view silent w))

abbrev pub link : Link ℕ ℕ
link = record silent {
  parse = λ t. value_of_message (read_server t);
  stringify = λ v. write_value (read_value v);
}

read_view : (o : Option (ClientWire ℕ ℕ)) → read_client (write_view o) ≡ o
read_view none = refl
read_view (some w) = read_write w

same_view : (w : ClientWire Text Value) → server_view silent w ≡ server_view link w
unfolding server_view
same_view (ClientWire.auth_identify v uid) = refl
same_view (ClientWire.auth_response t) = refl
same_view (ClientWire.join_voice_room r) = refl
same_view (ClientWire.leave_voice_room r) = refl
same_view (ClientWire.send_text_message r t) = refl
same_view (ClientWire.send_web_rtc_sdp r t k q) = refl
same_view (ClientWire.send_web_rtc_ice r t v) = refl

same_page : (w : ServerWire ℕ ℕ) → page_view silent w ≡ page_view link w
unfolding page_view
same_page (ServerWire.auth_challenge n t) = refl
same_page (ServerWire.auth_success u n s) = refl
same_page (ServerWire.auth_failure r) = refl
same_page (ServerWire.voice_room_joined r) = refl
same_page (ServerWire.voice_room_left r) = refl
same_page (ServerWire.peer_joined_room r p n) = refl
same_page (ServerWire.peer_left_room r p) = refl
same_page (ServerWire.broadcast_text_message r u n c t) = refl
same_page (ServerWire.forward_web_rtc_sdp r u k q) = refl
same_page (ServerWire.forward_web_rtc_ice r u c) = refl

read_page :
    (w : ServerWire ℕ ℕ) (t : Text)
    → serde.server_to_string w ≡ some t
    → link.parse t ≡ some (server_to_value (page_view link w))
read_page w t e = rw (← same_page w) (ground (arith, read_write_server w))

pub link-IsLink : IsLink serde link
link-IsLink = record {
  parse-to_string = read_page;
  from_str-stringify =
      λ w h. rw (read_value-client_to_value w, read_view (server_view silent w)) (same_view w);
  rounded_exact = λ n h. refl;
  uuid_parse-uuid_text = λ u. refl;
  uuid_text_length = λ u. refl;
}

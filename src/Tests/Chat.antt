-- ===== src/Tests/Chat.antt =====
-- A text between two pages of App.tsx, over the server of Tests/Server.
use vtnet.Base.{ℕ, nat_eq, ◌≡◌, ◌≤◌, refl, true, some, arith, text_eq, List-discrete, ℕ_discrete}
use vtnet.Text.{Text, len, is_whitespace}
use vtnet.Shared.Uid.{serialize, IsUid}
use vtnet.Shared.Content.Laws.{IsContent}
use vtnet.Shared.Wire.{ServerWire}
use vtnet.Shared.Json.{number, client_to_value}
use vtnet.Transport.{max_websocket_text_bytes, encode_server_message}
use vtnet.Frontend.Script.{has_visible, utf16_len, is_script_space}
use vtnet.Frontend.Page.{max_length}
use vtnet.Frontend.Link.{server_view}
use vtnet.Frontend.Texts.{text_frame}
use vtnet.Tests.Crates.{write_server, base64, ed25519, serde, link-IsLink, base64-IsBase64}
use vtnet.Tests.Server.{server, alice, bob, ambient, meeting-Reach, meeting}
use vtnet.Room.Session.{Session}
use vtnet.Auth.{default_display_name}
use vtnet.Frontend.Chat.{IsDelivered, chat_arrives, news}
use vtnet.Tests.Frontend.{page, hi, bob_session}
use vtnet.Frontend.Signal.{IsSignalled, sdp_arrives, sdp_frame}
use vtnet.Shared.Messages.{offer, forward_web_rtc_sdp}

-- Bob says hi to Alice in the room 7.
abbrev alice_session : Session ℕ
alice_session = record {
  user_uid = alice;
  display_name = default_display_name alice;
  active_voice_room_id = some 7;
}

alice_is_in : (meeting.connection 0).session ≡ some alice_session
unfolding server
alice_is_in = refl

bob_meets : (meeting.connection 1).session ≡ some bob_session
unfolding server
bob_meets = refl

hi_visible : has_visible hi ≡ true
unfolding has_visible is_script_space nat_eq ℕ_discrete
hi_visible = refl

hi_fits : utf16_len hi ≤ max_length
unfolding utf16_len
hi_fits = omega arith

hi-IsContent : IsContent (record { value = hi })
unfolding server is_whitespace
hi-IsContent = record { not_blank = λ h. ground arith; bounded = omega arith }

hi_short : len (text_frame link-IsLink base64 7 hi) ≤ max_websocket_text_bytes
unfolding server client_to_value server_view text_eq List-discrete ℕ_discrete
hi_short = omega arith

abbrev hi_payload : Text
hi_payload =
    write_server (ServerWire.broadcast_text_message 7 bob.bytes (default_display_name bob) hi 5_000)

hi_written :
    encode_server_message serde base64
      (news link-IsLink base64 ed25519 meeting 1 0 bob_session ambient page page 7 hi (number 0))
    ≡ some hi_payload
unfolding server serialize
hi_written = refl

chat_arrives_example :
    IsDelivered link-IsLink base64 ed25519 meeting 1 0 bob_session ambient page page 7 hi
      (number 0)
      hi_payload
chat_arrives_example =
    chat_arrives link-IsLink base64 ed25519 meeting 1 0 bob_session ambient page page 7 hi
      (number 0) meeting-Reach alice_session bob_meets alice_is_in (λ q. cc) refl refl refl refl
      refl hi_visible hi_fits hi-IsContent hi_short hi_payload hi_written

-- Bob makes an offer to Alice.
alice-IsUid : IsUid alice
alice-IsUid = omega arith

offer_short :
    len (
      sdp_frame link-IsLink base64 ed25519 meeting 1 0 bob_session alice_session ambient page page 7
        offer hi)
    ≤ max_websocket_text_bytes
unfolding server client_to_value server_view serialize text_eq List-discrete ℕ_discrete
offer_short = omega arith

abbrev offer_payload : Text
offer_payload = write_server (ServerWire.forward_web_rtc_sdp 7 bob.bytes offer hi)

offer_written :
    encode_server_message {Json = ℕ} serde base64 (forward_web_rtc_sdp 7 bob offer hi)
    ≡ some offer_payload
unfolding server serialize
offer_written = refl

sdp_arrives_example :
    IsSignalled link-IsLink base64 ed25519 meeting 1 0 bob_session alice_session ambient page page 7
      offer hi offer_payload
sdp_arrives_example =
    sdp_arrives link-IsLink base64 ed25519 meeting 1 0 bob_session alice_session ambient page page 7
      offer hi base64-IsBase64 meeting-Reach bob_meets alice_is_in refl refl alice-IsUid refl refl
      refl offer_short offer_payload offer_written

-- ===== src/Tests/Crates/Json.antt =====
-- A small serialization of the messages: a number for each kind, and lengths in front of texts.
use vtnet.Base.{
  ℕ, zero, suc, ◌≡◌, refl, ◌++◌, Option, none, some, [], ◌∷◌, length, take, drop, arith, nat_eq,
  take-append, drop-append,
}
use vtnet.Text.{Text}
use vtnet.Shared.Messages.{
  SdpType, offer, answer, AuthFailureReason, invalid_credentials, unsupported_protocol_version,
  request_expired, rate_limited,
}
use vtnet.Shared.Wire.{ClientWire, ServerWire, SerdeJson, IsSerdeJson}

-- A kind is its number; a text before another one has its length in front.
abbrev write_kind : SdpType → ℕ
write_kind offer = 0
write_kind answer = 1

abbrev read_kind : ℕ → SdpType
read_kind zero = offer
read_kind (suc n) = answer

abbrev pub write_client : ClientWire ℕ ℕ → Text
write_client (ClientWire.auth_identify v uid) = 0 ∷ v ∷ uid
write_client (ClientWire.auth_response signature) = 1 ∷ signature
write_client (ClientWire.join_voice_room room) = 2 ∷ room ∷ []
write_client (ClientWire.leave_voice_room room) = 3 ∷ room ∷ []
write_client (ClientWire.send_text_message room text) = 4 ∷ room ∷ text
write_client (ClientWire.send_web_rtc_sdp room target kind raw) =
    5 ∷ room ∷ write_kind kind ∷ length target ∷ (target ++ raw)
write_client (ClientWire.send_web_rtc_ice room target candidate) = 6 ∷ room ∷ candidate ∷ target

abbrev read_body : ℕ → Text → Option (ClientWire ℕ ℕ)
read_body zero (v ∷ uid) = some (ClientWire.auth_identify v uid)
read_body (suc zero) signature = some (ClientWire.auth_response signature)
read_body (suc (suc zero)) (room ∷ []) = some (ClientWire.join_voice_room room)
read_body (suc (suc (suc zero))) (room ∷ []) = some (ClientWire.leave_voice_room room)
read_body (suc (suc (suc (suc zero)))) (room ∷ text) = some (ClientWire.send_text_message room text)
read_body (suc (suc (suc (suc (suc zero))))) (room ∷ kind ∷ n ∷ rest) =
    some (ClientWire.send_web_rtc_sdp room (take n rest) (read_kind kind) (drop n rest))
read_body (suc (suc (suc (suc (suc (suc zero)))))) (room ∷ candidate ∷ target) =
    some (ClientWire.send_web_rtc_ice room target candidate)
read_body _ _ = none

abbrev pub read_client : Text → Option (ClientWire ℕ ℕ)
read_client [] = none
read_client (kind ∷ body) = read_body kind body

read_write_kind : (k : SdpType) → read_kind (write_kind k) ≡ k
read_write_kind offer = refl
read_write_kind answer = refl

pub read_write : (w : ClientWire ℕ ℕ) → read_client (write_client w) ≡ some w
read_write (ClientWire.send_web_rtc_sdp room target kind raw) = rw (
  take-append target raw (length target) refl,
  drop-append target raw (length target) refl,
  read_write_kind kind,
)
read_write (ClientWire.auth_identify v uid) = refl
read_write (ClientWire.auth_response signature) = refl
read_write (ClientWire.join_voice_room room) = refl
read_write (ClientWire.leave_voice_room room) = refl
read_write (ClientWire.send_text_message room text) = refl
read_write (ClientWire.send_web_rtc_ice room target candidate) = refl

abbrev write_reason : AuthFailureReason → ℕ
write_reason invalid_credentials = 0
write_reason unsupported_protocol_version = 1
write_reason request_expired = 2
write_reason rate_limited = 3

abbrev read_reason : ℕ → AuthFailureReason
read_reason zero = invalid_credentials
read_reason (suc zero) = unsupported_protocol_version
read_reason (suc (suc zero)) = request_expired
read_reason _ = rate_limited

-- One text before another.
abbrev two : Text → Text → Text
two s t = length s ∷ (s ++ t)

abbrev pub write_server : ServerWire ℕ ℕ → Text
write_server (ServerWire.auth_challenge nonce time) = 0 ∷ time ∷ nonce
write_server (ServerWire.auth_success uid name server) = 1 ∷ length uid ∷ (uid ++ two name server)
write_server (ServerWire.auth_failure reason) = 2 ∷ write_reason reason ∷ []
write_server (ServerWire.voice_room_joined room) = 3 ∷ room ∷ []
write_server (ServerWire.voice_room_left room) = 4 ∷ room ∷ []
write_server (ServerWire.peer_joined_room room peer name) = 5 ∷ room ∷ two peer name
write_server (ServerWire.peer_left_room room peer) = 6 ∷ room ∷ peer
write_server (ServerWire.broadcast_text_message room sender name content time) =
    7 ∷ room ∷ time ∷ length sender ∷ (sender ++ two name content)
write_server (ServerWire.forward_web_rtc_sdp room sender kind raw) =
    8 ∷ room ∷ write_kind kind ∷ two sender raw
write_server (ServerWire.forward_web_rtc_ice room sender candidate) = 9 ∷ room ∷ candidate ∷ sender

abbrev first : Text → Text
first [] = []
first (n ∷ rest) = take n rest

abbrev second : Text → Text
second [] = []
second (n ∷ rest) = drop n rest

abbrev pub read_server : Text → Option (ServerWire ℕ ℕ)
read_server (zero ∷ time ∷ nonce) = some (ServerWire.auth_challenge nonce time)
read_server ((suc zero) ∷ rest) =
    some (ServerWire.auth_success (first rest) (first (second rest)) (second (second rest)))
read_server ((suc (suc zero)) ∷ reason ∷ []) = some (ServerWire.auth_failure (read_reason reason))
read_server ((suc (suc (suc zero))) ∷ room ∷ []) = some (ServerWire.voice_room_joined room)
read_server ((suc (suc (suc (suc zero)))) ∷ room ∷ []) = some (ServerWire.voice_room_left room)
read_server ((suc (suc (suc (suc (suc zero))))) ∷ room ∷ rest) =
    some (ServerWire.peer_joined_room room (first rest) (second rest))
read_server ((suc (suc (suc (suc (suc (suc zero)))))) ∷ room ∷ peer) =
    some (ServerWire.peer_left_room room peer)
read_server ((suc (suc (suc (suc (suc (suc (suc zero))))))) ∷ room ∷ time ∷ rest) = some (
    ServerWire.broadcast_text_message room (first rest) (first (second rest)) (second (second rest))
      time)
read_server ((suc (suc (suc (suc (suc (suc (suc (suc zero)))))))) ∷ room ∷ kind ∷ rest) =
    some (ServerWire.forward_web_rtc_sdp room (first rest) (read_kind kind) (second rest))
read_server
      ((suc (suc (suc (suc (suc (suc (suc (suc (suc zero))))))))) ∷ room ∷ candidate ∷ sender) =
    some (ServerWire.forward_web_rtc_ice room sender candidate)
read_server _ = none

read_write_reason : (r : AuthFailureReason) → read_reason (write_reason r) ≡ r
read_write_reason invalid_credentials = refl
read_write_reason unsupported_protocol_version = refl
read_write_reason request_expired = refl
read_write_reason rate_limited = refl

pub read_write_server : (w : ServerWire ℕ ℕ) → read_server (write_server w) ≡ some w
read_write_server (ServerWire.auth_challenge nonce time) = refl
read_write_server (ServerWire.auth_success uid name server) = rw (
  take-append uid (two name server) (length uid) refl,
  drop-append uid (two name server) (length uid) refl,
  take-append name server (length name) refl,
  drop-append name server (length name) refl,
)
read_write_server (ServerWire.auth_failure reason) = rw (read_write_reason reason)
read_write_server (ServerWire.voice_room_joined room) = refl
read_write_server (ServerWire.voice_room_left room) = refl
read_write_server (ServerWire.peer_joined_room room peer name) =
    rw (take-append peer name (length peer) refl, drop-append peer name (length peer) refl)
read_write_server (ServerWire.peer_left_room room peer) = refl
read_write_server (ServerWire.broadcast_text_message room sender name content time) = rw (
  take-append sender (two name content) (length sender) refl,
  drop-append sender (two name content) (length sender) refl,
  take-append name content (length name) refl,
  drop-append name content (length name) refl,
)
read_write_server (ServerWire.forward_web_rtc_sdp room sender kind raw) = rw (
  read_write_kind kind,
  take-append sender raw (length sender) refl,
  drop-append sender raw (length sender) refl,
)
read_write_server (ServerWire.forward_web_rtc_ice room sender candidate) = refl

abbrev pub serde : SerdeJson ℕ ℕ
serde = record {
  client_from_str = read_client;
  client_to_string = λ w. some (write_client w);
  server_to_string = λ w. some (write_server w);
  server_from_str = read_server;
}

pub serde-IsSerdeJson : IsSerdeJson serde
serde-IsSerdeJson = record {
  from_str-to_string = λ w t e. ground (arith, read_write w);
  server_from_str-to_string = λ w t h e. ground (arith, read_write_server w);
}

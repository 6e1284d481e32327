-- ===== src/Tests/Handshake.antt =====
-- The handshake of a connection, at concrete inputs.
use vtnet.Base.{ℕ, ◌≡◌, ◌≤◌, ◌<◌, ◌-◌, ◌↔◌, refl, true, List, [], ◌∷◌, arith, take}
use vtnet.Text.{Text}
use vtnet.Shared.Payload.{auth_signature_payload}
use vtnet.Shared.Messages.{
  ClientMessage, auth_identify, auth_response, ServerMessage, auth_success, request_expired,
}
use vtnet.Auth.{
  AuthChallenge, challenge_issued, ConnectionAuthenticator, AuthenticationResult, failure,
  handle_message, default_display_name, auth_challenge_ttl, new_authenticator,
}
use vtnet.Auth.Soundness.{IsVerified, IsAuthentication, handle_message-IsAuthentication}
use vtnet.Auth.History.{Input, Pending, step, after, authentication-Pending}
use vtnet.Auth.Replies.{expired_iff}
use vtnet.Auth.DisplayName.{display_name-eq_iff}
use vtnet.Tests.Crates.{base64, ed25519}
use vtnet.Tests.Server.{server, alice, bob, nonce}

abbrev name : Text
name = b'V' ∷ b'T' ∷ b'N' ∷ b'e' ∷ b't' ∷ []

-- Alice identifies at 7 ns, and a message for a room comes between; she answers 4 seconds later.
abbrev identification : Input ℕ ℕ
identification = record {
  message = auth_identify 1 alice;
  nonce = nonce;
  server_timestamp = 5_000;
  now = 7;
}

abbrev early : Input ℕ ℕ
early = record {
  message = ClientMessage.join_voice_room 7;
  nonce = [];
  server_timestamp = 6_000;
  now = 1_000_000_007;
}

abbrev history : List (Input ℕ ℕ)
history = early ∷ identification ∷ []

abbrev challenge : AuthChallenge
challenge = record {
  client_uid = alice;
  version = 1;
  nonce = nonce;
  server_timestamp = 5_000;
  issued_at = 7;
}

abbrev signature : Text
signature =
    ed25519.signature_to_bytes (ed25519.sign true (auth_signature_payload 1 nonce 5_000 alice))

abbrev answered : Input ℕ ℕ
answered = record {
  message = auth_response signature;
  nonce = [];
  server_timestamp = 9_000;
  now = 4_000_000_007;
}

abbrev welcome : ServerMessage ℕ ℕ
welcome = auth_success alice (default_display_name alice) name

history_challenge : (after base64 ed25519 name history).state ≡ challenge_issued challenge
unfolding server after step
history_challenge = refl

history_authenticates :
    (handle_message base64 ed25519
      (after base64 ed25519 name history)
      answered.message
      []
      9_000
      4_000_000_007).1
    ≡ AuthenticationResult.authenticated welcome
unfolding server after step
history_authenticates = refl

authentication-Pending_example :
    (ch : AuthChallenge) × (t : Text) × Pending ch history
    × (answered.message ≡ auth_response t)
    × (4_000_000_007 - ch.issued_at ≤ auth_challenge_ttl)
    × IsVerified base64 ed25519 ch t
authentication-Pending_example =
    authentication-Pending base64 ed25519 name history answered {answer = welcome}
      history_authenticates

abbrev waiting : ConnectionAuthenticator ℕ
waiting = record { server_name = name; state = challenge_issued challenge }

waiting_authenticates :
    (handle_message base64 ed25519 waiting answered.message [] 9_000 4_000_000_007).1
    ≡ AuthenticationResult.authenticated welcome
unfolding server
waiting_authenticates = refl

handle_message-IsAuthentication_example :
    IsAuthentication base64 ed25519 waiting.state answered.message 4_000_000_007 name
      (handle_message base64 ed25519 waiting answered.message [] 9_000 4_000_000_007).0.state
      welcome
handle_message-IsAuthentication_example =
    handle_message-IsAuthentication base64 ed25519 waiting answered.message [] 9_000 4_000_000_007
      {answer = welcome} waiting_authenticates

expired_iff_example :
    ((handle_message base64 ed25519 waiting answered.message [] 9_000 5_000_000_008).1
      ≡ failure request_expired)
    ↔ ((ch : AuthChallenge) × (t : Text) × (waiting.state ≡ challenge_issued ch)
        × (answered.message ≡ auth_response t)
        × (auth_challenge_ttl < 5_000_000_008 - ch.issued_at))
expired_iff_example = expired_iff base64 ed25519 waiting answered.message [] 9_000 5_000_000_008

abbrev pub begun : ConnectionAuthenticator ℕ
begun = new_authenticator name

abbrev old_version : ClientMessage ℕ ℕ
old_version = auth_identify 2 alice

display_name-eq_iff_example :
    (default_display_name alice ≡ default_display_name bob)
    ↔ (take 4 alice.bytes ≡ take 4 bob.bytes)
display_name-eq_iff_example = display_name-eq_iff alice bob (omega arith) (omega arith)

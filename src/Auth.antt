-- ===== src/Auth.antt =====
-- server/src/auth.rs: the challenge and response handshake of one connection. Instants are
-- nanoseconds on a clock of its own; the nonce, the server's time and the instant are arguments, as
-- in the source.
pub mod DisplayName
pub mod Soundness
pub mod History
pub mod Replies
pub mod Fresh
pub mod Identity
use vtnet.Base.{
  ℕ, ◌+◌, ◌-◌, ◌*◌, ◌/◌, ◌%◌, Option, none, some, List, [], ◌∷◌, ◌++◌, Result, ok, err, ◌>>=◌, ◌>>◌,
  ok_or, ltb, if◌then◌else◌, ◌==◌, nat_eq,
}
use vtnet.Text.{Text}
use vtnet.External.{Base64, Ed25519}
use vtnet.Shared.Uid.{UserUid, as_bytes}
use vtnet.Shared.Payload.{auth_signature_payload}
use vtnet.Shared.Messages.{
  AuthFailureReason, invalid_credentials, unsupported_protocol_version, request_expired,
  ClientMessage, auth_identify, auth_response, ServerMessage, auth_challenge, auth_success,
  auth_failure,
}
use vtnet.Room.Session.{Session, new}

abbrev pub protocol_version : ℕ
protocol_version = 1

-- Five seconds.
abbrev pub auth_challenge_ttl : ℕ
auth_challenge_ttl = 5 * 1_000_000_000

pub record AuthChallenge : Type 0 where
  pub client_uid : UserUid
  pub version : ℕ
  pub nonce : List ℕ
  pub server_timestamp : ℕ
  pub issued_at : ℕ

pub data AuthenticationState (Uuid : Type 0) : Type 0 where
  connected : AuthenticationState Uuid
  challenge_issued : AuthChallenge → AuthenticationState Uuid
  authenticated : Session Uuid → AuthenticationState Uuid

pub record ConnectionAuthenticator (Uuid : Type 0) : Type 0 where
  pub server_name : Text
  pub state : AuthenticationState Uuid

pub data SignatureVerificationError : Type 0 where
  invalid_base64 invalid_signature_length invalid_public_key : SignatureVerificationError
  signature_mismatch : SignatureVerificationError

pub data AuthenticationResult (Uuid Json : Type 0) : Type 0 where
  reply : ServerMessage Uuid Json → AuthenticationResult Uuid Json
  authenticated : ServerMessage Uuid Json → AuthenticationResult Uuid Json

-- `ConnectionAuthenticator::new`
abbrev pub new_authenticator : {Uuid : Type 0} → Text → ConnectionAuthenticator Uuid
new_authenticator server_name = record { server_name = server_name; state = connected }

abbrev pub session_of : {Uuid : Type 0} → AuthenticationState Uuid → Option (Session Uuid)
session_of (AuthenticationState.authenticated session) = some session
session_of _ = none

unfoldable pub authenticated_session :
    {Uuid : Type 0} → ConnectionAuthenticator Uuid → Option (Session Uuid)
authenticated_session a = session_of a.state

-- The session moves out, and the authenticator is back where it began.
unfoldable pub take_authenticated_session :
    {Uuid : Type 0}
    → ConnectionAuthenticator Uuid
    → ConnectionAuthenticator Uuid × Option (Session Uuid)
take_authenticated_session a = elim (session_of a.state) [
  | none ↦ (a, none)
  | some session ↦ (record a { state = connected }, some session)
]

-- One digit, and the two digits, of `{:02x}`.
unfoldable pub hex_digit : ℕ → ℕ
hex_digit d = if ltb d 10 then b'0' + d else b'a' + (d - 10)

unfoldable pub hex_byte : ℕ → Text
hex_byte n = hex_digit (n / 16) ∷ hex_digit (n % 16) ∷ []

abbrev pub guest : Text
guest = b'G' ∷ b'u' ∷ b'e' ∷ b's' ∷ b't' ∷ b'-' ∷ []

-- `[first, second, third, fourth, ..]`; a uid always has these bytes.
hex_of_four : List ℕ → Text
hex_of_four (first ∷ second ∷ third ∷ fourth ∷ rest) =
    hex_byte first ++ (hex_byte second ++ (hex_byte third ++ hex_byte fourth))
hex_of_four _ = []

unfoldable pub default_display_name : UserUid → Text
unfolding hex_of_four
default_display_name user_uid = guest ++ hex_of_four (as_bytes user_uid)

-- `failure`
abbrev pub failure : {Uuid Json : Type 0} → AuthFailureReason → AuthenticationResult Uuid Json
failure reason = reply (auth_failure reason)

module _ (b : Base64) (c : Ed25519) where
  unfoldable pub verify_signature :
      AuthChallenge → Text → Result (Unit {0}) SignatureVerificationError
  verify_signature challenge signature_base64 = do
    signature_bytes ← ok_or (b.decode signature_base64) invalid_base64
    signature ← ok_or (c.signature_from_slice signature_bytes) invalid_signature_length
    key ← ok_or (c.verifying_key (as_bytes challenge.client_uid)) invalid_public_key
    let payload =
        auth_signature_payload challenge.version challenge.nonce challenge.server_timestamp
          challenge.client_uid
    if c.verify_strict key payload signature then ok tt else err signature_mismatch

  module _ {Uuid Json : Type 0} where
    -- An answer to a challenge that is not too old.
    unfoldable pub accept :
        ConnectionAuthenticator Uuid
        → AuthChallenge
        → Result (Unit {0}) SignatureVerificationError
        → ConnectionAuthenticator Uuid × AuthenticationResult Uuid Json
    accept a challenge (err error) = (record a { state = connected }, failure invalid_credentials)
    accept a challenge (ok _) =
        let assigned_name = default_display_name challenge.client_uid in
        (
          record a {
            state = AuthenticationState.authenticated (new challenge.client_uid assigned_name);
          },
          AuthenticationResult.authenticated
              (auth_success challenge.client_uid assigned_name a.server_name),
        )

    -- The `match` on state and message.
    unfoldable pub dispatch :
        ConnectionAuthenticator Uuid
        → AuthenticationState Uuid
        → ClientMessage Uuid Json
        → List ℕ
        → ℕ
        → ℕ
        → ConnectionAuthenticator Uuid × AuthenticationResult Uuid Json
    unfolding accept
    dispatch a connected (auth_identify version client_uid) nonce server_timestamp now =
        if version == protocol_version
        then (
          record a {
            state = challenge_issued (record {
              client_uid = client_uid;
              version = version;
              nonce = nonce;
              server_timestamp = server_timestamp;
              issued_at = now;
            });
          },
          reply (auth_challenge (b.encode nonce) server_timestamp),
        )
        else (a, failure unsupported_protocol_version)
    dispatch a (challenge_issued challenge) (auth_response signature_base64) nonce _ now =
        if ltb auth_challenge_ttl (now - challenge.issued_at)
        then (record a { state = connected }, failure request_expired)
        else accept a challenge (verify_signature challenge signature_base64)
    dispatch a _ _ _ _ _ = (a, failure invalid_credentials)

    unfoldable pub handle_message :
        ConnectionAuthenticator Uuid
        → ClientMessage Uuid Json
        → List ℕ
        → ℕ
        → ℕ
        → ConnectionAuthenticator Uuid × AuthenticationResult Uuid Json
    unfolding dispatch
    handle_message a message nonce server_timestamp now =
        dispatch a a.state message nonce server_timestamp now

-- ===== src/Client/Handshake.antt =====
-- Client and server together: a client of identity.rs that answers a challenge of auth.rs.
use vtnet.Base.{refl, ℕ, ◌-◌, ◌≤◌, ◌≡◌, List, ok, arith, IsArray}
use vtnet.Text.{Text}
use vtnet.External.{Base64, IsBase64, Ed25519, IsEd25519, Keyring}
use vtnet.Shared.Uid.{UserUid, from_bytes}
use vtnet.Shared.Payload.{auth_nonce_bytes}
use vtnet.Shared.Messages.{auth_identify, auth_response, auth_challenge, auth_success}
use vtnet.Room.Session.{new}
use vtnet.Auth.{
  AuthChallenge, AuthenticationState, connected, challenge_issued, ConnectionAuthenticator,
  AuthenticationResult, reply, accept, dispatch, handle_message, default_display_name,
  protocol_version, auth_challenge_ttl, verify_signature,
}
use vtnet.Auth.Soundness.{own_signature-verifies}
use vtnet.Client.{
  Process, get_or_create_identity, SignAuthChallengeRequest, decode_nonce, signature_of,
  sign_auth_challenge,
}
use vtnet.Client.Identity.{IsCached, load_of_IsCached}

-- The request that the frontend makes of the server's challenge.
abbrev pub request : Text → ℕ → SignAuthChallengeRequest
request nonce_base64 time = record {
  protocol_version = protocol_version;
  nonce_base64 = nonce_base64;
  server_timestamp = time;
}

module _ {b : Base64} {c : Ed25519} (b64 : IsBase64 b) (ed : IsEd25519 c) where
  pub decode_nonce-encode :
      (nonce : List ℕ) → IsArray auth_nonce_bytes nonce → decode_nonce b (b.encode nonce) ≡ ok nonce
  unfolding decode_nonce
  decode_nonce-encode nonce h = ground (arith, b64.decode-encode nonce h.1)

  -- The challenge that an identification with the key gets.
  abbrev challenge_for : c.SigningKey → List ℕ → ℕ → ℕ → AuthChallenge
  challenge_for key nonce time now = record {
    client_uid = from_bytes (c.public_bytes key);
    version = protocol_version;
    nonce = nonce;
    server_timestamp = time;
    issued_at = now;
  }

  -- What the client signs for a challenge verifies for it.
  signature_of-verifies :
      (k : Keyring) (key : c.SigningKey) (nonce_base64 : Text) (nonce : List ℕ) (time now : ℕ)
      → verify_signature b c
          (challenge_for key nonce time now)
          (signature_of b k c (request nonce_base64 time) nonce key)
        ≡ ok tt
  unfolding signature_of
  signature_of-verifies k key nonce_base64 nonce time now =
      own_signature-verifies b c b64 ed (challenge_for key nonce time now) key refl

module _ (b : Base64) (c : Ed25519) (k : Keyring) {Uuid : Type 0} (Json : Type 0) where
  -- The exchange as it should go, from a connection that has not begun.
  pub record IsHandshake (process : Process k) (fresh : List ℕ) (uid : UserUid)
      (a : ConnectionAuthenticator Uuid) (nonce nonce' : List ℕ) (time time' now now' : ℕ)
      : Type 0 where
    pub announced :
        get_or_create_identity b k c process fresh ≡ (process, ok (record { user_uid = uid }))
    pub challenged : ConnectionAuthenticator Uuid
    pub nonce_base64 : Text
    pub first :
        handle_message b c {Json = Json} a (auth_identify protocol_version uid) nonce time now
        ≡ (challenged, reply (auth_challenge nonce_base64 time))
    pub signature_base64 : Text
    pub signed :
        sign_auth_challenge b k c process fresh (request nonce_base64 time)
        ≡ (process, ok signature_base64)
    pub second :
        handle_message b c {Json = Json} challenged
          (auth_response signature_base64)
          nonce'
          time'
          now'
        ≡ (
          record a {
            state = AuthenticationState.authenticated (new uid (default_display_name uid));
          },
          AuthenticationResult.authenticated
              (auth_success uid (default_display_name uid) a.server_name),
        )

  -- With a base64 and a signature scheme that keep to their laws: a client with a seed in its cache
  -- announces the uid of its key, is challenged with a 32-byte nonce on a connection that has not
  -- begun, and signs; its answer, within five seconds, authenticates the connection as that uid.
  pub handshake :
      IsBase64 b
      → IsEd25519 c
      → (process : Process k) (fresh : List ℕ) (key : c.SigningKey)
        (a : ConnectionAuthenticator Uuid) (nonce nonce' : List ℕ) (time time' now now' : ℕ)
      → IsCached b k c process key
      → a.state ≡ connected
      → IsArray auth_nonce_bytes nonce
      → now' - now ≤ auth_challenge_ttl
      → IsHandshake process fresh
          (from_bytes (c.public_bytes key))
          a
          nonce
          nonce'
          time
          time'
          now
          now'
  unfolding handle_message dispatch accept sign_auth_challenge get_or_create_identity
  handshake b64 ed process fresh key a nonce nonce' time time' now now' cached begun valid soon =
      record {
        announced = ground (arith, load_of_IsCached b k c process fresh key cached);
        challenged = record a {
          state = challenge_issued (challenge_for b64 ed key nonce time now);
        };
        nonce_base64 = b.encode nonce;
        first = ground arith;
        signature_base64 = signature_of b k c (request (b.encode nonce) time) nonce key;
        signed = ground (
          arith,
          decode_nonce-encode b64 ed nonce valid,
          load_of_IsCached b k c process fresh key cached,
        );
        second = ground (arith, signature_of-verifies b64 ed k key (b.encode nonce) nonce time now);
      }

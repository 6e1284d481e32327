-- ===== src/UnitTests/Auth.antt =====
-- The unit tests of server/src/auth.rs, for every implementation of the crates that keeps its
-- contract. `Instant::now()` and the key are arguments; of the key, whose secret bytes are all 1 in the
-- tests, one test relies on the first four bytes of its public key.
use vtnet.Base.{ℕ, nat_eq, ◌≡◌, ◌+◌, refl, some, List, [], ◌∷◌, replicate, arith}
use vtnet.Text.{Text, codes}
use vtnet.External.{Base64, IsBase64, Ed25519, IsEd25519}
use vtnet.Shared.Uid.{UserUid, from_bytes}
use vtnet.Shared.Payload.{auth_signature_payload}
use vtnet.Shared.Messages.{
  ClientMessage, auth_identify, auth_response, auth_challenge, auth_success, request_expired,
}
use vtnet.Room.Session.{Session, new}
use vtnet.Auth.Soundness.{own_signature-verifies}
use vtnet.Auth.{
  AuthChallenge, AuthenticationResult, reply, ConnectionAuthenticator, new_authenticator,
  protocol_version, auth_challenge_ttl, failure, authenticated_session, accept, dispatch,
  handle_message, default_display_name, hex_byte, hex_digit,
}

abbrev server_name : Text
server_name = b'V' ∷ b'T' ∷ b'N' ∷ b'e' ∷ b't' ∷ []

abbrev nonce : List ℕ
nonce = replicate 32 2

abbrev uid_of : (c : Ed25519) → c.SigningKey → UserUid
uid_of c signing_key = from_bytes (c.public_bytes signing_key)

-- The challenge that an identified connection holds.
abbrev challenged : (c : Ed25519) → c.SigningKey → ℕ → AuthChallenge
challenged c signing_key now = record {
  client_uid = uid_of c signing_key;
  version = protocol_version;
  nonce = nonce;
  server_timestamp = 123;
  issued_at = now;
}

guest_name :
    (bytes rest : List ℕ)
    → bytes ≡ 0x8a ∷ 0x88 ∷ 0xe3 ∷ 0xdd ∷ rest
    → default_display_name (from_bytes bytes) ≡ codes "Guest-8a88e3dd"
unfolding default_display_name hex_byte hex_digit nat_eq
guest_name bytes rest h = rw h refl

module _ (b : Base64) (c : Ed25519) (Uuid Json : Type 0) where
  abbrev identify_message : c.SigningKey → ClientMessage Uuid Json
  identify_message signing_key = auth_identify protocol_version (uid_of c signing_key)

  -- A new connection that has identified itself.
  abbrev identified :
      c.SigningKey → ℕ → ConnectionAuthenticator Uuid × AuthenticationResult Uuid Json
  identified signing_key now =
      handle_message b c {Json = Json} (new_authenticator server_name)
        (identify_message signing_key) nonce 123 now

  abbrev SupportedIdentifyIssuesAChallenge : c.SigningKey → ℕ → Type 0
  SupportedIdentifyIssuesAChallenge signing_key now =
      (identified signing_key now).1 ≡ reply (auth_challenge (b.encode nonce) 123)

  abbrev ValidResponseAuthenticatesTheConnection : c.SigningKey → ℕ → Type 0
  ValidResponseAuthenticatesTheConnection signing_key now =
      let user_uid = uid_of c signing_key in
      let payload = auth_signature_payload protocol_version nonce 123 user_uid in
      let signature_base64 = b.encode (c.signature_to_bytes (c.sign signing_key payload)) in
      let (authenticator, result) =
        handle_message b c {Json = Json} (identified signing_key now).0
          (auth_response signature_base64) (replicate 32 0) 0 now in
      (result
        ≡ AuthenticationResult.authenticated
            (auth_success user_uid (codes "Guest-8a88e3dd") server_name))
      × ((session : Session Uuid) × (authenticated_session authenticator ≡ some session)
          × (session.user_uid ≡ user_uid))

  abbrev ExpiredChallengeRejectsTheResponse : c.SigningKey → ℕ → Text → Type 0
  ExpiredChallengeRejectsTheResponse signing_key now signature_base64 =
      (handle_message b c {Json = Json} (identified signing_key now).0
        (auth_response signature_base64) (replicate 32 0) 0
        (now + auth_challenge_ttl + 1_000_000)).1
      ≡ failure request_expired

  record AuthTests (signing_key : c.SigningKey) (now : ℕ) (any_signature : Text) : Type 0 where
    supported : SupportedIdentifyIssuesAChallenge signing_key now
    valid : ValidResponseAuthenticatesTheConnection signing_key now
    expired : ExpiredChallengeRejectsTheResponse signing_key now any_signature

  -- With crates that keep their contracts, the three tests of the authenticator pass for every key
  -- whose public bytes begin as those of the tests' key do, starting time and late answer.
  all-AuthTests :
      IsBase64 b
      → IsEd25519 c
      → (signing_key : c.SigningKey) (now : ℕ) (any_signature : Text) (rest : List ℕ)
      → c.public_bytes signing_key ≡ 0x8a ∷ 0x88 ∷ 0xe3 ∷ 0xdd ∷ rest
      → AuthTests signing_key now any_signature
  unfolding handle_message dispatch accept authenticated_session nat_eq
  all-AuthTests b64 ed signing_key now any_signature rest public = record {
    supported = refl;
    valid = (
      ground (
        arith,
        own_signature-verifies b c b64 ed (challenged c signing_key now) signing_key refl,
        guest_name (c.public_bytes signing_key) rest public,
      ),
      (
        new (uid_of c signing_key) (default_display_name (uid_of c signing_key)),
        ground (
          arith,
          own_signature-verifies b c b64 ed (challenged c signing_key now) signing_key refl,
        ),
        refl,
      ),
    );
    expired = ground arith;
  }

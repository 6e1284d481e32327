-- ===== src/Auth/Soundness.antt =====
-- What a successful authentication proves about the peer, and what a message does to the state.
use vtnet.Base.{ap, ◌∙◌, ℕ, ◌-◌, ◌≤◌, ◌≡◌, refl, true, some, List, ok, arith, ok_or->>=}
use vtnet.Text.{Text}
use vtnet.External.{Base64, IsBase64, Ed25519, IsEd25519}
use vtnet.Shared.Uid.{UserUid, as_bytes, from_bytes}
use vtnet.Shared.Payload.{auth_signature_payload}
use vtnet.Shared.Messages.{ClientMessage, auth_identify, auth_response, ServerMessage, auth_success}
use vtnet.Room.Session.{new}
use vtnet.Auth.{
  AuthChallenge, AuthenticationState, connected, challenge_issued, ConnectionAuthenticator,
  AuthenticationResult, verify_signature, accept, dispatch, handle_message, default_display_name,
  auth_challenge_ttl, invalid_base64, invalid_signature_length, invalid_public_key,
}

-- The bytes that an answer to the challenge signs.
abbrev pub payload_of : AuthChallenge → List ℕ
payload_of ch = auth_signature_payload ch.version ch.nonce ch.server_timestamp ch.client_uid

module _ (b : Base64) (c : Ed25519) where
  -- The text is the Base64 form of a signature that verifies, strictly, under the challenged key.
  pub record IsVerified (challenge : AuthChallenge) (signature_base64 : Text) : Type 0 where
    pub bytes : List ℕ
    pub decoded : b.decode signature_base64 ≡ some bytes
    pub signature : c.Signature
    pub parsed : c.signature_from_slice bytes ≡ some signature
    pub key : c.VerifyingKey
    pub key_eq : c.verifying_key (as_bytes challenge.client_uid) ≡ some key
    pub verified : c.verify_strict key (payload_of challenge) signature ≡ true

  pub verify_signature_sound :
      (ch : AuthChallenge) (t : Text) → verify_signature b c ch t ≡ ok tt → IsVerified ch t
  unfolding verify_signature
  verify_signature_sound ch t e =
      let (bytes, decoded, e1) = ok_or->>= (b.decode t) invalid_base64 _ e in
      let (signature, parsed, e2) =
        ok_or->>= (c.signature_from_slice bytes) invalid_signature_length _ e1 in
      let (key, key_eq, e3) =
        ok_or->>= (c.verifying_key (as_bytes ch.client_uid)) invalid_public_key _ e2 in
      record {
        bytes = bytes;
        decoded = decoded;
        signature = signature;
        parsed = parsed;
        key = key;
        key_eq = key_eq;
        verified = ground arith;
      }

  pub verify_signature_complete :
      (ch : AuthChallenge) (t : Text) → IsVerified ch t → verify_signature b c ch t ≡ ok tt
  unfolding verify_signature
  verify_signature_complete ch t v =
      rw (v.decoded) (rw (v.parsed) (rw (v.key_eq) (rw (v.verified))))

  -- With crates that keep their contracts, what the owner of the key signs for its challenge verifies.
  pub own_signature-verifies :
      IsBase64 b
      → IsEd25519 c
      → (ch : AuthChallenge) (key : c.SigningKey) → ch.client_uid ≡ from_bytes (c.public_bytes key)
      → verify_signature b c ch (b.encode (c.signature_to_bytes (c.sign key (payload_of ch))))
        ≡ ok tt
  own_signature-verifies b64 ed ch key own =
      let signature = c.sign key (payload_of ch) in
      let (verifying, key_eq, verified) = ed.verifies key (payload_of ch) in
      verify_signature_complete ch _ (record {
        bytes = c.signature_to_bytes signature;
        decoded = b64.decode-encode _ (ed.signature_array signature).1;
        signature = signature;
        parsed = ed.from_slice-to_bytes signature;
        key = verifying;
        key_eq = ap (λ (uid : UserUid). c.verifying_key uid.bytes) own ∙ key_eq;
        verified = verified;
      })

  module _ {Uuid Json : Type 0} where
    -- How a connection became authenticated.
    pub record IsAuthentication (state : AuthenticationState Uuid)
        (message : ClientMessage Uuid Json) (now : ℕ) (server_name : Text)
        (state' : AuthenticationState Uuid) (answer : ServerMessage Uuid Json) : Type 0 where
      pub challenge : AuthChallenge
      pub signature_base64 : Text
      pub challenged : state ≡ challenge_issued challenge
      pub responded : message ≡ auth_response signature_base64
      pub in_time : now - challenge.issued_at ≤ auth_challenge_ttl
      pub verified : IsVerified challenge signature_base64
      pub answer_eq :
          answer
          ≡ auth_success challenge.client_uid
              (default_display_name challenge.client_uid)
              server_name
      pub state_eq :
          state'
          ≡ AuthenticationState.authenticated
              (new challenge.client_uid (default_display_name challenge.client_uid))

    dispatch-IsAuthentication :
        (a : ConnectionAuthenticator Uuid) (st : AuthenticationState Uuid)
        (m : ClientMessage Uuid Json) (nonce : List ℕ) (time now : ℕ)
        {answer : ServerMessage Uuid Json}
        → (dispatch b c a st m nonce time now).1 ≡ AuthenticationResult.authenticated answer
        → IsAuthentication st m now a.server_name
            (dispatch b c a st m nonce time now).0.state
            answer
    unfolding dispatch accept
    dispatch-IsAuthentication a (challenge_issued ch) (auth_response t) nonce time now e = record {
      challenge = ch;
      signature_base64 = t;
      challenged = refl;
      responded = refl;
      in_time = ground arith;
      verified = verify_signature_sound ch t (ground arith);
      answer_eq = ground arith;
      state_eq = ground arith;
    }
    dispatch-IsAuthentication a connected (auth_identify v uid) nonce time now e =
        absurd (ground arith)
    dispatch-IsAuthentication a _ _ nonce time now e = cc

    -- A connection is authenticated only by an answer to the challenge that it holds, at most five
    -- seconds old, whose signature verifies over the challenge's own bytes under the challenged key;
    -- the session and the reply then name that key.
    pub handle_message-IsAuthentication :
        (a : ConnectionAuthenticator Uuid) (m : ClientMessage Uuid Json) (nonce : List ℕ)
        (time now : ℕ) {answer : ServerMessage Uuid Json}
        → (handle_message b c a m nonce time now).1 ≡ AuthenticationResult.authenticated answer
        → IsAuthentication a.state m now a.server_name
            (handle_message b c a m nonce time now).0.state
            answer
    unfolding handle_message
    handle_message-IsAuthentication a m nonce time now e =
        dispatch-IsAuthentication a a.state m nonce time now e

-- ===== src/Auth/Replies.antt =====
-- Which failure a message is answered with, and what becomes of the state on every branch.
use vtnet.Base.{ℕ, ◌-◌, ◌<◌, ◌≡◌, ◌≢◌, refl, ◌↔◌, List, none, arith}
use vtnet.Text.{Text}
use vtnet.External.{Base64, Ed25519}
use vtnet.Shared.Uid.{UserUid}
use vtnet.Shared.Messages.{
  ClientMessage, auth_identify, auth_response, unsupported_protocol_version, request_expired,
  invalid_credentials,
}
use vtnet.Auth.{
  AuthChallenge, AuthenticationState, connected, challenge_issued, ConnectionAuthenticator, failure,
  accept, dispatch, handle_message, protocol_version, auth_challenge_ttl, authenticated_session,
  take_authenticated_session,
}

abbrev pub IsRoomMessage : {Uuid Json : Type 0} → ClientMessage Uuid Json → Type 0
IsRoomMessage (auth_identify v uid) = ⊥
IsRoomMessage (auth_response signature) = ⊥
IsRoomMessage _ = Unit {0}

dispatch_other :
    (b : Base64) (c : Ed25519) {Uuid Json : Type 0} (a : ConnectionAuthenticator Uuid)
    (st : AuthenticationState Uuid) (m : ClientMessage Uuid Json) (nonce : List ℕ) (time now : ℕ)
    → IsRoomMessage m
    → dispatch b c a st m nonce time now ≡ (a, failure invalid_credentials)
unfolding dispatch
dispatch_other b c a st (auth_identify v uid) nonce time now r = elim r [ ]
dispatch_other b c a st (auth_response t) nonce time now r = elim r [ ]
dispatch_other b c a connected m nonce time now r = refl
dispatch_other b c a (challenge_issued ch) m nonce time now r = refl
dispatch_other b c a st m nonce time now r = refl

module _ (b : Base64) (c : Ed25519) {Uuid Json : Type 0} where
  -- The failure `request_expired` is the answer exactly to a response that comes more than five
  -- seconds after the challenge that the connection holds.
  pub expired_iff :
      (a : ConnectionAuthenticator Uuid) (m : ClientMessage Uuid Json) (nonce : List ℕ)
      (time now : ℕ)
      → ((handle_message b c a m nonce time now).1 ≡ failure request_expired) ↔ (
          (ch : AuthChallenge) × (t : Text) × (a.state ≡ challenge_issued ch)
          × (m ≡ auth_response t)
          × (auth_challenge_ttl < now - ch.issued_at))
  unfolding handle_message dispatch accept
  expired_iff a m nonce time now = (ground arith, ground arith)

  -- The failure `unsupported_protocol_version` is the answer exactly to an identification with
  -- another version than the server's on a connection that holds no challenge and no session.
  pub unsupported_iff :
      (a : ConnectionAuthenticator Uuid) (m : ClientMessage Uuid Json) (nonce : List ℕ)
      (time now : ℕ)
      → ((handle_message b c a m nonce time now).1 ≡ failure unsupported_protocol_version) ↔ (
          (v : ℕ) × (uid : UserUid) × (a.state ≡ connected)
          × (m ≡ auth_identify v uid)
          × (v ≢ protocol_version))
  unfolding handle_message dispatch accept
  unsupported_iff a m nonce time now = (ground arith, ground arith)

  -- After a response the connection holds no challenge, whatever the answer is.
  pub response_consumes :
      (a : ConnectionAuthenticator Uuid) (m : ClientMessage Uuid Json) (nonce : List ℕ)
      (time now : ℕ) (t : Text) (ch : AuthChallenge)
      → m ≡ auth_response t
      → (handle_message b c a m nonce time now).0.state ≢ challenge_issued ch
  unfolding handle_message dispatch accept
  response_consumes a m nonce time now t ch r e = ground arith

  -- Any other message than the two of the handshake is refused as invalid, before as after a
  -- challenge, and changes nothing: no room message is processed before authentication.
  pub other_refused :
      (a : ConnectionAuthenticator Uuid) (m : ClientMessage Uuid Json) (nonce : List ℕ)
      (time now : ℕ)
      → IsRoomMessage m
      → handle_message b c a m nonce time now ≡ (a, failure invalid_credentials)
  unfolding handle_message
  other_refused a m nonce time now r = dispatch_other b c a a.state m nonce time now r

-- The session that is taken is the one that the authenticator holds, if any; afterwards it holds
-- none, and its server name is the same.
pub take_lem :
    {Uuid : Type 0} (a : ConnectionAuthenticator Uuid)
    → ((take_authenticated_session a).1 ≡ authenticated_session a)
      × (authenticated_session (take_authenticated_session a).0 ≡ none)
      × ((take_authenticated_session a).0.server_name ≡ a.server_name)
unfolding take_authenticated_session authenticated_session
take_lem a = ground arith

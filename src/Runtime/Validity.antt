-- ===== src/Runtime/Validity.antt =====
-- What the messages of server/src/main.rs are made of, beginning with what a ConnectionAuthenticator
-- holds and says.
pub mod Spec
pub mod Network
pub mod Read
use vtnet.Base.{
  Bool-cases, inl, inr, ltb, ◌-◌, eq?, nat_eq, if_pos, if_neg, ◌∙◌, ℕ, ◌<◌, ◌^◌, ◌≡◌, refl, Option,
  none, some, List, Result, ok, err,
}
use vtnet.Text.{Text}
use vtnet.External.{Base64, Ed25519}
use vtnet.Shared.Uid.{UserUid, IsUid}
use vtnet.Shared.Content.Laws.{IsContent}
use vtnet.Shared.Messages.{rate_limited, ClientMessage, auth_identify, auth_response, ServerMessage}
use vtnet.Shared.Wire.RoundTrip.{IsMessage}
use vtnet.Room.Session.{Session}
use vtnet.Runtime.Connection.{message_of}
use vtnet.Auth.{
  AuthChallenge, AuthenticationState, connected, challenge_issued, ConnectionAuthenticator,
  AuthenticationResult, SignatureVerificationError, default_display_name, accept, dispatch,
  handle_message, take_authenticated_session, verify_signature, auth_challenge_ttl,
  protocol_version,
}

-- A name that the server gave to a uid of 32 bytes.
abbrev pub IsNamed : UserUid → Text → Type 0
IsNamed uid name = IsUid uid × (name ≡ default_display_name uid)

abbrev pub IsTime : ℕ → Type 0
IsTime time = time < 2 ^ 64

-- A message of a server of this name: uids have 32 bytes, users the names that the server gave them,
-- texts are neither blank nor too long, times fit their type, and nobody is told of a rate limit.
abbrev pub IsServerMessage : {Uuid Json : Type 0} → Text → ServerMessage Uuid Json → Type 0
IsServerMessage server (ServerMessage.auth_challenge nonce time) = IsTime time
IsServerMessage server (ServerMessage.auth_success uid name server_name) =
    IsNamed uid name × (server_name ≡ server)
IsServerMessage server (ServerMessage.auth_failure reason) = ¬ (reason ≡ rate_limited)
IsServerMessage server (ServerMessage.peer_joined_room room peer name) = IsNamed peer name
IsServerMessage server (ServerMessage.peer_left_room room peer) = IsUid peer
IsServerMessage server (ServerMessage.broadcast_text_message room sender name content time) =
    IsNamed sender name × IsContent content × IsTime time
IsServerMessage server (ServerMessage.forward_web_rtc_sdp room sender kind raw) = IsUid sender
IsServerMessage server (ServerMessage.forward_web_rtc_ice room sender candidate) = IsUid sender
IsServerMessage server _ = Unit {0}

module _ {Uuid : Type 0} where
  abbrev pub IsMember : Session Uuid → Type 0
  IsMember session = IsNamed session.user_uid session.display_name

  abbrev pub IsMemberIfAny : Option (Session Uuid) → Type 0
  IsMemberIfAny none = Unit {0}
  IsMemberIfAny (some session) = IsMember session

  abbrev pub IsValidState : AuthenticationState Uuid → Type 0
  IsValidState connected = Unit {0}
  IsValidState (challenge_issued challenge) = IsUid challenge.client_uid
  IsValidState (AuthenticationState.authenticated session) = IsMember session

  abbrev pub IsValidAuthenticator : Text → ConnectionAuthenticator Uuid → Type 0
  IsValidAuthenticator server a = (a.server_name ≡ server) × IsValidState a.state

  taken :
      (server_name : Text) (st : AuthenticationState Uuid)
      → IsValidState st
      → let out = take_authenticated_session (record { server_name = server_name; state = st }) in
        (out.0.server_name ≡ server_name) × IsValidState out.0.state × IsMemberIfAny out.1
  unfolding take_authenticated_session
  taken server_name connected h = (refl, h, tt)
  taken server_name (challenge_issued challenge) h = (refl, h, tt)
  taken server_name (AuthenticationState.authenticated session) h = (refl, tt, h)

  -- What an authenticator hands out is as valid as what it held.
  pub take-IsValid :
      (server : Text) (a : ConnectionAuthenticator Uuid)
      → IsValidAuthenticator server a
      → IsValidAuthenticator server (take_authenticated_session a).0
        × IsMemberIfAny (take_authenticated_session a).1
  take-IsValid server a h =
      let (same, valid, member) = taken a.server_name a.state h.1 in ((same ∙ h.0, valid), member)

module _ (b : Base64) (c : Ed25519) {Uuid : Type 0} (Json : Type 0) (server : Text)
    (a : ConnectionAuthenticator Uuid) (h : IsValidAuthenticator server a) where
  abbrev pub IsValidAnswer : ConnectionAuthenticator Uuid × AuthenticationResult Uuid Json → Type 0
  IsValidAnswer out = IsValidAuthenticator server out.0 × IsServerMessage server (message_of out.1)

  accepted :
      (challenge : AuthChallenge) (r : Result (Unit {0}) SignatureVerificationError)
      → IsUid challenge.client_uid
      → IsValidAnswer (accept b c a challenge r)
  unfolding accept
  accepted challenge (ok _) uid = ((h.0, (uid, refl)), ((uid, refl), h.0))
  accepted challenge (err x) uid = ((h.0, tt), λ q. cc)

  dispatched :
      (st : AuthenticationState Uuid) (m : ClientMessage Uuid Json) (nonce : List ℕ) (time now : ℕ)
      → IsValidState st
      → IsMessage m
      → IsTime time
      → IsValidAnswer (dispatch b c a st m nonce time now)
  unfolding dispatch
  dispatched (challenge_issued challenge) (auth_response t) nonce time now valid message fits =
      elim (Bool-cases (ltb auth_challenge_ttl (now - challenge.issued_at))) [
        | inl late ↦ rw late ((h.0, tt), λ q. cc)
        | inr soon ↦ rw soon (accepted challenge (verify_signature b c challenge t) valid)
      ]
  dispatched connected (auth_identify v uid) nonce time now valid message fits =
      elim (eq? v protocol_version) [
        | yes same ↦ rw (if_pos (eq? v protocol_version) same) ((h.0, message), fits)
        | no differs ↦ rw (if_neg (eq? v protocol_version) differs) (h, λ q. cc)
      ]
  dispatched _ _ nonce time now valid message fits = (h, λ q. cc)

  -- The answer to a well-formed message is well formed, and so is what the authenticator then holds.
  pub handle_message-IsValid :
      (m : ClientMessage Uuid Json) (nonce : List ℕ) (time now : ℕ)
      → IsMessage m
      → IsTime time
      → IsValidAnswer (handle_message b c a m nonce time now)
  unfolding handle_message
  handle_message-IsValid m nonce time now = dispatched a.state m nonce time now h.1

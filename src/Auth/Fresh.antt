-- ===== src/Auth/Fresh.antt =====
-- The session that an authenticator of server/src/auth.rs holds before anyone has used it.
use vtnet.Base.{ℕ, ◌≡◌, Option, none, some, List, arith}
use vtnet.External.{Base64, Ed25519}
use vtnet.Shared.Messages.{ClientMessage, auth_identify, auth_response}
use vtnet.Room.Session.{Session}
use vtnet.Auth.{
  AuthenticationState, connected, challenge_issued, ConnectionAuthenticator, accept, dispatch,
  handle_message, take_authenticated_session,
}

abbrev pub IsUnused : {Uuid : Type 0} → Option (Session Uuid) → Type 0
IsUnused none = Unit {0}
IsUnused (some session) = session.active_voice_room_id ≡ none

abbrev pub IsFresh : {Uuid : Type 0} → AuthenticationState Uuid → Type 0
IsFresh (AuthenticationState.authenticated session) = session.active_voice_room_id ≡ none
IsFresh _ = Unit {0}

module _ (b : Base64) (c : Ed25519) {Uuid Json : Type 0} where
  dispatch-IsFresh :
      (a : ConnectionAuthenticator Uuid) (st : AuthenticationState Uuid)
      (m : ClientMessage Uuid Json) (nonce : List ℕ) (time now : ℕ)
      → IsFresh a.state
      → IsFresh (dispatch b c a st m nonce time now).0.state
  unfolding dispatch accept
  dispatch-IsFresh a connected (auth_identify v uid) nonce time now h = ground arith
  dispatch-IsFresh a (challenge_issued ch) (auth_response t) nonce time now h = ground arith
  dispatch-IsFresh a _ _ nonce time now h = h

  pub handle_message-IsFresh :
      (a : ConnectionAuthenticator Uuid) (m : ClientMessage Uuid Json) (nonce : List ℕ)
      (time now : ℕ)
      → IsFresh a.state
      → IsFresh (handle_message b c a m nonce time now).0.state
  unfolding handle_message
  handle_message-IsFresh a m nonce time now h = dispatch-IsFresh a a.state m nonce time now h

pub take-IsFresh :
    {Uuid : Type 0} (a : ConnectionAuthenticator Uuid)
    → IsFresh a.state
    → IsFresh (take_authenticated_session a).0.state × IsUnused (take_authenticated_session a).1
unfolding take_authenticated_session
take-IsFresh a h = ground arith

-- ===== src/Auth/Identity.antt =====
-- Whose the session is that a ConnectionAuthenticator of server/src/auth.rs hands out.
use vtnet.Base.{
  ℕ, ◌≡◌, refl, Option, none, some, List, Result, ok, err, ap, sym, ◌∙◌, inl, inr, ltb, ◌-◌,
  Bool-cases, nat_eq, eq?, if_pos, if_neg, subst,
}
use vtnet.Text.{Text}
use vtnet.External.{Base64, Ed25519}
use vtnet.Shared.Messages.{ClientMessage, auth_identify, auth_response}
use vtnet.Room.Session.{Session}
use vtnet.Auth.{
  AuthChallenge, AuthenticationState, connected, challenge_issued, ConnectionAuthenticator,
  SignatureVerificationError, default_display_name, verify_signature, accept, dispatch,
  handle_message, take_authenticated_session, auth_challenge_ttl, protocol_version,
}
use vtnet.Auth.Soundness.{IsVerified, verify_signature_sound}

module _ (b : Base64) (c : Ed25519) {Uuid Json : Type 0} where
  -- `Heard` says what a connection has received: a message, with the nonce and the server's time at
  -- hand.
  module _ (Heard : ClientMessage Uuid Json → List ℕ → ℕ → Type 0) where
    -- A challenge was made when the connection identified as its uid, under the server's protocol
    -- version, with the nonce and the time of that message.
    abbrev pub IsAsked : AuthChallenge → Type 0
    IsAsked ch =
        (ch.version ≡ protocol_version)
        × Heard (auth_identify protocol_version ch.client_uid) ch.nonce ch.server_timestamp

    -- The connection received a response to a challenge for the session's key, whose signature
    -- verifies under that key, and the session's name is the one made of the key.
    pub record IsOwned (session : Session Uuid) : Type 0 where
      pub challenge : AuthChallenge
      pub asked : IsAsked challenge
      pub signature_base64 : Text
      pub responded : (n : List ℕ) × (t : ℕ) × Heard (auth_response signature_base64) n t
      pub verified : IsVerified b c challenge signature_base64
      pub same_uid : session.user_uid ≡ challenge.client_uid
      pub same_name : session.display_name ≡ default_display_name session.user_uid

    abbrev pub IsOwnedIfAny : Option (Session Uuid) → Type 0
    IsOwnedIfAny none = Unit {0}
    IsOwnedIfAny (some session) = IsOwned session

    abbrev pub IsOwnedState : AuthenticationState Uuid → Type 0
    IsOwnedState connected = Unit {0}
    IsOwnedState (challenge_issued ch) = IsAsked ch
    IsOwnedState (AuthenticationState.authenticated session) = IsOwned session

    -- A session that keeps its user and name keeps its owner.
    pub IsOwned-same :
        (s t : Session Uuid)
        → t.user_uid ≡ s.user_uid
        → t.display_name ≡ s.display_name
        → IsOwned s
        → IsOwned t
    IsOwned-same s t uid name h = record {
      challenge = h.challenge;
      asked = h.asked;
      signature_base64 = h.signature_base64;
      responded = h.responded;
      verified = h.verified;
      same_uid = uid ∙ h.same_uid;
      same_name = name ∙ (h.same_name ∙ ap default_display_name (sym uid));
    }

    accept-IsOwned :
        (a : ConnectionAuthenticator Uuid) (ch : AuthChallenge) (t : Text) (nonce : List ℕ)
        (time : ℕ) (r : Result (Unit {0}) SignatureVerificationError)
        → IsAsked ch
        → Heard (auth_response t) nonce time
        → verify_signature b c ch t ≡ r
        → IsOwnedState (accept b c {Json = Json} a ch r).0.state
    unfolding accept
    accept-IsOwned a ch t nonce time (err x) asked heard e = tt
    accept-IsOwned a ch t nonce time (ok x) asked heard e = record {
      challenge = ch;
      asked = asked;
      signature_base64 = t;
      responded = (nonce, time, heard);
      verified = verify_signature_sound b c ch t e;
      same_uid = refl;
      same_name = refl;
    }

    dispatch-IsOwnedState :
        (a : ConnectionAuthenticator Uuid) (st : AuthenticationState Uuid)
        (m : ClientMessage Uuid Json) (nonce : List ℕ) (time now : ℕ)
        → Heard m nonce time
        → IsOwnedState a.state
        → IsOwnedState st
        → IsOwnedState (dispatch b c a st m nonce time now).0.state
    unfolding dispatch
    dispatch-IsOwnedState a (challenge_issued ch) (auth_response t) nonce time now heard h k =
        elim (Bool-cases (ltb auth_challenge_ttl (now - ch.issued_at))) [
          | inl late ↦ rw late tt
          | inr soon ↦
              rw soon (accept-IsOwned a ch t nonce time (verify_signature b c ch t) k heard refl)
        ]
    dispatch-IsOwnedState a connected (auth_identify v uid) nonce time now heard h k =
        elim (eq? v protocol_version) [
          | yes same ↦
              rw (if_pos (eq? v protocol_version) same)
                (same, subst (λ w. Heard (auth_identify w uid) nonce time) same heard)
          | no differs ↦ rw (if_neg (eq? v protocol_version) differs) h
        ]
    dispatch-IsOwnedState a _ _ nonce time now heard h k = h

    -- A message that was received leaves an authenticator with an owned session or challenge, or
    -- with none.
    pub handle_message-IsOwnedState :
        (a : ConnectionAuthenticator Uuid) (m : ClientMessage Uuid Json) (nonce : List ℕ)
        (time now : ℕ)
        → Heard m nonce time
        → IsOwnedState a.state
        → IsOwnedState (handle_message b c a m nonce time now).0.state
    unfolding handle_message
    handle_message-IsOwnedState a m nonce time now heard h =
        dispatch-IsOwnedState a a.state m nonce time now heard h h

    take_of_state-IsOwned :
        (server_name : Text) (st : AuthenticationState Uuid)
        → IsOwnedState st
        → let out = take_authenticated_session (record { server_name = server_name; state = st }) in
          IsOwnedState out.0.state × IsOwnedIfAny out.1
    unfolding take_authenticated_session
    take_of_state-IsOwned server_name connected h = (h, tt)
    take_of_state-IsOwned server_name (challenge_issued ch) h = (h, tt)
    take_of_state-IsOwned server_name (AuthenticationState.authenticated s) h = (tt, h)

    -- What an authenticator hands out is owned if what it held was.
    pub take-IsOwned :
        (a : ConnectionAuthenticator Uuid)
        → IsOwnedState a.state
        → IsOwnedState (take_authenticated_session a).0.state
          × IsOwnedIfAny (take_authenticated_session a).1
    take-IsOwned a h = take_of_state-IsOwned a.server_name a.state h

  -- What is owned stays so when more is received.
  module _ (Heard Later : ClientMessage Uuid Json → List ℕ → ℕ → Type 0)
      (more : (m : ClientMessage Uuid Json) (n : List ℕ) (t : ℕ) → Heard m n t → Later m n t) where
    later-IsOwned : (s : Session Uuid) → IsOwned Heard s → IsOwned Later s
    later-IsOwned s h = record {
      challenge = h.challenge;
      asked = (h.asked.0, more _ _ _ h.asked.1);
      signature_base64 = h.signature_base64;
      responded = (h.responded.0, h.responded.1, more _ _ _ h.responded.2);
      verified = h.verified;
      same_uid = h.same_uid;
      same_name = h.same_name;
    }

    pub later-IsOwnedIfAny :
        (o : Option (Session Uuid)) → IsOwnedIfAny Heard o → IsOwnedIfAny Later o
    later-IsOwnedIfAny none h = tt
    later-IsOwnedIfAny (some s) h = later-IsOwned s h

    pub later-IsOwnedState :
        (st : AuthenticationState Uuid) → IsOwnedState Heard st → IsOwnedState Later st
    later-IsOwnedState connected h = tt
    later-IsOwnedState (challenge_issued ch) h = (h.0, more _ _ _ h.1)
    later-IsOwnedState (AuthenticationState.authenticated s) h = later-IsOwned s h

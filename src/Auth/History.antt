-- ===== src/Auth/History.antt =====
-- Where a challenge comes from: the whole history of a connection's handshake.
use vtnet.Base.{ℕ, ◌-◌, ◌≤◌, ◌≡◌, refl, ◌⊎◌, inl, inr, List, [], ◌∷◌, arith, sym, ◌∙◌}
use vtnet.Text.{Text}
use vtnet.External.{Base64, Ed25519}
use vtnet.Shared.Messages.{ClientMessage, auth_identify, auth_response, ServerMessage}
use vtnet.Auth.{
  AuthChallenge, AuthenticationState, connected, challenge_issued, ConnectionAuthenticator,
  AuthenticationResult, new_authenticator, accept, dispatch, handle_message, protocol_version,
  auth_challenge_ttl,
}
use vtnet.Auth.Soundness.{IsVerified, handle_message-IsAuthentication}

-- One call of `handle_message`.
pub record Input (Uuid Json : Type 0) : Type 0 where
  pub message : ClientMessage Uuid Json
  pub nonce : List ℕ
  pub server_timestamp : ℕ
  pub now : ℕ

module _ {Uuid Json : Type 0} where
  abbrev pub IsResponse : ClientMessage Uuid Json → Type 0
  IsResponse (auth_response signature) = Unit {0}
  IsResponse _ = ⊥

  -- The call issued the challenge: an identification with the server's protocol version, for the
  -- challenged uid, when nonce and times were the challenge's.
  pub record IsIssued (ch : AuthChallenge) (i : Input Uuid Json) : Type 0 where
    pub identified : i.message ≡ auth_identify protocol_version ch.client_uid
    pub same_version : ch.version ≡ protocol_version
    pub same_nonce : ch.nonce ≡ i.nonce
    pub same_timestamp : ch.server_timestamp ≡ i.server_timestamp
    pub same_instant : ch.issued_at ≡ i.now

  -- In a history, latest call first, the challenge was issued and not answered since.
  abbrev pub Pending : AuthChallenge → List (Input Uuid Json) → Type 0
  Pending ch [] = ⊥
  Pending ch (i ∷ h) = IsIssued ch i ⊎ ((¬ IsResponse i.message) × Pending ch h)

  module _ (b : Base64) (c : Ed25519) where
    unfoldable pub step :
        ConnectionAuthenticator Uuid → Input Uuid Json → ConnectionAuthenticator Uuid
    step a i = (handle_message b c a i.message i.nonce i.server_timestamp i.now).0

    -- A connection after a history, latest call first.
    unfoldable pub after : Text → List (Input Uuid Json) → ConnectionAuthenticator Uuid
    after server_name [] = new_authenticator server_name
    after server_name (i ∷ h) = step (after server_name h) i

    dispatch-issues :
        (a : ConnectionAuthenticator Uuid) (st : AuthenticationState Uuid) (i : Input Uuid Json)
        (m : ClientMessage Uuid Json) (ch : AuthChallenge)
        → a.state ≡ st
        → i.message ≡ m
        → (dispatch b c a st m i.nonce i.server_timestamp i.now).0.state ≡ challenge_issued ch
        → IsIssued ch i ⊎ ((¬ IsResponse m) × (st ≡ challenge_issued ch))
    unfolding dispatch accept
    dispatch-issues a connected i (auth_identify v uid) ch p q e = inl (record {
      identified = ground arith;
      same_version = ground arith;
      same_nonce = ground arith;
      same_timestamp = ground arith;
      same_instant = ground arith;
    })
    dispatch-issues a (challenge_issued ch') i (auth_response t) ch p q e = absurd (ground arith)
    dispatch-issues a st i (auth_response t) ch p q e = absurd (ground arith)
    dispatch-issues a st i m ch p q e = inr ((λ r. r), sym p ∙ e)

    -- A challenge that a connection holds was issued by an identification in its history, with the
    -- nonce and the times of that call, and there was no response since.
    pub after-Pending :
        (server_name : Text) (h : List (Input Uuid Json)) (ch : AuthChallenge)
        → (after server_name h).state ≡ challenge_issued ch
        → Pending ch h
    unfolding after step handle_message
    after-Pending server_name [] ch e = cc
    after-Pending server_name (i ∷ h) ch e =
        elim (dispatch-issues (after server_name h) _ i i.message ch refl refl e) [
          | inl new ↦ inl new
          | inr (unanswered, old) ↦ inr (unanswered, after-Pending server_name h ch old)
        ]

    -- Whoever authenticates does so with a response, at most five seconds after a challenge that this
    -- connection's own history issued under the server's protocol version and that had no response
    -- since, whose signature verifies over the challenge's payload under the challenged key.
    pub authentication-Pending :
        (server_name : Text) (h : List (Input Uuid Json)) (i : Input Uuid Json)
        {answer : ServerMessage Uuid Json}
        → (handle_message b c (after server_name h) i.message i.nonce i.server_timestamp i.now).1
          ≡ AuthenticationResult.authenticated answer
        → (ch : AuthChallenge) × (t : Text) × Pending ch h
          × (i.message ≡ auth_response t)
          × (i.now - ch.issued_at ≤ auth_challenge_ttl)
          × IsVerified b c ch t
    authentication-Pending server_name h i e =
        let proof =
          handle_message-IsAuthentication b c (after server_name h) i.message i.nonce
            i.server_timestamp i.now e in
        (
          proof.challenge,
          proof.signature_base64,
          after-Pending server_name h proof.challenge proof.challenged,
          proof.responded,
          proof.in_time,
          proof.verified,
        )

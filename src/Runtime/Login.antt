-- ===== src/Runtime/Login.antt =====
-- An honest client and server/src/main.rs together: a user who is not online can log in.
use vtnet.Base.{
  ℕ, Eq, nat_eq, eq?, ◌≡◌, ◌≢◌, ◌≤◌, ◌-◌, refl, ◌∙◌, ap, subst, none, some, [], ◌∷◌, ok, arith,
  true, if_neg, Option-cases, inl, inr,
}
use vtnet.Text.{Text, len}
use vtnet.External.{Base64, IsBase64, Ed25519, IsEd25519}
use vtnet.Collections.Map
use vtnet.Shared.Uid.{UserUid, uid_eq, from_bytes}
use vtnet.Shared.Messages.{
  ClientMessage, auth_identify, auth_response, auth_challenge, auth_success,
}
use vtnet.Shared.Wire.{SerdeJson, IsSerdeJson, client_to_wire}
use vtnet.Transport.{decode_client_message, max_websocket_text_bytes}
use vtnet.Transport.Laws.{decode-to_string}
use vtnet.Room.Session.{Session, new}
use vtnet.Auth.{
  AuthChallenge, challenge_issued, protocol_version, auth_challenge_ttl, default_display_name,
  handle_message, dispatch, accept, take_authenticated_session, verify_signature,
}
use vtnet.Auth.Soundness.{payload_of, own_signature-verifies}
use vtnet.Runtime.{ServerState, Sent}
use vtnet.Runtime.Connection.{
  Connection, running, absent, accepted, server_name, text, Ambient, unix_timestamp_millis, admit,
  receive_message, receive_decoded, receive,
}
use vtnet.Runtime.System.{System, update, put, Step, read, Reach, next}
use vtnet.Runtime.System
use vtnet.Runtime.Invariant.{update_at}
use vtnet.Runtime.Safety.{Reach-Inv}
use vtnet.Runtime.Table.{HasUid}

-- The challenge that a key gets.
abbrev pub challenge_to : (c : Ed25519) → c.SigningKey → Ambient → AuthChallenge
challenge_to c key ambient = record {
  client_uid = from_bytes (c.public_bytes key);
  version = protocol_version;
  nonce = ambient.nonce;
  server_timestamp = unix_timestamp_millis ambient.since_epoch;
  issued_at = ambient.now;
}

-- What the owner of the key answers.
abbrev pub response_to : Base64 → (c : Ed25519) → c.SigningKey → Ambient → Text
response_to b c key ambient =
    b.encode (c.signature_to_bytes (c.sign key (payload_of (challenge_to c key ambient))))

module _ {Uuid Json : Type 0} (b : Base64) (serde : SerdeJson Uuid Json) where
  -- A client writes the message as this text.
  pub record IsText (m : ClientMessage Uuid Json) (payload : Text) : Type 0 where
    pub written : serde.client_to_string (client_to_wire b m) ≡ some payload
    pub short : len payload ≤ max_websocket_text_bytes

module _ {Uuid Json : Type 0} ⦃e : Eq Uuid⦄ (b : Base64) (c : Ed25519)
    (serde : SerdeJson Uuid Json) where
  -- A client's WebSocket is upgraded.
  abbrev pub opened : System Uuid → ℕ → System Uuid
  opened sys i = record sys { connection = update sys.connection i accepted }

  -- A round of a connection's loop in which a text frame arrives, and the state after it.
  abbrev pub round_of :
      System Uuid → ℕ → Ambient → Text → ServerState Uuid × Connection Uuid × Sent Uuid Json
  round_of sys i ambient payload =
      receive b c serde sys.server (sys.connection i) i ambient (text payload)

  abbrev pub after_round : System Uuid → ℕ → Ambient → Text → System Uuid
  after_round sys i ambient payload = put sys i (round_of sys i ambient payload)

  -- After the first round of a connection that has just opened, and after the second.
  abbrev pub greeted : System Uuid → ℕ → Ambient → Text → System Uuid
  greeted sys i ambient payload = after_round (opened sys i) i ambient payload

  abbrev pub settled : System Uuid → ℕ → Ambient → Ambient → Text → Text → System Uuid
  settled sys i ambient ambient' payload payload' =
      after_round (greeted sys i ambient payload) i ambient' payload'

  -- What comes of two frames, one round after the other, on a connection that has just opened.
  pub record IsLoggedIn (sys : System Uuid) (i : ℕ) (challenge : AuthChallenge)
      (ambient ambient' : Ambient) (payload payload' : Text) : Type 0 where
    -- the only message of the first round
    pub challenged :
        (round_of (opened sys i) i ambient payload).2
        ≡ (i, auth_challenge (b.encode challenge.nonce) challenge.server_timestamp) ∷ []
    -- the only message of the second
    pub welcomed :
        (round_of (greeted sys i ambient payload) i ambient' payload').2
        ≡ (
          i,
          auth_success challenge.client_uid (default_display_name challenge.client_uid) server_name,
        )
          ∷ []
    pub reached : Reach b c serde (settled sys i ambient ambient' payload payload')
    pub session :
        ((settled sys i ambient ambient' payload payload').connection i).session
        ≡ some (new challenge.client_uid (default_display_name challenge.client_uid))
    pub stays : ((settled sys i ambient ambient' payload payload').connection i).phase ≡ running
    pub server : (settled sys i ambient ambient' payload payload').server ≡ record sys.server {
      connections = Map.insert challenge.client_uid i sys.server.connections;
    }
    pub others :
        (j : ℕ)
        → j ≢ i
        → (settled sys i ambient ambient' payload payload').connection j ≡ sys.connection j

  round_is :
      (sys : System Uuid) (i : ℕ) (conn : Connection Uuid) (ambient : Ambient) (payload : Text)
      → sys.connection i ≡ conn
      → round_of sys i ambient payload ≡ receive b c serde sys.server conn i ambient (text payload)
  round_is sys i conn ambient payload same =
      ap (λ k. receive b c serde sys.server k i ambient (text payload)) same

  -- A user without a session has no sender in the table.
  pub unlisted :
      {sys : System Uuid}
      → Reach b c serde sys
      → (u : UserUid)
      → ((j : ℕ) (s : Session Uuid) → (sys.connection j).session ≡ some s → s.user_uid ≢ u)
      → Map.get u sys.server.connections ≡ none
  unlisted {sys} reach u offline = elim (Option-cases (Map.get u sys.server.connections)) [
    | inl vacant ↦ vacant
    | inr (j, found) ↦
        let backed = (Reach-Inv reach).table.backed u j found in
        elim (Option-cases (sys.connection j).session) [
          | inl no_session ↦ absurd (subst (HasUid u) no_session backed)
          | inr (s, has) ↦ absurd (offline j s has (subst (HasUid u) has backed))
        ]
  ]

  module _ (key : c.SigningKey) (ambient ambient' : Ambient) where
    abbrev waiting : Connection Uuid
    waiting = record accepted {
      authenticator = record {
        server_name = server_name;
        state = challenge_issued (challenge_to c key ambient);
      };
    }

    identified :
        (state : ServerState Uuid) (i : ℕ) (payload : Text)
        → decode_client_message serde b payload
          ≡ ok (auth_identify protocol_version (challenge_to c key ambient).client_uid)
        → receive b c serde state accepted i ambient (text payload) ≡ (
          state,
          waiting,
          (i, auth_challenge (b.encode ambient.nonce) (challenge_to c key ambient).server_timestamp)
              ∷ [],
        )
    unfolding receive receive_decoded receive_message admit handle_message dispatch
        take_authenticated_session nat_eq
    identified state i payload q = rw q refl

    abbrev named : UserUid
    named = (challenge_to c key ambient).client_uid

    -- The round of the answer, from a connection that waits for it.
    registered :
        (state : ServerState Uuid) (i : ℕ) (payload : Text)
        → decode_client_message serde b payload ≡ ok (auth_response (response_to b c key ambient))
        → verify_signature b c (challenge_to c key ambient) (response_to b c key ambient) ≡ ok tt
        → ambient'.now - ambient.now ≤ auth_challenge_ttl
        → Map.get named state.connections ≡ none
        → receive b c serde state waiting i ambient' (text payload) ≡ (
          record state { connections = Map.insert named i state.connections },
          record accepted {
            session = some (new named (default_display_name named));
            is_registered = true;
          },
          (i, auth_success named (default_display_name named) server_name) ∷ [],
        )
    unfolding receive receive_decoded receive_message admit handle_message dispatch accept
        take_authenticated_session nat_eq
    registered state i payload q verified soon vacant = rw q (ground arith)

    -- Both rounds, for frames as they are decoded.
    pub logs_in :
        IsBase64 b
        → IsEd25519 c
        → {sys : System Uuid} → Reach b c serde sys
        → (i : ℕ) → (sys.connection i).phase ≡ absent
        → ((j : ℕ) (s : Session Uuid)
            → (sys.connection j).session ≡ some s
            → s.user_uid ≢ (challenge_to c key ambient).client_uid)
        → ambient'.now - ambient.now ≤ auth_challenge_ttl
        → (payload payload' : Text)
        → decode_client_message serde b payload
          ≡ ok (auth_identify protocol_version (challenge_to c key ambient).client_uid)
        → decode_client_message serde b payload' ≡ ok (auth_response (response_to b c key ambient))
        → IsLoggedIn sys i (challenge_to c key ambient) ambient ambient' payload payload'
    logs_in b64 ed {sys} reach i free offline soon payload payload' first second =
        let before : System Uuid = opened sys i in
        let challenged =
          (i, auth_challenge (b.encode ambient.nonce) (challenge_to c key ambient).server_timestamp)
          ∷ [] in
        let one : round_of before i ambient payload ≡ (sys.server, waiting, challenged) =
          round_is before i accepted ambient payload (update_at sys.connection i accepted)
          ∙ identified sys.server i payload first in
        let asked : System Uuid = greeted sys i ambient payload in
        let waits : asked.connection i ≡ waiting =
          update_at before.connection i _
          ∙ ap (λ (o : ServerState Uuid × Connection Uuid × Sent Uuid Json). o.1) one in
        let same : asked.server ≡ sys.server =
          ap (λ (o : ServerState Uuid × Connection Uuid × Sent Uuid Json). o.0) one in
        let two =
          round_is asked i waiting ambient' payload' waits
          ∙ (ap (λ st. receive b c serde st waiting i ambient' (text payload')) same
              ∙ registered sys.server i payload' second
                  (own_signature-verifies b c b64 ed (challenge_to c key ambient) key refl) soon
                  (unlisted reach named offline)) in
        let last =
          update_at asked.connection i (round_of asked i ambient' payload').1
          ∙ ap (λ (o : ServerState Uuid × Connection Uuid × Sent Uuid Json). o.1) two in
        record {
          challenged = ap (λ (o : ServerState Uuid × Connection Uuid × Sent Uuid Json). o.2) one;
          welcomed = ap (λ (o : ServerState Uuid × Connection Uuid × Sent Uuid Json). o.2) two;
          reached =
              next
                (next (next reach (System.Step.accept i free)) (
                  read i (text payload) ambient
                    (ap (λ (k : Connection Uuid). k.phase) (update_at sys.connection i accepted))))
                (read i (text payload') ambient' (ap (λ (k : Connection Uuid). k.phase) waits));
          session = ap (λ (k : Connection Uuid). k.session) last;
          stays = ap (λ (k : Connection Uuid). k.phase) last;
          server = ap (λ (o : ServerState Uuid × Connection Uuid × Sent Uuid Json). o.0) two;
          others = λ j differs.
              if_neg (eq? j i) differs _ (asked.connection j)
              ∙ (if_neg (eq? j i) differs _ (before.connection j)
                  ∙ if_neg (eq? j i) differs accepted (sys.connection j));
        }

    -- With crates that keep their contracts: in every reachable state, a client with a key of a user
    -- whom no session has, on a connection that is not used yet, can log in. When the connection has
    -- opened, and its identification and, at most five seconds after that, its signed answer to the
    -- challenge have arrived as frames that fit the limit, one after the other, then the first round
    -- has sent it the challenge and nothing else, the second the welcome with its uid, its guest name
    -- and the server's name and nothing else, and the state after the second is reachable: there the
    -- connection still runs and has a session of the key's uid, the table has its sender, the rooms
    -- and the other connections are untouched.
    pub can_log_in :
        IsBase64 b
        → IsEd25519 c
        → IsSerdeJson serde
        → {sys : System Uuid} → Reach b c serde sys
        → (i : ℕ) → (sys.connection i).phase ≡ absent
        → ((j : ℕ) (s : Session Uuid)
            → (sys.connection j).session ≡ some s
            → s.user_uid ≢ (challenge_to c key ambient).client_uid)
        → ambient'.now - ambient.now ≤ auth_challenge_ttl
        → (payload payload' : Text)
        → IsText b serde
            (auth_identify protocol_version (challenge_to c key ambient).client_uid)
            payload
        → IsText b serde (auth_response (response_to b c key ambient)) payload'
        → IsLoggedIn sys i (challenge_to c key ambient) ambient ambient' payload payload'
    can_log_in b64 ed reads reach i free offline soon payload payload' first second =
        logs_in b64 ed reach i free offline soon payload payload'
          (decode-to_string serde b b64 reads _ payload (ed.public_array key) first.written
            first.short)
          (decode-to_string serde b b64 reads _ payload' tt second.written second.short)

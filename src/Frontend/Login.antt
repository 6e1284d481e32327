-- ===== src/Frontend/Login.antt =====
-- App.tsx, the shell's identity and server/src/main.rs together: a login from the page's first frame
-- to the session.
use vtnet.Base.{none, ℕ, Eq, ◌≡◌, ◌≢◌, ◌≤◌, ◌-◌, ◌^◌, refl, some, [], ◌∷◌, ok, arith, IsArray, List}
use vtnet.Text.{Text, len}
use vtnet.External.{Base64, IsBase64, Ed25519, IsEd25519, Keyring}
use vtnet.Shared.Uid.{from_bytes, serialize}
use vtnet.Shared.Uid.Codec.{deserialize-serialize}
use vtnet.Shared.Payload.{auth_nonce_bytes}
use vtnet.Shared.Messages.{auth_success, auth_identify, auth_response, auth_challenge}
use vtnet.Shared.Wire.{
  ClientWire, ServerWire, SerdeJson, client_from_wire, server_to_wire, uid_field,
}
use vtnet.Shared.Json.{number, client_to_value}
use vtnet.Transport.{
  decode_client_message, from_str, encode_server_message, max_websocket_text_bytes,
}
use vtnet.Room.Session.{Session}
use vtnet.Auth.{default_display_name, auth_challenge_ttl}
use vtnet.Client.{Process, sign_auth_challenge, signature_of}
use vtnet.Client.Identity.{IsCached, load_of_IsCached}
use vtnet.Client.Handshake.{request, decode_nonce-encode}
use vtnet.Runtime.Connection.{server_name, absent, Ambient, unix_timestamp_millis}
use vtnet.Runtime.System.{System, Reach}
use vtnet.Runtime.Login.{IsLoggedIn, challenge_to, response_to, logs_in}
use vtnet.Frontend
use vtnet.Frontend.{socket_open, connected, State, send, send_message}
use vtnet.Frontend.Typed.{handle-server_to_value}
use vtnet.Frontend.Page.{opened, signed}
use vtnet.Frontend.Machine.{message_received, socket_opened, challenge_signed, step, run}
use vtnet.Frontend.Link.{Link, IsLink, page_view, server_view}

-- The two frames of the page.
module _ {Uuid Json : Type 0} (l : Link Uuid Json) where
  abbrev pub identify_frame : Base64 → (c : Ed25519) → c.SigningKey → Text
  identify_frame b c key =
      l.stringify (
        client_to_value
          (ClientWire.auth_identify 1 (serialize b (from_bytes (c.public_bytes key)))))

  abbrev pub response_frame : Text → Text
  response_frame signature = l.stringify (client_to_value (ClientWire.auth_response signature))

module _ {Uuid Json : Type 0} ⦃e : Eq Uuid⦄ {b : Base64} {c : Ed25519} {serde : SerdeJson Uuid Json}
    {l : Link Uuid Json} (b64 : IsBase64 b) (ed : IsEd25519 c) (link : IsLink serde l) where
  identify-decode :
      (key : c.SigningKey)
      → len (identify_frame l b c key) ≤ max_websocket_text_bytes
      → decode_client_message serde b (identify_frame l b c key)
        ≡ ok (auth_identify 1 (from_bytes (c.public_bytes key)))
  unfolding decode_client_message from_str client_from_wire uid_field server_view
  identify-decode key short = ground (
    arith,
    link.from_str-stringify
        (ClientWire.auth_identify 1 (serialize b (from_bytes (c.public_bytes key)))) (omega arith),
    deserialize-serialize b64 (from_bytes (c.public_bytes key)) (ed.public_array key),
  )

  response-decode :
      (signature : Text)
      → len (response_frame l signature) ≤ max_websocket_text_bytes
      → decode_client_message serde b (response_frame l signature) ≡ ok (auth_response signature)
  unfolding decode_client_message from_str client_from_wire server_view
  response-decode signature short =
      ground (arith, link.from_str-stringify (ClientWire.auth_response signature) tt)

  module _ (k : Keyring) (key : c.SigningKey) (ambient ambient' : Ambient) where
    abbrev pub time : ℕ
    time = unix_timestamp_millis ambient.since_epoch

    -- A login: what the page and the shell do, in their turn, and what the server does.
    pub record IsLogin (process : Process k) (fresh : List ℕ) (page : State)
        (challenge welcome : Text) (sys : System Uuid) (i : ℕ) : Type 0 where
      pub signature : Text
      pub signs :
          sign_auth_challenge b k c process fresh (request (b.encode ambient.nonce) time)
          ≡ (process, ok signature)
      pub outcome :
          run page (
            socket_opened (serialize b (from_bytes (c.public_bytes key)))
            ∷ message_received (l.parse challenge)
            ∷ challenge_signed (some signature)
            ∷ message_received (l.parse welcome)
            ∷ [])
          ≡ (
            record page {
              socket = some socket_open;
              connection_status = connected;
              error_message = none;
            },
            send (
                  client_to_value
                    (ClientWire.auth_identify 1 (serialize b (from_bytes (c.public_bytes key)))))
                ∷ Frontend.sign_auth_challenge (b.encode ambient.nonce) (number time)
                ∷ send (client_to_value (ClientWire.auth_response signature))
                ∷ [],
          )
      -- What the server does, when it reads the page's two frames one after the other.
      pub server :
          IsLoggedIn b c serde sys i
            (challenge_to c key ambient)
            ambient
            ambient'
            (identify_frame l b c key)
            (response_frame l signature)

    challenge-read :
        (page : State) (challenge : Text)
        → time ≤ 2 ^ 53
        → encode_server_message {Uuid = Uuid} {Json = Json} serde b
            (auth_challenge (b.encode ambient.nonce) time)
          ≡ some challenge
        → step page (message_received (l.parse challenge))
          ≡ (page, Frontend.sign_auth_challenge (b.encode ambient.nonce) (number time) ∷ [])
    unfolding step encode_server_message server_to_wire page_view
    challenge-read page challenge exact written =
        rw
          (
            link.parse-to_string (ServerWire.auth_challenge (b.encode ambient.nonce) time) challenge
                written,
            handle-server_to_value page
                (ServerWire.auth_challenge (b.encode ambient.nonce) (l.rounded time)),
            link.rounded_exact time exact,
          )
          refl

    welcome-read :
        (page : State) (welcome : Text)
        → encode_server_message {Uuid = Uuid} {Json = Json} serde b (
            auth_success
              (from_bytes (c.public_bytes key))
              (default_display_name (from_bytes (c.public_bytes key)))
              server_name)
          ≡ some welcome
        → step page (message_received (l.parse welcome))
          ≡ (record page { connection_status = connected; error_message = none }, [])
    unfolding step encode_server_message server_to_wire page_view
    welcome-read page welcome written =
        let sent : ServerWire Uuid Json =
          ServerWire.auth_success (serialize b (from_bytes (c.public_bytes key)))
            (default_display_name (from_bytes (c.public_bytes key))) server_name in
        rw
          (
            link.parse-to_string sent welcome written,
            handle-server_to_value page (page_view l sent),
          )
          refl

    signing :
        (process : Process k) (fresh : List ℕ)
        → IsCached b k c process key
        → IsArray auth_nonce_bytes ambient.nonce
        → sign_auth_challenge b k c process fresh (request (b.encode ambient.nonce) time)
          ≡ (process, ok (response_to b c key ambient))
    unfolding sign_auth_challenge signature_of
    signing process fresh cached valid = ground (
      arith,
      decode_nonce-encode b64 ed ambient.nonce valid,
      load_of_IsCached b k c process fresh key cached,
    )

    -- With crates that keep their contracts, and if page and server read each other's JSON: in every
    -- reachable state, the app of a user whom no session has, with the key in its cache, logs in on
    -- a connection that is not used yet. The page identifies itself as its socket opens, asks the
    -- shell to sign the nonce and the time of the challenge, and sends the signature that the shell
    -- answers, and nothing else; after the welcome it shows that it is connected, and no error. When
    -- the connection has opened and these two frames have arrived one after the other, the second at
    -- most five seconds after the first, the server has sent that challenge in the first round and the
    -- welcome in the second, and the state after the second is reachable: there the connection still
    -- runs and has a session of the key's uid, the table has its sender, the rooms and the other
    -- connections are untouched. Nonces have 32 bytes, the time is at most 2^53, the frames fit the
    -- limit, and both messages of the server can be written.
    pub app_logs_in :
        (process : Process k) (fresh : List ℕ)
        → IsCached b k c process key
        → IsArray auth_nonce_bytes ambient.nonce
        → time ≤ 2 ^ 53
        → ambient'.now - ambient.now ≤ auth_challenge_ttl
        → {sys : System Uuid} → Reach b c serde sys
        → (i : ℕ) → (sys.connection i).phase ≡ absent
        → ((j : ℕ) (s : Session Uuid)
            → (sys.connection j).session ≡ some s
            → s.user_uid ≢ from_bytes (c.public_bytes key))
        → (challenge : Text)
        → encode_server_message {Uuid = Uuid} {Json = Json} serde b
            (auth_challenge (b.encode ambient.nonce) time)
          ≡ some challenge
        → (welcome : Text)
        → encode_server_message {Uuid = Uuid} {Json = Json} serde b (
            auth_success
              (from_bytes (c.public_bytes key))
              (default_display_name (from_bytes (c.public_bytes key)))
              server_name)
          ≡ some welcome
        → (page : State) → len (identify_frame l b c key) ≤ max_websocket_text_bytes
        → len (response_frame l (response_to b c key ambient)) ≤ max_websocket_text_bytes
        → IsLogin process fresh page challenge welcome sys i
    unfolding run step opened signed send_message client_to_value
    app_logs_in process fresh cached valid exact soon {sys} reach i free offline challenge written
          welcome written' page short short' =
        record {
          signature = response_to b c key ambient;
          signs = signing process fresh cached valid;
          outcome =
              let authenticating_page =
                (step page (socket_opened (serialize b (from_bytes (c.public_bytes key))))).0 in
              rw
                (
                  challenge-read authenticating_page challenge exact written,
                  welcome-read authenticating_page welcome written',
                )
                refl;
          server =
              logs_in b c serde key ambient ambient' b64 ed reach i free offline soon _ _
                (identify-decode key short) (response-decode (response_to b c key ambient) short');
        }

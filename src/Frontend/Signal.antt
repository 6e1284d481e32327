-- ===== src/Frontend/Signal.antt =====
-- A session description from one page of App.tsx through server/src/main.rs to another.
use vtnet.Base.{
  ℕ, Eq, nat_eq, ◌≡◌, ◌≤◌, refl, ◌∙◌, some, [], ◌∷◌, arith, ok, text_eq, List-discrete, ℕ_discrete,
}
use vtnet.Text.{Text, len, codes}
use vtnet.External.{Base64, IsBase64, Ed25519}
use vtnet.Shared.Uid.{UserUid, IsUid, uid_eq, serialize}
use vtnet.Shared.Uid.Codec.{deserialize-serialize}
use vtnet.Shared.Messages.{
  SdpType, offer, answer, ClientMessage, ServerMessage, forward_web_rtc_sdp,
}
use vtnet.Shared.Wire.{
  ClientWire, ServerWire, SerdeJson, client_from_wire, server_to_wire, uid_field,
}
use vtnet.Shared.Json.{Value, string, sdp_type_name, client_to_value}
use vtnet.Transport.{
  decode_client_message, from_str, encode_server_message, max_websocket_text_bytes,
}
use vtnet.Room.Session.{Session}
use vtnet.Runtime.Connection.{
  Ambient, text, unix_timestamp_millis, receive, receive_decoded, receive_message,
}
use vtnet.Runtime.System.{System, Reach}
use vtnet.Runtime.Channels.{on}
use vtnet.Runtime.Delivery.{sdp_delivery}
use vtnet.Runtime.Safety.{Reach-Inv}
use vtnet.Frontend.{State, send, send_message, socket_open, peer_connection, set_remote_description}
use vtnet.Frontend.Typed.{handle-server_to_value}
use vtnet.Frontend.Page.{offered, described}
use vtnet.Frontend.Machine.{Input, offer_made, description_set, message_received, step}
use vtnet.Frontend.Link.{Link, IsLink, page_view, server_view}

-- What makes a page send a description: an offer is made, or another's offer is set and answered.
abbrev pub made : SdpType → Text → Text → Text → Input
made offer peer room sdp = offer_made peer (string room) sdp
made answer peer room sdp = description_set peer (codes "offer") sdp

-- The description as a message of the page.
abbrev pub description : Text → Text → SdpType → Text → Value
description room peer kind sdp = client_to_value (ClientWire.send_web_rtc_sdp room peer kind sdp)

made-sends :
    (page : State) (kind : SdpType) (peer room sdp : Text)
    → page.socket ≡ some socket_open
    → page.active_room_ref ≡ some room
    → (step page (made kind peer room sdp)).1 ≡ send (description room peer kind sdp) ∷ []
unfolding step offered described send_message client_to_value text_eq List-discrete ℕ_discrete
made-sends page offer peer room sdp live here = rw live refl
made-sends page answer peer room sdp live here = ground (arith)

module _ {Uuid Json : Type 0} {serde : SerdeJson Uuid Json} {l : Link Uuid Json}
    (link : IsLink serde l) {b : Base64} (b64 : IsBase64 b) where
  description-decode :
      (room : Uuid) (target : UserUid) (kind : SdpType) (sdp : Text)
      → IsUid target
      → len (l.stringify (description (l.uuid_text room) (serialize b target) kind sdp))
        ≤ max_websocket_text_bytes
      → decode_client_message serde b
          (l.stringify (description (l.uuid_text room) (serialize b target) kind sdp))
        ≡ ok (ClientMessage.send_web_rtc_sdp room target kind sdp)
  unfolding decode_client_message from_str client_from_wire uid_field server_view
  description-decode room target kind sdp valid short = ground (
    arith,
    link.from_str-stringify
        (ClientWire.send_web_rtc_sdp (l.uuid_text room) (serialize b target) kind sdp) tt,
    link.uuid_parse-uuid_text room,
    deserialize-serialize b64 target valid,
  )

  heard_description :
      (page : State) (room : Uuid) (sender : UserUid) (kind : SdpType) (sdp payload : Text)
      → page.active_room_ref ≡ some (l.uuid_text room)
      → encode_server_message serde b (forward_web_rtc_sdp room sender kind sdp) ≡ some payload
      → step page (message_received (l.parse payload)) ≡ (
        peer_connection page (serialize b sender),
        set_remote_description (serialize b sender) (sdp_type_name kind) sdp ∷ [],
      )
  unfolding step encode_server_message server_to_wire page_view
  heard_description page room sender kind sdp payload here written =
      rw
        (
          link.parse-to_string _ payload written,
          handle-server_to_value page
              (page_view l (ServerWire.forward_web_rtc_sdp room (serialize b sender) kind sdp)),
        )
        (ground arith)

module _ {Uuid Json : Type 0} ⦃e : Eq Uuid⦄ {serde : SerdeJson Uuid Json} {l : Link Uuid Json}
    (link : IsLink serde l) (b : Base64) (c : Ed25519) (sys : System Uuid) (i j : ℕ)
    (s t : Session Uuid) (ambient : Ambient) (from to : State) (room : Uuid) (kind : SdpType)
    (sdp : Text) where
  abbrev pub sdp_frame : Text
  sdp_frame = l.stringify (description (l.uuid_text room) (serialize b t.user_uid) kind sdp)

  abbrev pub forwarded : ServerMessage Uuid Json
  forwarded = forward_web_rtc_sdp room s.user_uid kind sdp

  -- A description on its way: out of the one page, through the server, and on the other page.
  pub record IsSignalled (payload : Text) : Type 0 where
    pub sent :
        (step from (made kind (serialize b t.user_uid) (l.uuid_text room) sdp)).1
        ≡ send (description (l.uuid_text room) (serialize b t.user_uid) kind sdp) ∷ []
    pub posted :
        on j (receive b c serde sys.server (sys.connection i) i ambient (text sdp_frame)).2
        ≡ forwarded ∷ []
    pub heard : step to (message_received (l.parse payload)) ≡ (
      peer_connection to (serialize b s.user_uid),
      set_remote_description (serialize b s.user_uid) (sdp_type_name kind) sdp ∷ [],
    )

  posted_description :
      IsBase64 b
      → Reach b c serde sys
      → (sys.connection i).session ≡ some s
      → (sys.connection j).session ≡ some t
      → s.active_voice_room_id ≡ some room
      → t.active_voice_room_id ≡ some room
      → IsUid t.user_uid
      → len sdp_frame ≤ max_websocket_text_bytes
      → on j (receive b c serde sys.server (sys.connection i) i ambient (text sdp_frame)).2
        ≡ forwarded ∷ []
  unfolding receive receive_decoded receive_message
  posted_description b64 reach has_s has_t here there valid short =
      rw (description-decode link b64 room t.user_uid kind sdp valid short, has_s)
        (sdp_delivery (Reach-Inv reach).table Json i j s t room t.user_uid kind sdp
            (unix_timestamp_millis ambient.since_epoch) has_s has_t
          ∙ ground arith)

  -- If base64 decodes what it encodes, and page and server read each other's JSON: in every reachable
  -- state, an offer that a page with an open socket makes, or the answer to one, for the user of
  -- another connection in the room of both sessions goes out, if its frame fits the limit; it is
  -- posted once to that connection, and the frame of that makes a page there have a peer connection
  -- to the sender's own uid and set the description on it, if the refs of both pages are the room.
  pub sdp_arrives :
      IsBase64 b
      → Reach b c serde sys
      → (sys.connection i).session ≡ some s
      → (sys.connection j).session ≡ some t
      → s.active_voice_room_id ≡ some room
      → t.active_voice_room_id ≡ some room
      → IsUid t.user_uid
      → from.socket ≡ some socket_open
      → from.active_room_ref ≡ some (l.uuid_text room)
      → to.active_room_ref ≡ some (l.uuid_text room)
      → len sdp_frame ≤ max_websocket_text_bytes
      → (payload : Text) → encode_server_message serde b forwarded ≡ some payload
      → IsSignalled payload
  sdp_arrives b64 reach has_s has_t here there valid live shows shows' short payload written =
      record {
        sent = made-sends from kind (serialize b t.user_uid) (l.uuid_text room) sdp live shows;
        posted = posted_description b64 reach has_s has_t here there valid short;
        heard = heard_description link b64 to room s.user_uid kind sdp payload shows' written;
      }

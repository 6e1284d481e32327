-- ===== src/Frontend/Chat.antt =====
-- A chat text from one page of App.tsx through server/src/main.rs to another.
use vtnet.Base.{ℕ, Eq, nat_eq, ◌≡◌, ◌≢◌, ◌≤◌, ◌∙◌, true, some, [], ◌∷◌, ◌++◌, arith, text_eq}
use vtnet.Text.{Text, len}
use vtnet.External.{Base64, Ed25519}
use vtnet.Shared.Uid.{serialize, UserUid}
use vtnet.Shared.Content.Laws.{IsContent}
use vtnet.Shared.Messages.{ServerMessage, broadcast_text_message}
use vtnet.Shared.Wire.{ClientWire, ServerWire, SerdeJson, server_to_wire}
use vtnet.Shared.Json.{Value, number, client_to_value}
use vtnet.Transport.{encode_server_message, max_websocket_text_bytes}
use vtnet.Room.Session.{Session}
use vtnet.Runtime.Connection.{
  Ambient, text, unix_timestamp_millis, receive, receive_decoded, receive_message,
}
use vtnet.Runtime.System.{System, Reach}
use vtnet.Runtime.Channels.{on}
use vtnet.Runtime.Delivery.{text_delivery}
use vtnet.Runtime.Safety.{Reach-Inv}
use vtnet.Frontend.{State, send, socket_open}
use vtnet.Frontend.Script.{has_visible, utf16_len}
use vtnet.Frontend.Typed.{handle-server_to_value}
use vtnet.Frontend.Page.{type_text, send_text, max_length}
use vtnet.Frontend.Machine.{message_received, step}
use vtnet.Frontend.Link.{Link, IsLink, page_view}
use vtnet.Frontend.Texts.{said, sent_text, nonempty, text_frame, text_frame-decode}

-- The page with one more message.
abbrev pub hears : State → Text → Text → ℕ → State
hears page name t time = record page {
  messages = page.messages ++ record { sender_name = name; text = t; timestamp = number time } ∷ [];
}

module _ {Uuid Json : Type 0} {serde : SerdeJson Uuid Json} {l : Link Uuid Json}
    (link : IsLink serde l) (b : Base64) where
  heard_text :
      (page : State) (room : Uuid) (sender : UserUid) (name content : Text) (time : ℕ)
      (payload : Text)
      → page.active_room_ref ≡ some (l.uuid_text room)
      → encode_server_message serde b
          (broadcast_text_message room sender name (record { value = content }) time)
        ≡ some payload
      → step page (message_received (l.parse payload))
        ≡ (hears page name content (l.rounded time), [])
  unfolding step encode_server_message server_to_wire page_view
  heard_text page room sender name content time payload here written =
      rw
        (
          link.parse-to_string _ payload written,
          handle-server_to_value page (
              page_view l
                (ServerWire.broadcast_text_message room (serialize b sender) name content time)),
        )
        (ground arith)

module _ {Uuid Json : Type 0} ⦃e : Eq Uuid⦄ {serde : SerdeJson Uuid Json} {l : Link Uuid Json}
    (link : IsLink serde l) (b : Base64) (c : Ed25519) where
  posted_text :
      {sys : System Uuid}
      → Reach b c serde sys
      → (i j : ℕ) (s t : Session Uuid) (room : Uuid) (content : Text) (ambient : Ambient)
      → (sys.connection i).session ≡ some s
      → (sys.connection j).session ≡ some t
      → j ≢ i
      → s.active_voice_room_id ≡ some room
      → t.active_voice_room_id ≡ some room
      → IsContent (record { value = content })
      → len (text_frame link b room content) ≤ max_websocket_text_bytes
      → on j
          (receive b c serde sys.server
            (sys.connection i)
            i
            ambient
            (text (text_frame link b room content))).2
        ≡ broadcast_text_message room s.user_uid s.display_name
            (record { value = content })
            (unix_timestamp_millis ambient.since_epoch)
          ∷ []
  unfolding receive receive_decoded receive_message
  posted_text {sys} reach i j s t room content ambient has_s has_t differ here there valid short =
      rw ((text_frame-decode link b room content).1 (short, valid), has_s)
        (text_delivery (Reach-Inv reach).table Json i j s t room (record { value = content })
            (unix_timestamp_millis ambient.since_epoch) has_s has_t differ
          ∙ ground arith)

  module _ (sys : System Uuid) (i j : ℕ) (s : Session Uuid) (ambient : Ambient) (from to : State)
      (room : Uuid) (content : Text) (now : Value) where
    -- What the server tells the other connections in the room.
    abbrev pub news : ServerMessage Uuid Json
    news =
        broadcast_text_message room s.user_uid s.display_name (record { value = content })
          (unix_timestamp_millis ambient.since_epoch)

    -- A text on its way: out of the one page, through the server, and on the other page.
    pub record IsDelivered (payload : Text) : Type 0 where
      pub sent : send_text (type_text from content) now ≡ (
        said from (l.uuid_text room) content now,
        send (client_to_value (ClientWire.send_text_message (l.uuid_text room) content)) ∷ [],
      )
      pub posted :
          on j
            (receive b c serde sys.server
              (sys.connection i)
              i
              ambient
              (text (text_frame link b room content))).2
          ≡ news ∷ []
      pub heard : step to (message_received (l.parse payload)) ≡ (
        hears to s.display_name content (l.rounded (unix_timestamp_millis ambient.since_epoch)),
        [],
      )

    -- If page and server read each other's JSON: in every reachable state, a text that the server
    -- accepts, of at most 4096 UTF-16 units and not blank for a script either, goes out of a page
    -- with an open socket that shows the room of its user's session, if its frame fits the limit.
    -- It is posted once to another connection in that room, and the frame of that adds one message
    -- to a page there whose ref is the room: the text as it was, under the name of the writer's
    -- session, and nothing else.
    pub chat_arrives :
        Reach b c serde sys
        → (t : Session Uuid) → (sys.connection i).session ≡ some s
        → (sys.connection j).session ≡ some t
        → j ≢ i
        → s.active_voice_room_id ≡ some room
        → t.active_voice_room_id ≡ some room
        → from.socket ≡ some socket_open
        → from.active_room_id ≡ some (l.uuid_text room)
        → to.active_room_ref ≡ some (l.uuid_text room)
        → has_visible content ≡ true
        → utf16_len content ≤ max_length
        → IsContent (record { value = content })
        → len (text_frame link b room content) ≤ max_websocket_text_bytes
        → (payload : Text) → encode_server_message serde b news ≡ some payload
        → IsDelivered payload
    chat_arrives reach t has_s has_t differ here there live shows shows' visible fits valid short
          payload written =
        record {
          sent =
              sent_text from (l.uuid_text room) content now live shows
                (nonempty (l.uuid_text room) (link.uuid_text_length room)) visible fits;
          posted =
              posted_text reach i j s t room content ambient has_s has_t differ here there valid
                short;
          heard =
              heard_text link b to room s.user_uid s.display_name content
                (unix_timestamp_millis ambient.since_epoch) payload shows' written;
        }

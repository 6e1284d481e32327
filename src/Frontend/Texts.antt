-- ===== src/Frontend/Texts.antt =====
-- A text of the chat form of App.tsx, from the input to what server/src/main.rs does with it.
use vtnet.Base.{
  ℕ, Eq, ◌≡◌, ◌≤◌, ◌<◌, ◌↔◌, refl, true, false, some, [], ◌∷◌, ◌++◌, arith, ok, err, Result,
  Result-cases, inl, inr, subst, Bool-cases, map_err, ◌>>=◌, if◌then◌else◌, length, ltb,
}
use vtnet.Text.{Text, len, codes, is_empty}
use vtnet.External.{Base64, Ed25519}
use vtnet.Shared.Content.{RoomTextContent, ContentError, new, max_text_content_bytes}
use vtnet.Shared.Content.Laws.{IsContent, new_of_IsContent, new-IsContent}
use vtnet.Shared.Messages.{ClientMessage}
use vtnet.Shared.Wire.{ClientWire, SerdeJson, client_from_wire, content_field, bad_content}
use vtnet.Shared.Json.{Value, client_to_value}
use vtnet.Transport.{
  decode_client_message, from_str, max_websocket_text_bytes, WebSocketMessageError,
  message_too_large, invalid_protocol_message,
}
use vtnet.Runtime.{ServerState}
use vtnet.Runtime.Connection.{Connection, Ambient, text, ended, receive, receive_decoded}
use vtnet.Frontend.{State, send, send_message, socket_open}
use vtnet.Frontend.Script.{has_visible, utf16_len}
use vtnet.Frontend.Page.{type_text, send_text, say, max_length}
use vtnet.Frontend.Link.{Link, IsLink, server_view}

pub nonempty : (t : Text) → length t ≡ 36 → is_empty t ≡ false
nonempty [] h = absurd (omega arith)
nonempty (c ∷ t) h = refl

-- The page after a text went out, and what went out.
abbrev pub said : State → Text → Text → Value → State
said s room t now = record s {
  text_input = [];
  messages = s.messages ++ record { sender_name = codes "You"; text = t; timestamp = now } ∷ [];
}

pub sent_text :
    (s : State) (room t : Text) (now : Value)
    → s.socket ≡ some socket_open
    → s.active_room_id ≡ some room
    → is_empty room ≡ false
    → has_visible t ≡ true
    → utf16_len t ≤ max_length
    → send_text (type_text s t) now
      ≡ (said s room t now, send (client_to_value (ClientWire.send_text_message room t)) ∷ [])
unfolding send_text type_text say send_message client_to_value
sent_text s room t now live here named visible fits = ground arith

accepted-IsContent :
    (t : Text) (content : RoomTextContent) → new t ≡ ok content → IsContent (record { value = t })
accepted-IsContent t content q =
    subst (λ v. IsContent (record { value = v })) (new-IsContent t q).0 (new-IsContent t q).1

invalid : (t : Text) → ¬ IsContent (record { value = t }) → (x : ContentError) × (new t ≡ err x)
invalid t refused = elim (Result-cases (new t)) [
  | inl (content, q) ↦ absurd (refused (accepted-IsContent t content q))
  | inr (x, q) ↦ (x, q)
]

module _ {Uuid Json : Type 0} {serde : SerdeJson Uuid Json} {l : Link Uuid Json}
    (link : IsLink serde l) (b : Base64) where
  -- The frame with a text for a room.
  abbrev pub text_frame : Uuid → Text → Text
  text_frame room t =
      l.stringify (client_to_value (ClientWire.send_text_message (l.uuid_text room) t))

  text_frame-read :
      (room : Uuid) (t : Text)
      → serde.client_from_str (text_frame room t) ≡ some (ClientWire.send_text_message room t)
  unfolding server_view
  text_frame-read room t = ground (
    arith,
    link.from_str-stringify (ClientWire.send_text_message (l.uuid_text room) t) tt,
    link.uuid_parse-uuid_text room,
  )

  decode_eq :
      (room : Uuid) (t : Text) (r : Result RoomTextContent ContentError)
      → new t ≡ r
      → decode_client_message serde b (text_frame room t) ≡ (
          if ltb max_websocket_text_bytes (len (text_frame room t))
          then err message_too_large
          else map_err
              (λ _. invalid_protocol_message)
              (map_err bad_content r >>= λ content.
                ok (ClientMessage.send_text_message room content)))
  unfolding decode_client_message from_str client_from_wire content_field
  decode_eq room t r q = rw (text_frame-read room t, q) refl

  refused_text :
      (room : Uuid) (t : Text) (x : ContentError)
      → new t ≡ err x
      → (y : WebSocketMessageError) × (decode_client_message serde b (text_frame room t) ≡ err y)
  refused_text room t x q =
      elim (Bool-cases (ltb max_websocket_text_bytes (len (text_frame room t)))) [
        | inl large ↦ (message_too_large, ground (arith, decode_eq room t (err x) q))
        | inr short ↦ (invalid_protocol_message, ground (arith, decode_eq room t (err x) q))
      ]

  -- If the server reads the JSON that the page writes, it reads the frame of a chat text as that text
  -- exactly when the frame has at most 65536 bytes, and the text is neither blank, as Rust has it, nor
  -- longer than 4096 bytes.
  pub text_frame-decode :
      (room : Uuid) (t : Text)
      → (decode_client_message serde b (text_frame room t)
          ≡ ok (ClientMessage.send_text_message room (record { value = t })))
        ↔ ((len (text_frame room t) ≤ max_websocket_text_bytes) × IsContent (record { value = t }))
  text_frame-decode room t = (
    λ read. elim (Result-cases (new t)) [
      | inl (content, q) ↦
          (ground (arith, decode_eq room t (ok content) q), accepted-IsContent t content q)
      | inr (x, q) ↦ absurd (ground (arith, decode_eq room t (err x) q))
    ],
    λ (short, holds).
        ground (arith, decode_eq room t _ (new_of_IsContent (record { value = t }) holds)),
  )

  -- If the server reads the JSON that the page writes: a chat text of at most 4096 UTF-16 units with a
  -- visible character, but of more than 4096 bytes, which the page of a room lets through over its open
  -- socket, is shown as sent, and its frame ends the connection's loop at the server, which posts
  -- nothing for it.
  pub long_text-Ends :
      ⦃e : Eq Uuid⦄ (c : Ed25519) (s : State) (room : Uuid) (t : Text) (now : Value)
      → s.socket ≡ some socket_open
      → s.active_room_id ≡ some (l.uuid_text room)
      → has_visible t ≡ true
      → utf16_len t ≤ max_length
      → max_text_content_bytes < len t
      → (send_text (type_text s t) now ≡ (
        said s (l.uuid_text room) t now,
        send (client_to_value (ClientWire.send_text_message (l.uuid_text room) t)) ∷ [],
      ))
        × ((state : ServerState Uuid) (conn : Connection Uuid) (channel : ℕ) (ambient : Ambient)
            → receive b c serde state conn channel ambient (text (text_frame room t))
              ≡ (state, record conn { phase = ended }, []))
  unfolding receive receive_decoded
  long_text-Ends c s room t now live here visible fits long =
      let (x, q) = invalid t (λ holds. omega (arith, holds.bounded, long)) in
      let (y, unread) = refused_text room t x q in
      (
        sent_text s (l.uuid_text room) t now live here
            (nonempty (l.uuid_text room) (link.uuid_text_length room)) visible fits,
        λ state conn channel ambient. rw unread refl,
      )

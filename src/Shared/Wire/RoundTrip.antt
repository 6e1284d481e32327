-- ===== src/Shared/Wire/RoundTrip.antt =====
-- The derived `Serialize` and `Deserialize` of `ClientMessage` in shared/src/lib.rs, after each other.
use vtnet.Base.{◌≡◌, refl, ok, arith, subst, >>=-ok_elim, ok_inj}
use vtnet.External.{Base64, IsBase64}
use vtnet.Shared.Uid.{UserUid, IsUid}
use vtnet.Shared.Content.{RoomTextContent}
use vtnet.Text.{Text}
use vtnet.Shared.Uid.Codec.{deserialize-serialize, deserialize-IsUid}
use vtnet.Shared.Content.Laws.{IsContent, new-IsContent, new_of_IsContent}
use vtnet.Shared.Messages.{ClientMessage}
use vtnet.Shared.Wire.{ClientWire, client_to_wire, client_from_wire, uid_field, content_field}

-- What the types of the message's fields guarantee.
abbrev pub IsMessage : {Uuid Json : Type 0} → ClientMessage Uuid Json → Type 0
IsMessage (ClientMessage.auth_identify v uid) = IsUid uid
IsMessage (ClientMessage.send_text_message room content) = IsContent content
IsMessage (ClientMessage.send_web_rtc_sdp room target kind raw) = IsUid target
IsMessage (ClientMessage.send_web_rtc_ice room target candidate) = IsUid target
IsMessage _ = Unit {0}

content_field-IsContent : (t : Text) {c : RoomTextContent} → content_field t ≡ ok c → IsContent c
unfolding content_field
content_field-IsContent t {c} h = ground (arith, new-IsContent t {c = c})

module _ {b : Base64} (lawful : IsBase64 b) where
  uid_field-IsUid : (t : Text) {uid : UserUid} → uid_field b t ≡ ok uid → IsUid uid
  unfolding uid_field
  uid_field-IsUid t {uid} h = ground (arith, deserialize-IsUid lawful t {uid = uid})

module _ {Uuid Json : Type 0} {b : Base64} (lawful : IsBase64 b) where
  -- If base64 reads what it writes, every client message whose uid has 32 bytes and whose text is
  -- valid is read back from its wire form as it was.
  pub client_from_wire-client_to_wire :
      (m : ClientMessage Uuid Json) → IsMessage m → client_from_wire b (client_to_wire b m) ≡ ok m
  unfolding client_from_wire client_to_wire uid_field content_field
  client_from_wire-client_to_wire (ClientMessage.auth_identify v uid) h =
      rw (deserialize-serialize lawful uid h)
  client_from_wire-client_to_wire (ClientMessage.send_text_message room content) h =
      rw (new_of_IsContent content h)
  client_from_wire-client_to_wire (ClientMessage.send_web_rtc_sdp room target kind raw) h =
      rw (deserialize-serialize lawful target h)
  client_from_wire-client_to_wire (ClientMessage.send_web_rtc_ice room target candidate) h =
      rw (deserialize-serialize lawful target h)
  client_from_wire-client_to_wire _ h = refl

  -- Every message that is read at all is well formed: its uids have 32 bytes and its text is neither
  -- blank nor too long.
  pub client_from_wire-IsMessage :
      (w : ClientWire Uuid Json) {m : ClientMessage Uuid Json}
      → client_from_wire b w ≡ ok m
      → IsMessage m
  unfolding client_from_wire
  client_from_wire-IsMessage (ClientWire.auth_identify v t) e =
      >>=-ok_elim IsMessage (uid_field b t) _ (λ _. uid_field-IsUid lawful t) e
  client_from_wire-IsMessage (ClientWire.send_text_message room t) e =
      >>=-ok_elim IsMessage (content_field t) _ (λ _. content_field-IsContent t) e
  client_from_wire-IsMessage (ClientWire.send_web_rtc_sdp room t kind raw) e =
      >>=-ok_elim IsMessage (uid_field b t) _ (λ _. uid_field-IsUid lawful t) e
  client_from_wire-IsMessage (ClientWire.send_web_rtc_ice room t candidate) e =
      >>=-ok_elim IsMessage (uid_field b t) _ (λ _. uid_field-IsUid lawful t) e
  client_from_wire-IsMessage (ClientWire.auth_response t) e = subst IsMessage (ok_inj e) tt
  client_from_wire-IsMessage (ClientWire.join_voice_room t) e = subst IsMessage (ok_inj e) tt
  client_from_wire-IsMessage (ClientWire.leave_voice_room t) e = subst IsMessage (ok_inj e) tt

-- ===== src/Tests/Shared.antt =====
-- The shared data and the transport, at concrete inputs.
use vtnet.Base.{ℕ, ◌≡◌, ◌≤◌, ◌<◌, ◌↔◌, refl, some, [], ◌∷◌, ok, err, arith}
use vtnet.Text.{Text, len, is_whitespace, trim, trim_start, trim_end}
use vtnet.Text.Laws.{IsBlank}
use vtnet.Shared.Uid.{IsUid, serialize, deserialize}
use vtnet.Shared.Content.{new, must_not_be_empty, exceeds_4_kib, max_text_content_bytes}
use vtnet.Shared.Content.Laws.{IsContent, new-cases}
use vtnet.Shared.Payload.Layout.{IsHandshake, auth_signature_payload_inj}
use vtnet.Shared.Messages.{ClientMessage, answer}
use vtnet.Shared.Wire.{client_to_wire}
use vtnet.Transport.{decode_client_message, max_websocket_text_bytes}
use vtnet.Transport.Laws.{decode-to_string}
use vtnet.Tests.Crates.{base64, base64-IsBase64, serde, serde-IsSerdeJson}
use vtnet.Tests.Server.{server, alice, nonce}

alice-IsUid : IsUid alice
alice-IsUid = omega arith

deserialize-alice : deserialize base64 alice.bytes ≡ ok alice
unfolding server
deserialize-alice = refl

-- A tab and a no-break space around a letter.
abbrev spaced : Text
spaced = 9 ∷ b'x' ∷ 160 ∷ []

new_spaced : new spaced ≡ ok (record { value = spaced })
unfolding new len trim trim_start trim_end is_whitespace server
new_spaced = refl

new_blank : new (9 ∷ 160 ∷ []) ≡ err must_not_be_empty
unfolding new len trim trim_start trim_end is_whitespace server
new_blank = refl

new-cases_example :
    ((new spaced ≡ ok (record { value = spaced })) ↔ IsContent (record { value = spaced }))
    × ((new spaced ≡ err must_not_be_empty) ↔ IsBlank spaced)
    × ((new spaced ≡ err exceeds_4_kib)
        ↔ ((¬ IsBlank spaced) × (max_text_content_bytes < len spaced)))
new-cases_example = new-cases spaced

IsHandshake-of_alice : IsHandshake 1 nonce 5_000 alice
IsHandshake-of_alice = record {
  version_u16 = omega arith;
  nonce_array = omega arith;
  timestamp_u64 = omega arith;
  uid_array = alice-IsUid;
}

auth_signature_payload_inj_example :
    (◌≡◌ {A = ℕ} 1 1) × (nonce ≡ nonce) × (◌≡◌ {A = ℕ} 5_000 5_000) × (alice ≡ alice)
auth_signature_payload_inj_example =
    auth_signature_payload_inj 1 1 nonce nonce 5_000 5_000 alice alice IsHandshake-of_alice
      IsHandshake-of_alice refl

abbrev description : ClientMessage ℕ ℕ
description = ClientMessage.send_web_rtc_sdp 7 alice answer (b'v' ∷ b'=' ∷ b'0' ∷ [])

-- The description as the test's serialization writes it.
abbrev written : Text
written =
    5 ∷ 7 ∷ 1 ∷ 32 ∷ 1 ∷ 1 ∷ 1 ∷ 1 ∷ 1 ∷ 1 ∷ 1 ∷ 1 ∷ 1 ∷ 1 ∷ 1 ∷ 1 ∷ 1 ∷ 1 ∷ 1 ∷ 1 ∷ 1 ∷ 1 ∷ 1 ∷ 1
    ∷ 1 ∷ 1 ∷ 1 ∷ 1 ∷ 1 ∷ 1 ∷ 1 ∷ 1 ∷ 1 ∷ 1 ∷ 1 ∷ 1 ∷ b'v' ∷ b'=' ∷ b'0' ∷ []

write_description : serde.client_to_string (client_to_wire base64 description) ≡ some written
unfolding client_to_wire serialize server
write_description = refl

len-written : len written ≤ max_websocket_text_bytes
unfolding server
len-written = omega arith

decode-to_string_example : decode_client_message serde base64 written ≡ ok description
decode-to_string_example =
    decode-to_string serde base64 base64-IsBase64 serde-IsSerdeJson description written alice-IsUid
      write_description len-written

decode_written : decode_client_message serde base64 written ≡ ok description
unfolding server
decode_written = refl

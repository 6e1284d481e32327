-- ===== src/UnitTests/Protocol.antt =====
-- The unit tests of shared/src/lib.rs, server/src/transport.rs and client/src-tauri/src/identity.rs,
-- for every implementation of the crates that keeps its contract. A JSON string is the text that
-- serde_json makes of it. The test of a text of white space is not here: the JSON that it writes has
-- an invalid escape, a backslash before a line feed, so it is serde_json that refuses it.
use vtnet.Base.{
  none, Bool-cases, inl, inr, subst, sym, All-replicate, IsByte, ℕ, ◌+◌, ◌<◌, ◌≤◌, ◌≡◌, refl, ok,
  err, some, true, [], ◌∷◌, ◌++◌, zero, suc, replicate, Result, arith, nat_eq,
}
use vtnet.Text.{Text, len, len_utf8, trim, is_whitespace, is_empty}
use vtnet.External.{Base64, IsBase64, Ed25519, IsEd25519}
use vtnet.Shared.Uid.{from_bytes, as_bytes, serialize, deserialize, wrong_length}
use vtnet.Shared.Uid.Codec.{deserialize-serialize}
use vtnet.Shared.Content.{new, max_text_content_bytes, must_not_be_empty, exceeds_4_kib}
use vtnet.Shared.Payload.{
  auth_domain_separator, auth_nonce_bytes, auth_signature_payload, to_be_bytes,
}
use vtnet.Shared.Messages.{ClientMessage, auth_identify}
use vtnet.Shared.Wire.{SerdeJson, IsSerdeJson, client_to_wire}
use vtnet.Transport.{
  decode_client_message, from_str, invalid_protocol_message, max_websocket_text_bytes,
  message_too_large,
}
use vtnet.Transport.Laws.{decode-to_string, decode-too_large}
use vtnet.Client.{ed25519_seed_bytes, decode_nonce, nonce_invalid_length}

-- `.is_err()`
abbrev IsErr : {A E : Type 0} → Result A E → Type 0
IsErr {E = E} r = (x : E) × (r ≡ err x)

abbrev hello_vtnet : Text
hello_vtnet =
    b'H' ∷ b'e' ∷ b'l' ∷ b'l' ∷ b'o' ∷ b',' ∷ b' ' ∷ b'V' ∷ b'T' ∷ b'N' ∷ b'e' ∷ b't' ∷ b'!' ∷ []

abbrev no_json : Text
no_json =
    b'{' ∷ b' ' ∷ b'n' ∷ b'o' ∷ b't' ∷ b' ' ∷ b'v' ∷ b'a' ∷ b'l' ∷ b'i' ∷ b'd' ∷ b' ' ∷ b'j' ∷ b's'
    ∷ b'o' ∷ b'n' ∷ b' ' ∷ b'}' ∷ []

abbrev RoomTextContentDeserializesValidText : Type 0
RoomTextContentDeserializesValidText = new hello_vtnet ≡ ok (record { value = hello_vtnet })

abbrev RoomTextContentRejectsTextLargerThanFourKib : Type 0
RoomTextContentRejectsTextLargerThanFourKib =
    IsErr (new (replicate (max_text_content_bytes + 1) b'a'))

abbrev AuthSignaturePayloadHasCanonicalBinaryLayout : Type 0
AuthSignaturePayloadHasCanonicalBinaryLayout =
    auth_signature_payload 0x0102 (replicate auth_nonce_bytes 0xAA) 0x0102030405060708
      (record { bytes = replicate 32 0xBB })
    ≡ auth_domain_separator
      ++ (0x01 ∷ 0x02 ∷ [])
      ++ replicate auth_nonce_bytes 0xAA
      ++ (0x01 ∷ 0x02 ∷ 0x03 ∷ 0x04 ∷ 0x05 ∷ 0x06 ∷ 0x07 ∷ 0x08 ∷ [])
      ++ replicate 32 0xBB

module _ (b : Base64) where
  abbrev UserUidSerializesAsBase64StringAndRoundTrips : Type 0
  UserUidSerializesAsBase64StringAndRoundTrips =
      let user_uid = from_bytes (replicate 32 42) in
      (serialize b user_uid ≡ b.encode (replicate 32 42))
      × (deserialize b (serialize b user_uid) ≡ ok user_uid)

  abbrev UserUidRejectsInvalidByteLength : Type 0
  UserUidRejectsInvalidByteLength = IsErr (deserialize b (b.encode (replicate 31 0)))

  abbrev NonceDecoderRejectsAnIncorrectLength : Type 0
  NonceDecoderRejectsAnIncorrectLength = IsErr (decode_nonce b (b.encode (replicate 31 0)))

-- The message of the test of a valid frame.
abbrev identification : {Uuid Json : Type 0} → ClientMessage Uuid Json
identification = auth_identify 1 (from_bytes (replicate 32 1))

module _ {Uuid Json : Type 0} (b : Base64) (serde : SerdeJson Uuid Json) where
  -- What serde_json does with the two texts of the tests: it writes a short `json` for the
  -- identification, and finds no message in the other.
  record IsJson (json : Text) : Type 0 where
    written : serde.client_to_string (client_to_wire b identification) ≡ some json
    short : len json ≤ max_websocket_text_bytes
    refused : serde.client_from_str no_json ≡ none

  abbrev DecodesValidClientProtocolJson : Text → Type 0
  DecodesValidClientProtocolJson json = decode_client_message serde b json ≡ ok identification

  abbrev RejectsInvalidProtocolJson : Type 0
  RejectsInvalidProtocolJson = decode_client_message serde b no_json ≡ err invalid_protocol_message

  abbrev RejectsTextFramesLargerThanTheTransportLimit : Type 0
  RejectsTextFramesLargerThanTheTransportLimit =
      decode_client_message serde b (replicate (max_websocket_text_bytes + 1) b'a')
      ≡ err message_too_large

abbrev AuthSignatureCanBeVerifiedByThePublicIdentity : (c : Ed25519) → Type 0
AuthSignatureCanBeVerifiedByThePublicIdentity c =
    let signing_key = c.signing_key (replicate ed25519_seed_bytes 9) in
    let user_uid = from_bytes (c.public_bytes signing_key) in
    let payload = auth_signature_payload 1 (replicate auth_nonce_bytes 4) 42 user_uid in
    let signature = c.sign signing_key payload in
    (verifying_key : c.VerifyingKey) × (c.verifying_key (as_bytes user_uid) ≡ some verifying_key)
    × (c.verify_strict verifying_key payload signature ≡ true)

len-replicate : (n : ℕ) → len (replicate n b'a') ≡ n
unfolding len len_utf8
len-replicate zero = refl
len-replicate (suc n) = omega (arith, len-replicate n)

long-IsErr : (t : Text) → max_text_content_bytes < len t → IsErr (new t)
unfolding new
long-IsErr t long = elim (Bool-cases (is_empty (trim t))) [
  | inl blank ↦ (must_not_be_empty, ground arith)
  | inr full ↦ (exceeds_4_kib, ground arith)
]

longer : (n m : ℕ) → m < n → m < len (replicate n b'a')
longer n m h = subst (λ k. m < k) (sym (len-replicate n)) h

large_text_fails : RoomTextContentRejectsTextLargerThanFourKib
large_text_fails =
    long-IsErr (replicate (max_text_content_bytes + 1) b'a')
      (longer (max_text_content_bytes + 1) max_text_content_bytes (omega arith))

large_frame_fails :
    {Uuid Json : Type 0} (b : Base64) (serde : SerdeJson Uuid Json)
    → RejectsTextFramesLargerThanTheTransportLimit b serde
large_frame_fails b serde =
    (decode-too_large serde b (replicate (max_websocket_text_bytes + 1) b'a')).1
      (longer (max_websocket_text_bytes + 1) max_websocket_text_bytes (omega arith))

decodes_short :
    {b : Base64} (b64 : IsBase64 b) (n : ℕ)
    → b.decode (b.encode (replicate n 0)) ≡ some (replicate n 0)
decodes_short b64 n = b64.decode-encode _ (All-replicate IsByte n 0 (omega arith))

short_uid_fails : {b : Base64} → IsBase64 b → UserUidRejectsInvalidByteLength b
unfolding deserialize nat_eq
short_uid_fails b64 = (wrong_length, rw (decodes_short b64 31))

short_nonce_fails : {b : Base64} → IsBase64 b → NonceDecoderRejectsAnIncorrectLength b
unfolding decode_nonce nat_eq
short_nonce_fails b64 = (nonce_invalid_length, rw (decodes_short b64 31))

no_json_fails :
    {Uuid Json : Type 0} (b : Base64) (serde : SerdeJson Uuid Json)
    → serde.client_from_str no_json ≡ none
    → RejectsInvalidProtocolJson b serde
unfolding decode_client_message from_str len len_utf8
no_json_fails b serde e = rw e

record ProtocolTests {Uuid Json : Type 0} (b : Base64) (c : Ed25519) (serde : SerdeJson Uuid Json)
    (json : Text) : Type 0 where
  valid_text : RoomTextContentDeserializesValidText
  large_text : RoomTextContentRejectsTextLargerThanFourKib
  layout : AuthSignaturePayloadHasCanonicalBinaryLayout
  uid_text : UserUidSerializesAsBase64StringAndRoundTrips b
  uid_length : UserUidRejectsInvalidByteLength b
  no_message : RejectsInvalidProtocolJson b serde
  nonce_length : NonceDecoderRejectsAnIncorrectLength b
  decodes : DecodesValidClientProtocolJson b serde json
  large_frame : RejectsTextFramesLargerThanTheTransportLimit b serde
  verifies : AuthSignatureCanBeVerifiedByThePublicIdentity c

module _ {Uuid Json : Type 0} {b : Base64} {c : Ed25519} {serde : SerdeJson Uuid Json} where
  -- With crates that keep their contracts, these tests of texts, uids, frames, nonces, payloads and
  -- signatures pass.
  all-ProtocolTests :
      IsBase64 b
      → IsEd25519 c
      → IsSerdeJson serde
      → (json : Text) → IsJson b serde json
      → ProtocolTests b c serde json
  unfolding serialize new trim is_whitespace len len_utf8 nat_eq auth_signature_payload to_be_bytes
  all-ProtocolTests b64 ed reads json h = record {
    valid_text = refl;
    large_text = large_text_fails;
    layout = refl;
    uid_text = (
      refl,
      deserialize-serialize b64 (from_bytes (replicate 32 42))
          (refl, All-replicate IsByte 32 42 (omega arith)),
    );
    uid_length = short_uid_fails b64;
    no_message = no_json_fails b serde h.refused;
    nonce_length = short_nonce_fails b64;
    decodes =
        decode-to_string serde b b64 reads identification json
          (refl, All-replicate IsByte 32 1 (omega arith)) h.written h.short;
    large_frame = large_frame_fails b serde;
    verifies =
        let (key, key_eq, verified) =
          ed.verifies (c.signing_key (replicate ed25519_seed_bytes 9)) _ in
        (key, key_eq, verified);
  }

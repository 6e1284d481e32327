-- ===== src/Shared/Payload/Layout.antt =====
-- The layout of the signed bytes of shared/src/lib.rs, and what it tells of the parts.
use vtnet.Base.{ℕ, ◌^◌, ◌<◌, ◌≡◌, refl, ap, List, arith, append_inj, IsArray, append-IsArray}
use vtnet.Shared.Uid.{UserUid, IsUid, from_bytes}
use vtnet.Shared.Payload.{
  auth_signature_payload, auth_domain_separator, auth_nonce_bytes, to_be_bytes,
}
use vtnet.Shared.Payload.Bytes.{length-to_be_bytes, to_be_bytes_inj, to_be_bytes-bytes}

-- The parts of one handshake that a signature is bound to, each within its Rust type.
pub record IsHandshake (version : ℕ) (nonce : List ℕ) (timestamp : ℕ) (uid : UserUid) : Type 0 where
  pub version_u16 : version < 2 ^ 16
  pub nonce_array : IsArray auth_nonce_bytes nonce
  pub timestamp_u64 : timestamp < 2 ^ 64
  pub uid_array : IsUid uid

to_be_bytes-IsArray : (n v : ℕ) → IsArray n (to_be_bytes n v)
to_be_bytes-IsArray n v = (length-to_be_bytes n v, to_be_bytes-bytes n v)

-- The signed payload of parts that fit their Rust types is 87 bytes.
pub auth_signature_payload-IsArray :
    (version : ℕ) (nonce : List ℕ) (timestamp : ℕ) (uid : UserUid)
    → IsHandshake version nonce timestamp uid
    → IsArray 87 (auth_signature_payload version nonce timestamp uid)
unfolding auth_signature_payload
auth_signature_payload-IsArray version nonce timestamp uid h =
    append-IsArray auth_domain_separator _ {m = 13} {n = 74} (omega arith) (
      append-IsArray (to_be_bytes 2 version) _ {m = 2} {n = 72} (to_be_bytes-IsArray 2 version) (
        append-IsArray nonce _ {m = 32} {n = 40} h.nonce_array (
          append-IsArray (to_be_bytes 8 timestamp) uid.bytes {m = 8} {n = 32}
            (to_be_bytes-IsArray 8 timestamp) h.uid_array)))

-- Two handshakes whose parts fit their Rust types have one payload only if they have the same
-- version, nonce, timestamp and uid.
pub auth_signature_payload_inj :
    (v v' : ℕ) (n n' : List ℕ) (t t' : ℕ) (u u' : UserUid)
    → IsHandshake v n t u
    → IsHandshake v' n' t' u'
    → auth_signature_payload v n t u ≡ auth_signature_payload v' n' t' u'
    → (v ≡ v') × (n ≡ n') × (t ≡ t') × (u ≡ u')
unfolding auth_signature_payload
auth_signature_payload_inj v v' n n' t t' u u' h h' e =
    let a = append_inj auth_domain_separator auth_domain_separator _ _ 13 refl refl e in
    let b = append_inj _ _ _ _ 2 (length-to_be_bytes 2 v) (length-to_be_bytes 2 v') a.1 in
    let c = append_inj n n' _ _ 32 h.nonce_array.0 h'.nonce_array.0 b.1 in
    let d = append_inj _ _ _ _ 8 (length-to_be_bytes 8 t) (length-to_be_bytes 8 t') c.1 in
    (
      to_be_bytes_inj 2 v v' h.version_u16 h'.version_u16 b.0,
      c.0,
      to_be_bytes_inj 8 t t' h.timestamp_u64 h'.timestamp_u64 d.0,
      ap from_bytes d.1,
    )

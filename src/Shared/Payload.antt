-- ===== src/Shared/Payload.antt =====
-- `auth_signature_payload` of shared/src/lib.rs: the bytes that a client signs and the server
-- verifies.
pub mod Bytes
pub mod Layout
use vtnet.Base.{ℕ, zero, suc, ◌/◌, ◌%◌, List, [], ◌∷◌, ◌++◌}
use vtnet.Shared.Uid.{UserUid, as_bytes}

-- b"VTNET_AUTH_v1"
abbrev pub auth_domain_separator : List ℕ
auth_domain_separator =
    b'V' ∷ b'T' ∷ b'N' ∷ b'E' ∷ b'T' ∷ b'_' ∷ b'A' ∷ b'U' ∷ b'T' ∷ b'H' ∷ b'_' ∷ b'v' ∷ b'1' ∷ []

abbrev pub auth_nonce_bytes : ℕ
auth_nonce_bytes = 32

-- `to_be_bytes` of an unsigned integer of `n` bytes.
unfoldable pub to_be_bytes : ℕ → ℕ → List ℕ
to_be_bytes zero v = []
to_be_bytes (suc n) v = to_be_bytes n (v / 256) ++ (v % 256) ∷ []

-- The version is a `u16` and the timestamp a `u64`, of 2 and 8 bytes.
unfoldable pub auth_signature_payload : ℕ → List ℕ → ℕ → UserUid → List ℕ
auth_signature_payload protocol_version nonce server_timestamp client_uid =
    auth_domain_separator
    ++ (to_be_bytes 2 protocol_version
        ++ (nonce ++ (to_be_bytes 8 server_timestamp ++ as_bytes client_uid)))

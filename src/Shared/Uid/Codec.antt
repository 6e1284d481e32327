-- ===== src/Shared/Uid/Codec.antt =====
-- The JSON string of a `UserUid` of shared/src/lib.rs, written and read.
use vtnet.Base.{◌≡◌, ok, arith}
use vtnet.Text.{Text}
use vtnet.External.{Base64, IsBase64}
use vtnet.Shared.Uid.{UserUid, IsUid, serialize, deserialize}

module _ {b : Base64} (lawful : IsBase64 b) where
  -- If base64 reads what it writes, the written form of a uid of 32 bytes is read as that uid.
  pub deserialize-serialize : (uid : UserUid) → IsUid uid → deserialize b (serialize b uid) ≡ ok uid
  unfolding deserialize serialize
  deserialize-serialize uid h = ground (arith, lawful.decode-encode uid.bytes h.1)

  -- If base64 decodes to bytes, then whatever text is read as a uid, the uid has exactly 32 bytes.
  pub deserialize-IsUid : (t : Text) {uid : UserUid} → deserialize b t ≡ ok uid → IsUid uid
  unfolding deserialize
  deserialize-IsUid t {uid} h = ground (arith, lawful.decode_bytes t uid.bytes)

  -- No two well-formed uids have one written form.
  pub serialize_inj : (u v : UserUid) → IsUid u → IsUid v → serialize b u ≡ serialize b v → u ≡ v
  serialize_inj u v hu hv e = ground (arith, deserialize-serialize u hu, deserialize-serialize v hv)

-- ===== src/Shared/Uid.antt =====
-- `UserUid` of shared/src/lib.rs: an Ed25519 public key of 32 bytes, in JSON a Base64 string.
pub mod Codec
use vtnet.Base.{
  ℕ, ap, Eq, List, Option, none, some, dite, ℕ_discrete, length, IsArray, Result, ok, ◌>>=◌, ok_or,
  if◌then◌else◌, ◌==◌, nat_eq, List-discrete,
}
use vtnet.Text.{Text}
use vtnet.External.{Base64}

pub record UserUid : Type 0 where
  pub bytes : List ℕ

-- A value of the Rust type holds exactly 32 bytes.
abbrev pub IsUid : UserUid → Type 0
IsUid uid = IsArray 32 uid.bytes

UserUid-discrete : Discrete UserUid
UserUid-discrete a b =
    dite (List-discrete ℕ_discrete a.bytes b.bytes) (λ p. yes (λ i. record { bytes = p i }))
      (λ n. no (λ q. n (ap (λ (u : UserUid). u.bytes) q)))

-- The derived `PartialEq` and `Hash`: keys of maps and sets.
instance unfoldable pub uid_eq : Eq UserUid
unfolding UserUid-discrete List-discrete ℕ_discrete
uid_eq = record { dec = UserUid-discrete }

abbrev pub from_bytes : List ℕ → UserUid
from_bytes bytes = record { bytes = bytes }

abbrev pub as_bytes : UserUid → List ℕ
as_bytes uid = uid.bytes

-- `Vec<u8>::try_into::<[u8; n]>`
unfoldable pub try_into_array : ℕ → List ℕ → Option (List ℕ)
try_into_array n bytes = if length bytes == n then some bytes else none

pub data UidError : Type 0 where
  invalid_base64 wrong_length : UidError

module _ (b : Base64) where
  unfoldable pub serialize : UserUid → Text
  serialize uid = b.encode uid.bytes

  unfoldable pub deserialize : Text → Result UserUid UidError
  unfolding try_into_array
  deserialize encoded = do
    decoded ← ok_or (b.decode encoded) invalid_base64
    bytes ← ok_or (try_into_array 32 decoded) wrong_length
    ok (from_bytes bytes)

-- ===== src/External.antt =====
-- What the program takes from crates outside the repository: each crate is a record of the calls
-- that the program makes, with a record of the documented laws that are relied on (IsBase64 and so on).
use vtnet.Base.{ℕ, ◌≡◌, Bool, true, Option, some, List, length, All, IsByte, IsArray, Result, ok}
use vtnet.Text.{Text}

-- `base64::engine::general_purpose::STANDARD`
pub record Base64 : Type 0 where
  pub encode : List ℕ → Text
  pub decode : Text → Option (List ℕ)

pub record IsBase64 (b : Base64) : Type 0 where
  pub decode-encode : (bytes : List ℕ) → All IsByte bytes → b.decode (b.encode bytes) ≡ some bytes
  pub decode_bytes : (t : Text) (bytes : List ℕ) → b.decode t ≡ some bytes → All IsByte bytes

-- `ed25519_dalek`: `SigningKey`, `VerifyingKey` and `Signature`
pub record Ed25519 : Type 1 where
  pub SigningKey : Type 0
  pub VerifyingKey : Type 0
  pub Signature : Type 0
  -- `SigningKey::from_bytes`
  pub signing_key : List ℕ → SigningKey
  -- `signing_key.verifying_key().to_bytes()`
  pub public_bytes : SigningKey → List ℕ
  pub sign : SigningKey → List ℕ → Signature
  -- `VerifyingKey::from_bytes`
  pub verifying_key : List ℕ → Option VerifyingKey
  -- `VerifyingKey::verify_strict(..).is_ok()`
  pub verify_strict : VerifyingKey → List ℕ → Signature → Bool
  -- `Signature::from_slice` and `Signature::to_bytes`
  pub signature_from_slice : List ℕ → Option Signature
  pub signature_to_bytes : Signature → List ℕ

-- What `sign` makes, `verify_strict` accepts under the same key; a signature survives its 64 bytes.
pub record IsEd25519 (c : Ed25519) : Type 0 where
  pub public_array : (k : c.SigningKey) → IsArray 32 (c.public_bytes k)
  pub signature_array : (s : c.Signature) → IsArray 64 (c.signature_to_bytes s)
  pub from_slice-to_bytes :
      (s : c.Signature) → c.signature_from_slice (c.signature_to_bytes s) ≡ some s
  pub from_slice_length :
      (bytes : List ℕ) (s : c.Signature) → c.signature_from_slice bytes ≡ some s → length bytes ≡ 64
  pub verifies :
      (k : c.SigningKey) (m : List ℕ)
      → (v : c.VerifyingKey) × (c.verifying_key (c.public_bytes k) ≡ some v)
        × (c.verify_strict v m (c.sign k m) ≡ true)

pub data KeyringError : Type 0 where
  -- `keyring::Error::NoEntry`
  no_entry : KeyringError
  other : Text → KeyringError

-- `keyring::Entry` for the program's one service and account, over the state of the OS keyring.
pub record Keyring : Type 1 where
  pub State : Type 0
  -- `Entry::new`
  pub new : State → Result (Unit {0}) Text
  pub get_password : State → Result Text KeyringError
  pub set_password : State → Text → Result State Text

-- A password that was stored is the one that is read.
pub record IsKeyring (k : Keyring) : Type 0 where
  pub get-set : (s s' : k.State) (t : Text) → k.set_password s t ≡ ok s' → k.get_password s' ≡ ok t

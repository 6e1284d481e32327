-- ===== src/Client.antt =====
-- client/src-tauri/src/identity.rs: the identity of a client process, kept in the OS keyring, and
-- the signing of a challenge. The random seed that `OsRng` would give is an argument.
pub mod Identity
pub mod Handshake
pub mod Commands
pub mod OneKey
use vtnet.Base.{
  ℕ, Bool, Option, none, some, List, Result, ok, err, ◌>>=◌, ok_or, map_err, if◌then◌else◌,
}
use vtnet.Text.{Text}
use vtnet.External.{Base64, Ed25519, Keyring, KeyringError, no_entry, other}
use vtnet.Shared.Uid.{UserUid, from_bytes, try_into_array}
use vtnet.Shared.Payload.{auth_signature_payload, auth_nonce_bytes}

abbrev pub ed25519_seed_bytes : ℕ
ed25519_seed_bytes = 32

pub record IdentityInfo : Type 0 where
  pub user_uid : UserUid

pub record SignAuthChallengeRequest : Type 0 where
  pub protocol_version : ℕ
  pub nonce_base64 : Text
  pub server_timestamp : ℕ

-- The error texts of the source; those with a detail carry it.
pub data IdentityError : Type 0 where
  lock_was_poisoned : IdentityError
  could_not_access could_not_save could_not_load : Text → IdentityError
  identity_not_base64 identity_invalid_length : IdentityError
  nonce_not_base64 nonce_invalid_length : IdentityError

-- The process: `IDENTITY_SEED`, whether its lock is poisoned, and the keyring around it.
pub record Process (k : Keyring) : Type 0 where
  pub cached_seed : Option (List ℕ)
  pub is_poisoned : Bool
  pub keyring : k.State

module _ (b : Base64) where
  decode_array : ℕ → IdentityError → IdentityError → Text → Result (List ℕ) IdentityError
  unfolding try_into_array
  decode_array n not_base64 invalid_length encoded = do
    bytes ← ok_or (b.decode encoded) not_base64
    ok_or (try_into_array n bytes) invalid_length

  unfoldable pub decode_seed : Text → Result (List ℕ) IdentityError
  unfolding decode_array
  decode_seed = decode_array ed25519_seed_bytes identity_not_base64 identity_invalid_length

  unfoldable pub decode_nonce : Text → Result (List ℕ) IdentityError
  unfolding decode_array
  decode_nonce = decode_array auth_nonce_bytes nonce_not_base64 nonce_invalid_length

  module _ (k : Keyring) where
    -- The seed that the keyring has, or a new one that it takes.
    unfoldable pub seed_of_entry :
        k.State → List ℕ → Result Text KeyringError → Result (List ℕ × k.State) IdentityError
    seed_of_entry ring fresh (ok encoded_seed) = do seed ← decode_seed encoded_seed; ok (seed, ring)
    seed_of_entry ring fresh (err no_entry) = do
      ring' ← map_err could_not_save (k.set_password ring (b.encode fresh))
      ok (fresh, ring')
    seed_of_entry ring fresh (err (other error)) = err (could_not_load error)

    unfoldable pub load_seed : k.State → List ℕ → Result (List ℕ × k.State) IdentityError
    unfolding seed_of_entry
    load_seed ring fresh = do
      _ ← map_err could_not_access (k.new ring)
      seed_of_entry ring fresh (k.get_password ring)

    module _ (c : Ed25519) where
      -- What is done under the lock where no seed is cached.
      unfoldable pub store_seed :
          Process k
          → Result (List ℕ × k.State) IdentityError
          → Process k × Result c.SigningKey IdentityError
      store_seed process (ok (seed, ring)) =
          (record process { cached_seed = some seed; keyring = ring }, ok (c.signing_key seed))
      store_seed process (err error) = (process, err error)

      unfoldable pub locked_load :
          Process k → List ℕ → Option (List ℕ) → Process k × Result c.SigningKey IdentityError
      locked_load process fresh (some seed) = (process, ok (c.signing_key seed))
      locked_load process fresh none = store_seed process (load_seed process.keyring fresh)

      unfoldable pub load_or_create_signing_key :
          Process k → List ℕ → Process k × Result c.SigningKey IdentityError
      unfolding locked_load store_seed
      load_or_create_signing_key process fresh =
          if process.is_poisoned
          then (process, err lock_was_poisoned)
          else locked_load process fresh process.cached_seed

      unfoldable pub get_or_create_identity :
          Process k → List ℕ → Process k × Result IdentityInfo IdentityError
      get_or_create_identity process fresh =
          let (process', loaded) = load_or_create_signing_key process fresh in
          (process', do key ← loaded; ok (record { user_uid = from_bytes (c.public_bytes key) }))

      -- The signing that follows once nonce and key are there.
      unfoldable pub signature_of : SignAuthChallengeRequest → List ℕ → c.SigningKey → Text
      signature_of request nonce key =
          let user_uid = from_bytes (c.public_bytes key) in
          let payload =
            auth_signature_payload request.protocol_version nonce request.server_timestamp
              user_uid in
          b.encode (c.signature_to_bytes (c.sign key payload))

      unfoldable pub sign_with :
          Process k
          → List ℕ
          → SignAuthChallengeRequest
          → Result (List ℕ) IdentityError
          → Process k × Result Text IdentityError
      sign_with process fresh request (err error) = (process, err error)
      sign_with process fresh request (ok nonce) =
          let (process', loaded) = load_or_create_signing_key process fresh in
          (process', do key ← loaded; ok (signature_of request nonce key))

      unfoldable pub sign_auth_challenge :
          Process k → List ℕ → SignAuthChallengeRequest → Process k × Result Text IdentityError
      unfolding sign_with signature_of
      sign_auth_challenge process fresh request =
          sign_with process fresh request (decode_nonce request.nonce_base64)

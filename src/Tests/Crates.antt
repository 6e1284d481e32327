-- ===== src/Tests/Crates.antt =====
-- Small implementations of the crates: a Base64 that writes bytes as characters, a signature of one
-- bit, a keyring of one entry.
mod Json
mod Page
pub use Json.{serde, serde-IsSerdeJson, write_server}
pub use Page.{link, link-IsLink}
use vtnet.Base.{
  ℕ, ◌≡◌, refl, ap, Bool, true, false, not, Option, none, some, List, [], ◌∷◌, length, replicate,
  All, IsByte, IsArray, Result, ok, err, arith, if◌then◌else◌, ltb, ◌==◌, nat_eq, ◌&&◌, ◌%◌,
}
use vtnet.Text.{Text}
use vtnet.External.{
  Base64, IsBase64, Ed25519, IsEd25519, Keyring, IsKeyring, KeyringError, no_entry,
}

abbrev all_bytes : List ℕ → Bool
all_bytes [] = true
all_bytes (x ∷ xs) = ltb x 256 && all_bytes xs

all_bytes_complete : (xs : List ℕ) → All IsByte xs → all_bytes xs ≡ true
all_bytes_complete [] h = refl
all_bytes_complete (x ∷ xs) h = ground (arith, all_bytes_complete xs h.1)

all_bytes_sound : (xs : List ℕ) → all_bytes xs ≡ true → All IsByte xs
all_bytes_sound [] h = tt
all_bytes_sound (x ∷ xs) h = (ground arith, all_bytes_sound xs (ground arith))

abbrev read_bytes : Text → Option (List ℕ)
read_bytes t = if all_bytes t then some t else none

abbrev pub base64 : Base64
base64 = record { encode = λ bytes. bytes; decode = read_bytes }

pub base64-IsBase64 : IsBase64 base64
base64-IsBase64 = record {
  decode-encode = λ bytes h. ground (arith, all_bytes_complete bytes h);
  decode_bytes = λ t bytes e. ground (arith, all_bytes_sound t);
}

abbrev is_odd : List ℕ → Bool
is_odd [] = false
is_odd (x ∷ xs) = if ltb 0 (x % 2) then not (is_odd xs) else is_odd xs

abbrev xor : Bool → Bool → Bool
xor true b = not b
xor false b = b

abbrev bit : Bool → ℕ
bit true = 1
bit false = 0

abbrev of_bit : List ℕ → Bool
of_bit [] = false
of_bit (x ∷ xs) = ltb 0 x

abbrev from_slice : List ℕ → Option Bool
from_slice bytes = if length bytes == 64 then some (of_bit bytes) else none

abbrev pub ed25519 : Ed25519
ed25519 = record {
  SigningKey = Bool;
  VerifyingKey = Bool;
  Signature = Bool;
  signing_key = is_odd;
  public_bytes = λ key. replicate 32 (bit key);
  sign = λ key message. xor key (is_odd message);
  verifying_key = λ bytes. some (of_bit bytes);
  verify_strict = λ key message signature. not (xor signature (xor key (is_odd message)));
  signature_from_slice = from_slice;
  signature_to_bytes = λ signature. replicate 64 (bit signature);
}

verify_sign : (a b : Bool) → not (xor (xor a b) (xor a b)) ≡ true
verify_sign true true = refl
verify_sign true false = refl
verify_sign false true = refl
verify_sign false false = refl

of_bits : (key : Bool) → of_bit (replicate 32 (bit key)) ≡ key
of_bits true = refl
of_bits false = refl

from_bits : (s : Bool) → from_slice (replicate 64 (bit s)) ≡ some s
unfolding nat_eq
from_bits true = refl
from_bits false = refl

key-IsArray : (key : Bool) → IsArray 32 (replicate 32 (bit key))
key-IsArray true = omega arith
key-IsArray false = omega arith

bits-IsArray : (s : Bool) → IsArray 64 (replicate 64 (bit s))
bits-IsArray true = omega arith
bits-IsArray false = omega arith

pub ed25519-IsEd25519 : IsEd25519 ed25519
ed25519-IsEd25519 = record {
  public_array = key-IsArray;
  signature_array = bits-IsArray;
  from_slice-to_bytes = from_bits;
  from_slice_length = λ bytes s e. ground arith;
  verifies = λ key m. (key, ap some (of_bits key), verify_sign key (is_odd m));
}

abbrev entry : Option Text → Result Text KeyringError
entry none = err no_entry
entry (some password) = ok password

abbrev pub keyring : Keyring
keyring = record {
  State = Option Text;
  new = λ s. ok tt;
  get_password = entry;
  set_password = λ s t. ok (some t);
}

pub keyring-IsKeyring : IsKeyring keyring
keyring-IsKeyring = record { get-set = λ s s' t e. ground arith }

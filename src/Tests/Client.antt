-- ===== src/Tests/Client.antt =====
-- A client process, at concrete inputs.
use vtnet.Base.{ℕ, refl, none, some, true, false, List, [], ◌∷◌, arith, replicate, ◌++◌}
use vtnet.Client.{Process}
use vtnet.Client.Identity.{IsCached}
use vtnet.Client.Handshake.{handshake}
use vtnet.Client.Handshake
use vtnet.Tests.Crates.{base64, base64-IsBase64, ed25519, ed25519-IsEd25519, keyring}
use vtnet.Tests.Server.{alice, nonce}
use vtnet.Client.{SignAuthChallengeRequest}
use vtnet.Client.Commands.{Call, get_or_create_identity, sign_auth_challenge, run}
use vtnet.Client.OneKey.{AreRepliesOf, one_key}
use vtnet.Tests.Handshake.{begun}

-- A process that has not loaded its identity, over an empty keyring, and one that has.
abbrev seed : List ℕ
seed = replicate 31 2 ++ 3 ∷ []

abbrev new_process : Process keyring
new_process = record { cached_seed = none; is_poisoned = false; keyring = none }

abbrev loaded : Process keyring
loaded = record { cached_seed = some seed; is_poisoned = false; keyring = some seed }

loaded-IsCached : IsCached base64 keyring ed25519 loaded true
loaded-IsCached = record { seed = seed; cached = refl; unpoisoned = refl; key_eq = refl }

handshake_example :
    Handshake.IsHandshake base64 ed25519 keyring ℕ loaded [] alice begun nonce [] 5_000 9_000 7
      4_000_000_007
handshake_example =
    handshake base64 ed25519 keyring ℕ base64-IsBase64 ed25519-IsEd25519 loaded [] true begun nonce
      [] 5_000 9_000 7 4_000_000_007 loaded-IsCached refl (omega arith) (omega arith)

-- A signature before there is an identity, then the identity, with the keyring emptied in between.
abbrev request : SignAuthChallengeRequest
request = record { nonce_base64 = nonce; server_timestamp = 5_000; protocol_version = 1 }

abbrev calls : List (Call keyring)
calls =
    record { command = sign_auth_challenge request; fresh = seed; keyring = none }
    ∷ record { command = get_or_create_identity; fresh = replicate 32 4; keyring = none }
    ∷ []

one_key_example :
    (key : ed25519.SigningKey) × AreRepliesOf base64 ed25519 key calls
      (run base64 keyring ed25519 new_process calls)
one_key_example = one_key base64-IsBase64 keyring ed25519 new_process calls

-- ===== src/Tests/Login.antt =====
-- Alice comes back to the server that Alice and Bob have left in Tests/Network.
use vtnet.Base.{ℕ, nat_eq, ◌≡◌, ◌≢◌, refl, some, ◌∷◌, true, arith}
use vtnet.Text.{Text}
use vtnet.Shared.Uid.{serialize}
use vtnet.Shared.Messages.{auth_identify, auth_response}
use vtnet.Shared.Wire.{client_to_wire}
use vtnet.Room.Session.{Session}
use vtnet.Runtime.Connection.{absent}
use vtnet.Runtime.Login.{IsText, IsLoggedIn, challenge_to, response_to, can_log_in}
use vtnet.Tests.Crates.{
  base64, base64-IsBase64, ed25519, ed25519-IsEd25519, serde, serde-IsSerdeJson,
}
use vtnet.Tests.Server.{server, alice, ambient}
use vtnet.Tests.Network.{nobody, nobody-Reach, nobody_there}

unused_slot : (nobody.connection 2).phase ≡ absent
unfolding server
unused_slot = refl

offline : (j : ℕ) (s : Session ℕ) → (nobody.connection j).session ≡ some s → s.user_uid ≢ alice
offline j s has = λ q. cc (nobody_there j, has)

abbrev identification : Text
identification = 0 ∷ 1 ∷ alice.bytes

abbrev response : Text
response = 1 ∷ response_to base64 ed25519 true ambient

identification-IsText : IsText base64 serde (auth_identify 1 alice) identification
unfolding server client_to_wire serialize
identification-IsText = record { written = refl; short = omega arith }

response-IsText :
    IsText base64 serde (auth_response (response_to base64 ed25519 true ambient)) response
unfolding server client_to_wire serialize
response-IsText = record { written = refl; short = omega arith }

can_log_in_example :
    IsLoggedIn base64 ed25519 serde nobody 2
      (challenge_to ed25519 true ambient)
      ambient
      ambient
      identification
      response
can_log_in_example =
    can_log_in base64 ed25519 serde true ambient ambient base64-IsBase64 ed25519-IsEd25519
      serde-IsSerdeJson nobody-Reach 2 unused_slot offline (omega arith) identification response
      identification-IsText response-IsText

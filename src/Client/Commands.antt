-- ===== src/Client/Commands.antt =====
-- `run` of client/src-tauri/src/lib.rs: the two commands that a frontend can call, any number of
-- times, on the process of identity.rs. Between two calls the keyring may have become another.
use vtnet.Base.{ℕ, List, [], ◌∷◌, Result}
use vtnet.Text.{Text}
use vtnet.External.{Base64, Ed25519, Keyring}
use vtnet.Client
use vtnet.Client.{Process, IdentityInfo, SignAuthChallengeRequest, IdentityError}

-- `generate_handler![get_or_create_identity, sign_auth_challenge]`
pub data Command : Type 0 where
  get_or_create_identity : Command
  sign_auth_challenge : SignAuthChallengeRequest → Command

pub data Reply : Type 0 where
  identity : Result IdentityInfo IdentityError → Reply
  signature : Result Text IdentityError → Reply

-- A call: the command, the seed that the random source would give, and the keyring at that time.
pub record Call (k : Keyring) : Type 0 where
  pub command : Command
  pub fresh : List ℕ
  pub keyring : k.State

module _ (b : Base64) (k : Keyring) (c : Ed25519) where
  abbrev pub dispatch : Process k → List ℕ → Command → Process k × Reply
  dispatch process fresh Command.get_or_create_identity =
      let (process', result) = Client.get_or_create_identity b k c process fresh in
      (process', identity result)
  dispatch process fresh (Command.sign_auth_challenge request) =
      let (process', result) = Client.sign_auth_challenge b k c process fresh request in
      (process', signature result)

  unfoldable pub invoke : Process k → Call k → Process k × Reply
  invoke process call = dispatch (record process { keyring = call.keyring }) call.fresh call.command

  -- A process answers its calls one after another.
  unfoldable pub run : Process k → List (Call k) → List Reply
  run process [] = []
  run process (call ∷ calls) =
      let (process', reply) = invoke process call in reply ∷ run process' calls

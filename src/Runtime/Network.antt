-- ===== src/Runtime/Network.antt =====
-- The channels and the writer tasks of `handle_socket` in server/src/main.rs, beside the running
-- server: what is posted for a connection waits in the order of posting until its writer has put it
-- on the socket as text.
pub mod Order
pub mod Silence
pub mod Drain
pub mod Ending
use vtnet.Base.{
  ℕ, Eq, nat_eq, ◌≡◌, ◌≢◌, Bool, Option, none, some, List, [], ◌∷◌, ◌++◌, if◌then◌else◌,
}
use vtnet.Text.{Text}
use vtnet.External.{Base64, Ed25519}
use vtnet.Shared.Messages.{ServerMessage}
use vtnet.Shared.Wire.{SerdeJson}
use vtnet.Transport.{encode_server_message}
use vtnet.Runtime.Connection.{gone}
use vtnet.Runtime.System.{System, init, update, Step}
use vtnet.Runtime.Channels.{on}
use vtnet.Runtime.Silence.{IsUnlisted}
use vtnet.Runtime.Refinement.Steps.{sent_by}

-- The writer task waits for messages, or has returned and dropped its receiver.
pub data Writer : Type 0 where
  writing stopped : Writer

pub record Outbox (Uuid Json : Type 0) : Type 0 where
  pub queue : List (ServerMessage Uuid Json)
  -- What went on the socket, oldest first.
  pub written : List Text
  pub writer : Writer

abbrev pub new_outbox : {Uuid Json : Type 0} → Outbox Uuid Json
new_outbox = record { queue = []; written = []; writer = writing }

module _ {Uuid Json : Type 0} where
  -- `sender.send(..)`, once for each message; without a receiver it fails, which the code ignores.
  abbrev pub pushed : Writer → Outbox Uuid Json → List (ServerMessage Uuid Json) → Outbox Uuid Json
  pushed writing o messages = record o { queue = o.queue ++ messages }
  pushed stopped o messages = o

  abbrev pub push : Outbox Uuid Json → List (ServerMessage Uuid Json) → Outbox Uuid Json
  push o messages = pushed o.writer o messages

  -- The task returns: what is still queued is dropped with the receiver.
  abbrev pub stop : Outbox Uuid Json → Outbox Uuid Json
  stop o = record o { queue = []; writer = stopped }

  -- The payload goes on the socket, unless the socket fails.
  abbrev pub write_payload :
      Outbox Uuid Json → List (ServerMessage Uuid Json) → Bool → Option Text → Outbox Uuid Json
  write_payload o rest sent none = stop o
  write_payload o rest sent (some payload) =
      if sent then record o { queue = rest; written = o.written ++ payload ∷ [] } else stop o

  module _ (serde : SerdeJson Uuid Json) (b : Base64) where
    abbrev pub write_first :
        Outbox Uuid Json → List (ServerMessage Uuid Json) → Bool → Outbox Uuid Json
    write_first o [] sent = o
    write_first o (message ∷ rest) sent =
        write_payload o rest sent (encode_server_message serde b message)

    -- One round of the writer; `sent` says whether the socket took the frame.
    unfoldable pub write : Outbox Uuid Json → Bool → Outbox Uuid Json
    write o sent = write_first o o.queue sent

pub record Network (Uuid Json : Type 0) : Type 0 where
  pub system : System Uuid
  pub outbox : ℕ → Outbox Uuid Json

abbrev pub new_network : {Uuid Json : Type 0} → Network Uuid Json
new_network = record { system = init; outbox = λ i. new_outbox }

module _ {Uuid Json : Type 0} ⦃e : Eq Uuid⦄ (b : Base64) (c : Ed25519)
    (serde : SerdeJson Uuid Json) where
  pub data NetworkStep (net : Network Uuid Json) : Network Uuid Json → Type 0 where
    -- The server steps, and posts its messages.
    serve :
        {t : System Uuid} (st : Step b c serde net.system t)
        → NetworkStep net
            (record { system = t; outbox = λ j. push (net.outbox j) (on j (sent_by b c serde st)) })
    -- A writer takes a message.
    take :
        (i : ℕ) (sent : Bool)
        → (net.outbox i).writer ≡ writing
        → (net.outbox i).queue ≢ []
        → NetworkStep net
            (record net { outbox = update net.outbox i (write serde b (net.outbox i) sent) })
    -- `recv` gives `None`: nothing is queued, and no sender is left, neither the connection's own
    -- nor one in the table.
    return :
        (i : ℕ)
        → (net.outbox i).writer ≡ writing
        → (net.outbox i).queue ≡ []
        → (net.system.connection i).phase ≡ gone
        → IsUnlisted i net.system.server.connections
        → NetworkStep net (record net { outbox = update net.outbox i (stop (net.outbox i)) })

  pub data Run (from : Network Uuid Json) : Network Uuid Json → Type 0 where
    start : Run from from
    next : {n m : Network Uuid Json} → Run from n → NetworkStep n m → Run from m

  -- What the server has posted for a connection in a run, oldest first.
  abbrev pub posted :
      {from to : Network Uuid Json} → Run from to → ℕ → List (ServerMessage Uuid Json)
  posted start i = []
  posted (next r (serve st)) i = posted r i ++ on i (sent_by b c serde st)
  posted (next r _) i = posted r i

-- ===== src/Tests/Network.antt =====
-- The running server with its channels and writers: the meeting of Tests/Server, and how it ends.
use vtnet.Base.{ℕ, zero, suc, nat_eq, ◌∙◌, ◌≡◌, ◌≢◌, refl, true, none, arith, List, [], ◌∷◌, ◌++◌}
use vtnet.Shared.Uid.{UserUid, uid_eq}
use vtnet.Shared.Messages.{ServerMessage}
use vtnet.Room.Registry.{members}
use vtnet.Collections.Map
use vtnet.Runtime.Connection.{text, absent, running, ended, gone, finish}
use vtnet.Runtime.System
use vtnet.Runtime.System.{System, Step, read, Reach, hang_up, put, update}
use vtnet.Runtime.Channels.{on}
use vtnet.Runtime.Refinement.Steps.{sent_by}
use vtnet.Runtime.Network.{
  Writer, writing, stopped, pushed, Outbox, new_outbox, push, Network, new_network, serve, take,
  Run, start, next, posted, write,
}
use vtnet.Runtime.Network.Order.{IsOrdered, posted-IsOrdered}
use vtnet.Runtime.Network.Drain.{IsFlushed, writer_finishes}
use vtnet.Runtime.Network.Ending.{IsOver, connection_ends}
use vtnet.Runtime.Residue.{nothing_remains}
use vtnet.Runtime.Validity.Read.{AreRead, written-AreRead}
use vtnet.Runtime.Validity.Spec.{AreServerMessages}
use vtnet.Runtime.Validity.Network.{posted-AreServerMessages}
use vtnet.Tests.Crates.{base64, base64-IsBase64, ed25519, serde, serde-IsSerdeJson}
use vtnet.Tests.Server.{server, ambient, round, meeting, meeting-Reach}

-- The channels after a run of the server in which no writer has had its turn.
abbrev pub outboxes : {sys : System ℕ} → Reach base64 ed25519 serde sys → ℕ → Outbox ℕ ℕ
outboxes Reach.start = λ i. new_outbox
outboxes (Reach.next r st) = λ i. push (outboxes r i) (on i (sent_by base64 ed25519 serde st))

abbrev pub network : {sys : System ℕ} → Reach base64 ed25519 serde sys → Network ℕ ℕ
network {sys} r = record { system = sys; outbox = outboxes r }

pub reach_run :
    {sys : System ℕ} (r : Reach base64 ed25519 serde sys)
    → Run base64 ed25519 serde new_network (network r)
reach_run Reach.start = start
reach_run (Reach.next r st) = next (reach_run r) (serve st)

push_writer :
    (w : Writer) (o : Outbox ℕ ℕ) (messages : List (ServerMessage ℕ ℕ))
    → (pushed w o messages).writer ≡ o.writer
push_writer writing o messages = refl
push_writer stopped o messages = refl

pub all_writing :
    {sys : System ℕ} (r : Reach base64 ed25519 serde sys) (i : ℕ) → (outboxes r i).writer ≡ writing
all_writing Reach.start i = refl
all_writing (Reach.next r st) i = push_writer _ (outboxes r i) _ ∙ all_writing r i

pub cons_waits : {A : Type 0} (x : A) (xs : List A) → ◌≢◌ {A = List A} (x ∷ xs) []
cons_waits x xs = λ e. cc

running_came : running ≢ absent
running_came = λ e. cc

-- Bob's writer writes one message.
abbrev bob_writes : Network ℕ ℕ
bob_writes = record (network meeting-Reach) {
  outbox = update (outboxes meeting-Reach) 1 (write serde base64 (outboxes meeting-Reach 1) true);
}

bob_waits : (outboxes meeting-Reach 1).queue ≢ []
unfolding server meeting-Reach
bob_waits = cons_waits _ _

writes_run : Run base64 ed25519 serde new_network bob_writes
writes_run = next (reach_run meeting-Reach) (take 1 true (all_writing meeting-Reach 1) bob_waits)

posted-IsOrdered_example :
    IsOrdered serde base64 (posted base64 ed25519 serde writes_run 1) (bob_writes.outbox 1)
posted-IsOrdered_example = posted-IsOrdered base64 ed25519 serde writes_run 1

posted-AreServerMessages_example : AreServerMessages (posted base64 ed25519 serde writes_run 1)
posted-AreServerMessages_example =
    posted-AreServerMessages base64 base64-IsBase64 ed25519 serde writes_run 1

written-AreRead_example :
    (done rest : List (ServerMessage ℕ ℕ)) × (posted base64 ed25519 serde writes_run 1
      ≡ done ++ rest)
    × AreRead serde base64 done (bob_writes.outbox 1).written
written-AreRead_example =
    written-AreRead {serde = serde} serde-IsSerdeJson base64-IsBase64 ed25519 writes_run 1

connection_ends_example :
    (to : Network ℕ ℕ) × Run base64 ed25519 serde bob_writes to
    × IsOver base64 ed25519 serde bob_writes 1 to
unfolding server
connection_ends_example = connection_ends base64 ed25519 serde writes_run 1 running_came

-- Alice's stream ends, and her loop is over.
abbrev alice_hangs_up : System ℕ
alice_hangs_up = record meeting {
  connection = update meeting.connection 0 (record (meeting.connection 0) { phase = ended });
}

abbrev alice_gone : System ℕ
alice_gone =
    put {Json = ℕ} alice_hangs_up 0 (finish alice_hangs_up.server (alice_hangs_up.connection 0))

alice_gone-Reach : Reach base64 ed25519 serde alice_gone
unfolding server
alice_gone-Reach = Reach.next (Reach.next meeting-Reach (hang_up 0 refl)) (System.Step.close 0 refl)

alice_over : (alice_gone.connection 0).phase ≡ gone
unfolding server
alice_over = refl

writer_finishes_example :
    (to : Network ℕ ℕ) × IsFlushed base64 ed25519 serde (network alice_gone-Reach) 0 to
writer_finishes_example =
    writer_finishes base64 ed25519 serde (reach_run alice_gone-Reach) 0 alice_over
      (all_writing alice_gone-Reach 0)

-- Bob sends a text into the empty room.
abbrev bob_speaks : System ℕ
bob_speaks = round alice_gone 1 (text (4 ∷ 7 ∷ b'h' ∷ b'i' ∷ []))

bob_speaks-Step : Step base64 ed25519 serde alice_gone bob_speaks
unfolding server
bob_speaks-Step = read 1 (text (4 ∷ 7 ∷ b'h' ∷ b'i' ∷ [])) ambient refl

-- Bob goes as well.
abbrev bob_hangs_up : System ℕ
bob_hangs_up = record alice_gone {
  connection = update alice_gone.connection 1 (record (alice_gone.connection 1) { phase = ended });
}

abbrev pub nobody : System ℕ
nobody = put {Json = ℕ} bob_hangs_up 1 (finish bob_hangs_up.server (bob_hangs_up.connection 1))

pub nobody-Reach : Reach base64 ed25519 serde nobody
unfolding server
nobody-Reach = Reach.next (Reach.next alice_gone-Reach (hang_up 1 refl)) (System.Step.close 1 refl)

pub nobody_there : (i : ℕ) → (nobody.connection i).session ≡ none
unfolding server
nobody_there zero = refl
nobody_there (suc zero) = refl
nobody_there (suc (suc i)) = ground arith

nothing_remains_example :
    ((r : ℕ) → members nobody.server.rooms r ≡ none)
    × ((u : UserUid) → Map.get u nobody.server.connections ≡ none)
nothing_remains_example = nothing_remains nobody-Reach nobody_there

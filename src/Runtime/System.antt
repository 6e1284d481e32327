-- ===== src/Runtime/System.antt =====
-- The whole server as interleaved steps of its connections. A step is one round of a connection's
-- loop, or one of the two ends of the loop; each takes the lock of the shared state at most once, so
-- it is atomic, and other connections step between the end of a loop and its disconnect.
use vtnet.Base.{nat_eq, ℕ, Eq, eq?, ite, ◌≡◌}
use vtnet.External.{Base64, Ed25519}
use vtnet.Shared.Wire.{SerdeJson}
use vtnet.Runtime.{ServerState, default_state, Sent}
use vtnet.Runtime.Connection.{
  Connection, absent, running, ended, Frame, Ambient, unused, accepted, receive, finish,
}

pub record System (Uuid : Type 0) : Type 0 where
  pub server : ServerState Uuid
  -- One slot for each connection that was ever accepted or will be.
  pub connection : ℕ → Connection Uuid

abbrev pub init : {Uuid : Type 0} → System Uuid
init = record { server = default_state; connection = λ i. unused }

abbrev pub update : {A : Type 0} → (ℕ → A) → ℕ → A → ℕ → A
update f i a j = ite (eq? j i) a (f j)

-- A slot and the shared state change together.
abbrev pub put :
    {Uuid Json : Type 0}
    → System Uuid
    → ℕ
    → ServerState Uuid × Connection Uuid × Sent Uuid Json
    → System Uuid
put sys i out = record { server = out.0; connection = update sys.connection i out.1 }

module _ {Uuid Json : Type 0} ⦃e : Eq Uuid⦄ (b : Base64) (c : Ed25519)
    (serde : SerdeJson Uuid Json) where
  pub data Step (sys : System Uuid) : System Uuid → Type 0 where
    -- A client's WebSocket is upgraded.
    accept :
        (i : ℕ)
        → (sys.connection i).phase ≡ absent
        → Step sys (record sys { connection = update sys.connection i accepted })
    -- The loop reads a frame.
    read :
        (i : ℕ) (frame : Frame) (ambient : Ambient)
        → (sys.connection i).phase ≡ running
        → Step sys (put sys i (receive b c serde sys.server (sys.connection i) i ambient frame))
    -- The stream ends, or fails.
    hang_up :
        (i : ℕ)
        → (sys.connection i).phase ≡ running
        → Step sys (record sys {
          connection = update sys.connection i (record (sys.connection i) { phase = ended });
        })
    -- What follows the loop.
    close :
        (i : ℕ)
        → (sys.connection i).phase ≡ ended
        → Step sys (put {Json = Json} sys i (finish sys.server (sys.connection i)))

  pub data Reach : System Uuid → Type 0 where
    start : Reach init
    next : {s t : System Uuid} → Reach s → Step s t → Reach t

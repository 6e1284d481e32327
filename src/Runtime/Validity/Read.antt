-- ===== src/Runtime/Validity/Read.antt =====
-- What a client reads from its socket: the derived `Deserialize` of `ServerMessage` in
-- shared/src/lib.rs, on what server/src/main.rs has written.
use vtnet.Base.{ℕ, Eq, ◌≡◌, some, List, [], ◌∷◌, ◌++◌, ok, subst}
use vtnet.Text.{Text}
use vtnet.External.{Base64, IsBase64, Ed25519}
use vtnet.Shared.Messages.{ServerMessage}
use vtnet.Shared.Wire.{SerdeJson, IsSerdeJson, server_from_wire, server_to_wire}
use vtnet.Shared.Wire.Server.{IsTyped, server_to_wire-HasTimes, server_from_wire-server_to_wire}
use vtnet.Transport.{encode_server_message}
use vtnet.Runtime.Connection.{server_name}
use vtnet.Runtime.Network.{Network, new_network, Run, posted}
use vtnet.Runtime.Network.Order.{Encodes, posted-IsOrdered}
use vtnet.Runtime.Validity.{IsServerMessage}
use vtnet.Runtime.Validity.Spec.{AreServerMessages}
use vtnet.Runtime.Validity.Network.{posted-AreServerMessages}

module _ {Uuid Json : Type 0} where
  IsServerMessage-IsTyped :
      (m : ServerMessage Uuid Json) → IsServerMessage server_name m → IsTyped m
  IsServerMessage-IsTyped (ServerMessage.auth_challenge nonce time) h = h
  IsServerMessage-IsTyped (ServerMessage.auth_success uid name server) h = h.0.0
  IsServerMessage-IsTyped (ServerMessage.peer_joined_room room peer name) h = h.0
  IsServerMessage-IsTyped (ServerMessage.peer_left_room room peer) h = h
  IsServerMessage-IsTyped (ServerMessage.broadcast_text_message room sender name content time) h =
      (h.0.0, h.1, h.2)
  IsServerMessage-IsTyped (ServerMessage.forward_web_rtc_sdp room sender kind raw) h = h
  IsServerMessage-IsTyped (ServerMessage.forward_web_rtc_ice room sender candidate) h = h
  IsServerMessage-IsTyped _ h = tt

module _ {Uuid Json : Type 0} (serde : SerdeJson Uuid Json) (b : Base64) where
  -- The text is read as the message.
  pub record IsRead (m : ServerMessage Uuid Json) (t : Text) : Type 0 where
    pub wire : _
    pub parsed : serde.server_from_str t ≡ some wire
    pub message : server_from_wire b wire ≡ ok m

  -- The texts are read as the messages, one by one.
  abbrev pub AreRead : List (ServerMessage Uuid Json) → List Text → Type 0
  AreRead [] [] = Unit {0}
  AreRead (m ∷ ms) (t ∷ ts) = IsRead m t × AreRead ms ts
  AreRead _ _ = ⊥

module _ {Uuid Json : Type 0} {serde : SerdeJson Uuid Json} (reads : IsSerdeJson serde) {b : Base64}
    (lawful : IsBase64 b) where
  encoded-IsRead :
      (m : ServerMessage Uuid Json) (t : Text)
      → IsTyped m
      → encode_server_message serde b m ≡ some t
      → IsRead serde b m t
  unfolding encode_server_message
  encoded-IsRead m t typed e = record {
    wire = server_to_wire b m;
    parsed =
        reads.server_from_str-to_string (server_to_wire b m) t (server_to_wire-HasTimes b m typed)
          e;
    message = server_from_wire-server_to_wire b lawful m typed;
  }

  encoded-AreRead :
      (ms rest : List (ServerMessage Uuid Json)) (ts : List Text)
      → AreServerMessages (ms ++ rest)
      → Encodes serde b ms ts
      → AreRead serde b ms ts
  encoded-AreRead [] rest [] good h = tt
  encoded-AreRead (m ∷ ms) rest (t ∷ ts) good h = (
    encoded-IsRead m t (IsServerMessage-IsTyped m good.0) h.0,
    encoded-AreRead ms rest ts good.1 h.1,
  )
  encoded-AreRead [] rest (t ∷ ts) good h = elim h [ ]
  encoded-AreRead (m ∷ ms) rest [] good h = elim h [ ]

  -- If base64 and serde_json read what they write, then in every run the texts on a client's socket
  -- are read, one by one, as the messages that the server posted for it, in order and from the first
  -- on, without a gap.
  pub written-AreRead :
      ⦃e : Eq Uuid⦄ (c : Ed25519) {net : Network Uuid Json} (run : Run b c serde new_network net)
      (i : ℕ)
      → (done rest : List (ServerMessage Uuid Json)) × (posted b c serde run i ≡ done ++ rest)
        × AreRead serde b done (net.outbox i).written
  written-AreRead c {net} run i =
      let h = posted-IsOrdered b c serde run i in
      (
        h.done,
        (net.outbox i).queue ++ h.lost,
        h.split,
        encoded-AreRead h.done _ (net.outbox i).written
            (subst AreServerMessages h.split (posted-AreServerMessages b lawful c serde run i))
            h.encoded,
      )

-- ===== src/Runtime/Validity/Network.antt =====
-- Every message that server/src/main.rs puts on a channel, whatever its clients send.
use vtnet.Base.{ℕ, Eq, nat_eq, eq?, ◌==◌, refl, sym, All-append, subst, if_pos, if_neg}
use vtnet.External.{Base64, IsBase64, Ed25519}
use vtnet.Shared.Uid.{uid_eq}
use vtnet.Shared.Messages.{ClientMessage, ServerMessage}
use vtnet.Shared.Wire.{SerdeJson}
use vtnet.Shared.Wire.RoundTrip.{IsMessage}
use vtnet.Transport.Laws.{decode-IsMessage}
use vtnet.Runtime.Connection.{Connection, server_name, unix_timestamp_millis, Ambient}
use vtnet.Runtime.System.{update}
use vtnet.Runtime.Safety.{Reach-Inv}
use vtnet.Runtime.Spec.Steps.{
  Posts, IsQuiet, IsReply, Event, IsHeard, answer, Promise, opens, skips, ends, handles, replies,
  admits, refuses, leaves, vanishes,
}
use vtnet.Runtime.Refinement.Steps.{Step-Promise}
use vtnet.Runtime.Network.{Network, new_network, serve, take, return, Run, start, next, posted}
use vtnet.Runtime.Network.Silence.{Run-Reach}
use vtnet.Runtime.Validity.{
  IsServerMessage, IsMemberIfAny, IsValidAuthenticator, take-IsValid, IsValidAnswer,
  handle_message-IsValid,
}
use vtnet.Runtime.Validity.Spec.{
  timestamp-IsTime, AreServerMessages, guarded, sent-AreServerMessages, farewell-AreServerMessages,
  moved-IsMember,
}

module _ {Uuid : Type 0} where
  -- What a connection holds: the server's name, and valid sessions and challenges.
  abbrev pub IsValid : Connection Uuid → Type 0
  IsValid conn = IsValidAuthenticator server_name conn.authenticator × IsMemberIfAny conn.session

  abbrev AreValid : (ℕ → Connection Uuid) → Type 0
  AreValid conns = (j : ℕ) → IsValid (conns j)

  update-AreValid :
      (conns : ℕ → Connection Uuid) (i : ℕ) (conn : Connection Uuid)
      → AreValid conns
      → IsValid conn
      → AreValid (update conns i conn)
  update-AreValid conns i conn h k j = elim (eq? j i) [
    | yes same ↦ subst IsValid (sym (if_pos (eq? j i) same conn (conns j))) k
    | no differs ↦ subst IsValid (sym (if_neg (eq? j i) differs conn (conns j))) (h j)
  ]

module _ {Uuid Json : Type 0} where
  abbrev ArePosts : Posts Uuid Json → Type 0
  ArePosts posts = (j : ℕ) → AreServerMessages (posts j)

  quiet_posts : {posts : Posts Uuid Json} → IsQuiet posts → ArePosts posts
  quiet_posts quiet j = subst AreServerMessages (sym (quiet j)) tt

  reply_posts :
      {posts : Posts Uuid Json} (i : ℕ) (message : ServerMessage Uuid Json)
      → IsServerMessage server_name message
      → IsReply i message posts
      → ArePosts posts
  reply_posts i message good reply j =
      subst AreServerMessages (sym (reply j)) (guarded (i == j) message good)

module _ {Uuid Json : Type 0} ⦃e : Eq Uuid⦄ (b : Base64) (lawful : IsBase64 b) (c : Ed25519)
    (serde : SerdeJson Uuid Json) where
  heard-IsMessage :
      {event : Event} (i : ℕ) (m : ClientMessage Uuid Json) (ambient : Ambient)
      → IsHeard b c serde i m ambient event
      → IsMessage m
  heard-IsMessage i m ambient (payload, ev, decoded) =
      (decode-IsMessage serde b lawful payload decoded).1

  answered-IsValid :
      {event : Event} (conns : ℕ → Connection Uuid) (h : AreValid conns) (i : ℕ)
      (m : ClientMessage Uuid Json) (ambient : Ambient)
      → IsHeard b c serde i m ambient event
      → IsValidAnswer b c Json server_name
          (conns i).authenticator
          (h i).0
          (answer b c serde (conns i) m ambient)
  answered-IsValid conns h i m ambient heard =
      handle_message-IsValid b c Json server_name (conns i).authenticator (h i).0 m ambient.nonce
        (unix_timestamp_millis ambient.since_epoch) ambient.now (heard-IsMessage i m ambient heard)
        (timestamp-IsTime ambient.since_epoch)

  module _ {conns : ℕ → Connection Uuid} {event : Event} {posts : Posts Uuid Json}
      (h : AreValid conns) where
    Promise-AreValid :
        {conns' : ℕ → Connection Uuid}
        → Promise b c serde conns event posts conns'
        → AreValid conns' × ArePosts posts
    Promise-AreValid (opens i ev here quiet) =
        (update-AreValid conns i _ h ((refl, tt), tt), quiet_posts quiet)
    Promise-AreValid (skips i ambient ev here quiet) =
        (update-AreValid conns i _ h (h i), quiet_posts quiet)
    Promise-AreValid (ends i ev here quiet) = (update-AreValid conns i _ h (h i), quiet_posts quiet)
    Promise-AreValid (handles i m ambient s here ev has heard) =
        let member = subst IsMemberIfAny has (h i).1 in
        (
          update-AreValid conns i _ h ((h i).0, moved-IsMember Json s member m),
          λ j. subst AreServerMessages (sym (heard j)) (
              sent-AreServerMessages Json s member (λ k. (conns k).session) i m _ j
                (heard-IsMessage i m ambient ev) (timestamp-IsTime ambient.since_epoch)),
        )
    Promise-AreValid (replies i m ambient here ev free taken reply) =
        let (held, said) = answered-IsValid conns h i m ambient ev in
        (
          update-AreValid conns i _ h ((take-IsValid server_name _ held).0, (h i).1),
          reply_posts i _ said reply,
        )
    Promise-AreValid (admits i m ambient s here ev free taken new reply) =
        let (held, said) = answered-IsValid conns h i m ambient ev in
        let (kept, member) = take-IsValid server_name _ held in
        (
          update-AreValid conns i _ h (kept, subst IsMemberIfAny taken member),
          reply_posts i _ said reply,
        )
    Promise-AreValid (refuses i m ambient s here ev free taken old reply) =
        let (held, said) = answered-IsValid conns h i m ambient ev in
        (
          update-AreValid conns i _ h ((take-IsValid server_name _ held).0, (h i).1),
          reply_posts i _ (λ q. cc) reply,
        )
    Promise-AreValid (leaves i s ev here has heard) = (
      update-AreValid conns i _ h ((h i).0, tt),
      λ j. subst AreServerMessages (sym (heard j)) (
          farewell-AreServerMessages Json s (subst IsMemberIfAny has (h i).1)
            (λ k. (conns k).session) i j),
    )
    Promise-AreValid (vanishes i ev here free quiet) =
        (update-AreValid conns i _ h ((h i).0, tt), quiet_posts quiet)

  run-AreValid :
      {net : Network Uuid Json} (run : Run b c serde new_network net)
      → AreValid net.system.connection × ((j : ℕ) → AreServerMessages (posted b c serde run j))
  run-AreValid start = (λ j. ((refl, tt), tt), λ j. tt)
  run-AreValid (next r (serve st)) =
      let (valid, before) = run-AreValid r in
      let (valid', now) =
        Promise-AreValid valid (Step-Promise b c serde st (Reach-Inv (Run-Reach r))) in
      (
        valid',
        λ j. All-append (IsServerMessage server_name) (posted b c serde r j) _ (before j) (now j),
      )
  run-AreValid (next r (take i sent alive waiting)) = run-AreValid r
  run-AreValid (next r (return i alive empty over unlisted)) = run-AreValid r

  -- If Base64 decodes to bytes, then whatever frames the clients send, every message that the server
  -- ever posts for a connection is well formed: its uids have 32 bytes, every user name is the one
  -- that the server made of the uid, every text is neither blank nor longer than 4096 bytes, every
  -- time fits 64 bits, and no failure is told as a rate limit.
  pub posted-AreServerMessages :
      {net : Network Uuid Json} (run : Run b c serde new_network net) (i : ℕ)
      → AreServerMessages (posted b c serde run i)
  posted-AreServerMessages run = (run-AreValid run).1

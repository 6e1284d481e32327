-- ===== src/Runtime/Network/Drain.antt =====
-- A writer task of server/src/main.rs whose connection is over: its last rounds.
use mathlib.Core.List.{append_assoc, append-nil}
use vtnet.Base.{
  ℕ, Eq, nat_eq, eq?, ◌≡◌, ◌≢◌, refl, sym, ◌∙◌, ap, true, none, some, List, [], ◌∷◌, ◌++◌, if_neg,
  subst, Option-cases, inl, inr,
}
use vtnet.Text.{Text}
use vtnet.External.{Base64, Ed25519}
use vtnet.Shared.Messages.{ServerMessage}
use vtnet.Shared.Wire.{SerdeJson}
use vtnet.Transport.{encode_server_message}
use vtnet.Runtime.Connection.{gone}
use vtnet.Runtime.System.{update}
use vtnet.Runtime.Silence.{IsUnlisted}
use vtnet.Runtime.Invariant.{update_at}
use vtnet.Runtime.Network.{
  writing, stopped, Outbox, stop, write, Network, new_network, take, return, Run, start, next,
}
use vtnet.Runtime.Network.Order.{Encodes}
use vtnet.Runtime.Network.Silence.{over-IsUnlisted}

module _ {Uuid Json : Type 0} ⦃e : Eq Uuid⦄ (b : Base64) (c : Ed25519)
    (serde : SerdeJson Uuid Json) where
  pub Run-trans :
      {l m n : Network Uuid Json} → Run b c serde l m → Run b c serde m n → Run b c serde l n
  Run-trans r start = r
  Run-trans r (next s st) = next (Run-trans r s) st

  -- The writer of a connection has returned, with everything written that was queued and can be
  -- encoded as a whole, while the server and all other writers are where they were.
  pub record IsFlushed (net : Network Uuid Json) (i : ℕ) (to : Network Uuid Json) : Type 0 where
    pub run : Run b c serde net to
    pub finished : (to.outbox i).writer ≡ stopped
    pub server : to.system ≡ net.system
    pub others : (j : ℕ) → j ≢ i → to.outbox j ≡ net.outbox j
    pub written :
        (texts : List Text)
        → Encodes serde b (net.outbox i).queue texts
        → (to.outbox i).written ≡ (net.outbox i).written ++ texts

  module _ (o : Outbox Uuid Json) (m : ServerMessage Uuid Json)
      (rest : List (ServerMessage Uuid Json)) (waiting : o.queue ≡ m ∷ rest) where
    write_refused : encode_server_message serde b m ≡ none → write serde b o true ≡ stop o
    unfolding write
    write_refused p = rw (waiting, p)

    write_sent :
        (payload : Text)
        → encode_server_message serde b m ≡ some payload
        → write serde b o true ≡ record o { queue = rest; written = o.written ++ payload ∷ [] }
    unfolding write
    write_sent payload p = rw (waiting, p)

  Encodes-nil : (texts : List Text) → Encodes serde b [] texts → texts ≡ []
  Encodes-nil [] h = refl
  Encodes-nil (t ∷ ts) h = elim h [ ]

  Encodes-cons :
      (m : ServerMessage Uuid Json) (rest : List (ServerMessage Uuid Json)) (texts : List Text)
      → Encodes serde b (m ∷ rest) texts
      → (t : Text) × (ts : List Text) × (texts ≡ t ∷ ts)
        × (encode_server_message serde b m ≡ some t)
        × Encodes serde b rest ts
  Encodes-cons m rest [] h = elim h [ ]
  Encodes-cons m rest (t ∷ ts) h = (t, ts, refl, h.0, h.1)

  -- One writer takes its first message, and the rest of the work is done from there.
  flush_first :
      (net : Network Uuid Json) (i : ℕ) (m : ServerMessage Uuid Json)
      (rest : List (ServerMessage Uuid Json)) (payload : Text)
      → (net.outbox i).queue ≡ m ∷ rest
      → (net.outbox i).writer ≡ writing
      → encode_server_message serde b m ≡ some payload
      → let between : Network Uuid Json = record net {
        outbox = update net.outbox i (write serde b (net.outbox i) true);
      } in
        ((to : Network Uuid Json) × IsFlushed between i to)
        → (to : Network Uuid Json) × IsFlushed net i to
  flush_first net i m rest payload waiting alive p (to, rec) =
      let after =
        update_at net.outbox i (write serde b (net.outbox i) true)
        ∙ write_sent (net.outbox i) m rest waiting payload p in
      (
        to,
        record {
          run = Run-trans (next start (take i true alive (λ q. cc))) rec.run;
          finished = rec.finished;
          server = rec.server;
          others = λ j differs. rec.others j differs ∙ if_neg (eq? j i) differs _ _;
          written = λ texts h.
              let (t, ts, same, encoded, h') =
                Encodes-cons m rest texts (subst (λ q. Encodes serde b q texts) waiting h) in
              rec.written ts
                (subst (λ (x : Outbox Uuid Json). Encodes serde b x.queue ts) (sym after) h')
              ∙ (ap (λ (x : Outbox Uuid Json). x.written ++ ts) after
                  ∙ (append_assoc (net.outbox i).written (payload ∷ []) ts
                      ∙ ap (◌++◌ (net.outbox i).written) (cc)));
        },
      )

  drain :
      (q : List (ServerMessage Uuid Json)) (net : Network Uuid Json) (i : ℕ)
      → (net.outbox i).queue ≡ q
      → (net.outbox i).writer ≡ writing
      → (net.system.connection i).phase ≡ gone
      → IsUnlisted i net.system.server.connections
      → (to : Network Uuid Json) × IsFlushed net i to
  drain [] net i empty alive over unlisted =
      let after = update_at net.outbox i (stop (net.outbox i)) in
      (
        record net { outbox = update net.outbox i (stop (net.outbox i)) },
        record {
          run = next start (return i alive empty over unlisted);
          finished = ap (λ (o : Outbox Uuid Json). o.writer) after;
          server = refl;
          others = λ j differs. if_neg (eq? j i) differs _ _;
          written = λ texts h.
              ap (λ (o : Outbox Uuid Json). o.written) after
              ∙ (sym (append-nil _)
                  ∙ ap (◌++◌ (net.outbox i).written)
                      (sym (Encodes-nil texts (subst (λ q. Encodes serde b q texts) empty h))));
        },
      )
  drain (m ∷ rest) net i waiting alive over unlisted =
      elim (Option-cases (encode_server_message serde b m)) [
        | inl refused ↦
            let after =
              update_at net.outbox i (write serde b (net.outbox i) true)
              ∙ write_refused (net.outbox i) m rest waiting refused in
            (
              record net { outbox = update net.outbox i (write serde b (net.outbox i) true) },
              record {
                run = next start (take i true alive (λ q. cc));
                finished = ap (λ (o : Outbox Uuid Json). o.writer) after;
                server = refl;
                others = λ j differs. if_neg (eq? j i) differs _ _;
                written = λ texts h.
                    let (t, ts, same, encoded, h') =
                      Encodes-cons m rest texts (subst (λ q. Encodes serde b q texts) waiting h) in
                    cc;
              },
            )
        | inr (payload, p) ↦
            let after =
              update_at net.outbox i (write serde b (net.outbox i) true)
              ∙ write_sent (net.outbox i) m rest waiting payload p in
            flush_first net i m rest payload waiting alive p (
              drain rest
                (record net { outbox = update net.outbox i (write serde b (net.outbox i) true) }) i
                (ap (λ (o : Outbox Uuid Json). o.queue) after)
                (ap (λ (o : Outbox Uuid Json). o.writer) after ∙ alive) over unlisted)
      ]

  -- In every reachable network, the writer of a connection that is over and whose writer still runs
  -- can finish in steps of its own: it returns, having written what was queued, in order, if all of
  -- that can be encoded; the server and the other writers are untouched.
  pub writer_finishes :
      {net : Network Uuid Json}
      → Run b c serde new_network net
      → (i : ℕ) → (net.system.connection i).phase ≡ gone
      → (net.outbox i).writer ≡ writing
      → (to : Network Uuid Json) × IsFlushed net i to
  writer_finishes {net} run i over alive =
      drain (net.outbox i).queue net i refl alive over (over-IsUnlisted run i over)

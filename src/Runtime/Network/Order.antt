-- ===== src/Runtime/Network/Order.antt =====
-- What a client's socket has got, of what the server posted for it.
use mathlib.Core.List.{append_assoc, append-nil}
use vtnet.Base.{
  ℕ, Eq, nat_eq, eq?, ◌≡◌, refl, sym, Bool, true, false, some, List, [], ◌∷◌, ◌++◌, if_pos, if_neg,
  subst, Option-cases, inl, inr,
}
use vtnet.Text.{Text}
use vtnet.External.{Base64, Ed25519}
use vtnet.Shared.Messages.{ServerMessage}
use vtnet.Shared.Wire.{SerdeJson}
use vtnet.Transport.{encode_server_message}
use vtnet.Runtime.System.{update}
use vtnet.Runtime.Network.{
  Writer, writing, stopped, Outbox, pushed, stop, write_first, write, Network, new_network, serve,
  take, return, Run, start, next, posted,
}

module _ {Uuid Json : Type 0} (serde : SerdeJson Uuid Json) (b : Base64) where
  -- The texts are the messages' encodings, one by one.
  abbrev pub Encodes : List (ServerMessage Uuid Json) → List Text → Type 0
  Encodes [] [] = Unit {0}
  Encodes (m ∷ ms) (t ∷ ts) = (encode_server_message serde b m ≡ some t) × Encodes ms ts
  Encodes _ _ = ⊥

  pub Encodes-append :
      (ms : List (ServerMessage Uuid Json)) (ts : List Text) (ns : List (ServerMessage Uuid Json))
      (us : List Text)
      → Encodes ms ts
      → Encodes ns us
      → Encodes (ms ++ ns) (ts ++ us)
  Encodes-append [] [] ns us h k = k
  Encodes-append (m ∷ ms) (t ∷ ts) ns us h k = (h.0, Encodes-append ms ts ns us h.1 k)
  Encodes-append [] (t ∷ ts) ns us h k = elim h [ ]
  Encodes-append (m ∷ ms) [] ns us h k = elim h [ ]

  -- Of what was posted, first the messages whose texts are written, in order; then those that are
  -- queued; and then, only if the writer has stopped, others that are lost.
  pub record IsOrdered (posts : List (ServerMessage Uuid Json)) (o : Outbox Uuid Json)
      : Type 0 where
    pub done : List (ServerMessage Uuid Json)
    pub lost : List (ServerMessage Uuid Json)
    pub split : posts ≡ done ++ (o.queue ++ lost)
    pub encoded : Encodes done o.written
    pub kept : o.writer ≡ writing → lost ≡ []

  pushed-IsOrdered :
      (w : Writer) (posts more : List (ServerMessage Uuid Json)) (o : Outbox Uuid Json)
      → o.writer ≡ w
      → IsOrdered posts o
      → IsOrdered (posts ++ more) (pushed w o more)
  pushed-IsOrdered writing posts more o alive h = record {
    done = h.done;
    lost = [];
    split = rw (h.split, h.kept alive) (simp (append_assoc, append-nil));
    encoded = h.encoded;
    kept = λ _. refl;
  }
  pushed-IsOrdered stopped posts more o dead h = record {
    done = h.done;
    lost = h.lost ++ more;
    split = rw h.split (simp append_assoc);
    encoded = h.encoded;
    kept = λ alive. cc;
  }

  stop-IsOrdered :
      (posts : List (ServerMessage Uuid Json)) (o : Outbox Uuid Json)
      → IsOrdered posts o
      → IsOrdered posts (stop o)
  stop-IsOrdered posts o h = record {
    done = h.done;
    lost = o.queue ++ h.lost;
    split = h.split;
    encoded = h.encoded;
    kept = λ alive. cc;
  }

  write_first-IsOrdered :
      (q posts : List (ServerMessage Uuid Json)) (o : Outbox Uuid Json) (sent : Bool)
      → o.queue ≡ q
      → IsOrdered posts o
      → IsOrdered posts (write_first serde b o q sent)
  write_first-IsOrdered [] posts o sent e h = h
  write_first-IsOrdered (m ∷ rest) posts o true e h =
      elim (Option-cases (encode_server_message serde b m)) [
        | inl refused ↦ rw refused (stop-IsOrdered posts o h)
        | inr (payload, p) ↦ rw p (record {
          done = h.done ++ m ∷ [];
          lost = h.lost;
          split = rw (h.split, e) (simp append_assoc);
          encoded = Encodes-append h.done o.written (m ∷ []) (payload ∷ []) h.encoded (p, tt);
          kept = h.kept;
        })
      ]
  write_first-IsOrdered (m ∷ rest) posts o false e h =
      elim (Option-cases (encode_server_message serde b m)) [
        | inl refused ↦ rw refused (stop-IsOrdered posts o h)
        | inr (payload, p) ↦ rw p (stop-IsOrdered posts o h)
      ]

module _ {Uuid Json : Type 0} ⦃e : Eq Uuid⦄ (b : Base64) (c : Ed25519)
    (serde : SerdeJson Uuid Json) where
  update-IsOrdered :
      (posts : ℕ → List (ServerMessage Uuid Json)) (f : ℕ → Outbox Uuid Json) (i : ℕ)
      (o : Outbox Uuid Json)
      → ((j : ℕ) → IsOrdered serde b (posts j) (f j))
      → IsOrdered serde b (posts i) o
      → (j : ℕ) → IsOrdered serde b (posts j) (update f i o j)
  update-IsOrdered posts f i o h k j = elim (eq? j i) [
    | yes same ↦
        rw (if_pos (eq? j i) same) (subst (λ l. IsOrdered serde b (posts l) o) (sym same) k)
    | no differs ↦ rw (if_neg (eq? j i) differs) (h j)
  ]

  -- What a connection's socket has got is, text by text and in order, a first part of what the server
  -- posted for it since it began; while the writer runs, all the rest is queued in order.
  pub posted-IsOrdered :
      {net : Network Uuid Json} (run : Run b c serde new_network net) (i : ℕ)
      → IsOrdered serde b (posted b c serde run i) (net.outbox i)
  unfolding write
  posted-IsOrdered start =
      λ i. record { done = []; lost = []; split = refl; encoded = tt; kept = λ _. refl }
  posted-IsOrdered (next {n = n} r (serve st)) =
      λ i. pushed-IsOrdered serde b (n.outbox i).writer _ _ (n.outbox i) refl (posted-IsOrdered r i)
  posted-IsOrdered (next {n = n} r (take i sent alive waiting)) =
      update-IsOrdered (posted b c serde r) n.outbox i _ (posted-IsOrdered r) (
        write_first-IsOrdered serde b (n.outbox i).queue _ (n.outbox i) sent refl
          (posted-IsOrdered r i))
  posted-IsOrdered (next {n = n} r (return i alive empty over unlisted)) =
      update-IsOrdered (posted b c serde r) n.outbox i _ (posted-IsOrdered r)
        (stop-IsOrdered serde b _ (n.outbox i) (posted-IsOrdered r i))

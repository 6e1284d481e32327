-- ===== src/Runtime/Network/Silence.antt =====
-- A connection that is over: no sender to its channel is left, and nothing is posted for it.
use mathlib.Core.List.{append-nil}
use vtnet.Base.{
  ℕ, Eq, nat_eq, eq?, ◌≡◌, ◌≢◌, refl, sym, ◌∙◌, ap, none, [], arith, if_pos, if_neg, subst,
}
use vtnet.External.{Base64, Ed25519}
use vtnet.Shared.Wire.{SerdeJson}
use vtnet.Runtime.Connection.{Connection, Phase, absent, running, ended, gone}
use vtnet.Runtime.System.{System, update, Reach}
use vtnet.Runtime.Safety.{Reach-Inv}
use vtnet.Runtime.Silence.{IsUnlisted}
use vtnet.Runtime.Spec.{spec_sent, spec_farewell}
use vtnet.Runtime.Spec.Steps.{
  Posts, Event, Promise, opens, skips, ends, handles, replies, admits, refuses, leaves, vanishes,
}
use vtnet.Runtime.Refinement.{sessionless-IsUnlisted}
use vtnet.Runtime.Refinement.Steps.{Step-Promise}
use vtnet.Runtime.Network.{
  Network, new_network, NetworkStep, serve, take, return, Run, start, next, posted,
}

module _ {Uuid : Type 0} where
  -- A connection that is over has lost its session.
  abbrev IsClosed : Connection Uuid → Type 0
  IsClosed conn = conn.phase ≡ gone → conn.session ≡ none

  abbrev AreClosed : (ℕ → Connection Uuid) → Type 0
  AreClosed conns = (j : ℕ) → IsClosed (conns j)

  update-AreClosed :
      (conns : ℕ → Connection Uuid) (i : ℕ) (conn : Connection Uuid)
      → AreClosed conns
      → IsClosed conn
      → AreClosed (update conns i conn)
  update-AreClosed conns i conn h k j = elim (eq? j i) [
    | yes same ↦ subst IsClosed (sym (if_pos (eq? j i) same conn (conns j))) k
    | no differs ↦ subst IsClosed (sym (if_neg (eq? j i) differs conn (conns j))) (h j)
  ]

  update_elsewhere :
      (conns : ℕ → Connection Uuid) (i j : ℕ) (conn : Connection Uuid) {p : Phase}
      → (conns i).phase ≡ p
      → p ≢ gone
      → (conns j).phase ≡ gone
      → (j ≢ i) × (update conns i conn j ≡ conns j)
  update_elsewhere conns i j conn here other over =
      let differs : j ≢ i =
        λ same. other (sym here ∙ (ap (λ k. (conns k).phase) (sym same) ∙ over)) in
      (differs, if_neg (eq? j i) differs conn (conns j))

running-ne-gone : running ≢ gone
running-ne-gone h = cc

ended-ne-gone : ended ≢ gone
ended-ne-gone h = cc

absent-ne-gone : absent ≢ gone
absent-ne-gone h = cc

module _ {Uuid Json : Type 0} ⦃e : Eq Uuid⦄ {b : Base64} {c : Ed25519} {serde : SerdeJson Uuid Json}
    {conns : ℕ → Connection Uuid} {event : Event} {posts : Posts Uuid Json} where
  Promise-AreClosed :
      {conns' : ℕ → Connection Uuid}
      → Promise b c serde conns event posts conns'
      → AreClosed conns
      → AreClosed conns'
  Promise-AreClosed (opens i ev here quiet) h = update-AreClosed conns i _ h (λ q. cc)
  Promise-AreClosed (skips i ambient ev here quiet) h = update-AreClosed conns i _ h (h i)
  Promise-AreClosed (ends i ev here quiet) h = update-AreClosed conns i _ h (λ q. cc)
  Promise-AreClosed (handles i m ambient s here ev has heard) h =
      update-AreClosed conns i _ h (λ q. absurd (running-ne-gone (sym here ∙ q)))
  Promise-AreClosed (replies i m ambient here ev free taken reply) h =
      update-AreClosed conns i _ h (λ q. free)
  Promise-AreClosed (admits i m ambient s here ev free taken new reply) h =
      update-AreClosed conns i _ h (λ q. absurd (running-ne-gone (sym here ∙ q)))
  Promise-AreClosed (refuses i m ambient s here ev free taken old reply) h =
      update-AreClosed conns i _ h (λ q. free)
  Promise-AreClosed (leaves i s ev here has heard) h = update-AreClosed conns i _ h (λ q. refl)
  Promise-AreClosed (vanishes i ev here free quiet) h = update-AreClosed conns i _ h (λ q. refl)

  -- A connection that is over stays as it is, and gets nothing.
  Promise-silent :
      {conns' : ℕ → Connection Uuid}
      → Promise b c serde conns event posts conns'
      → (j : ℕ) → (conns j).phase ≡ gone
      → (conns j).session ≡ none
      → (posts j ≡ []) × (conns' j ≡ conns j)
  Promise-silent (opens i ev here quiet) j over free =
      (quiet j, (update_elsewhere conns i j _ here absent-ne-gone over).1)
  Promise-silent (skips i ambient ev here quiet) j over free =
      (quiet j, (update_elsewhere conns i j _ here running-ne-gone over).1)
  Promise-silent (ends i ev here quiet) j over free =
      (quiet j, (update_elsewhere conns i j _ here running-ne-gone over).1)
  Promise-silent (handles i m ambient s here ev has heard) j over free =
      (heard j ∙ rw (free, spec_sent), (update_elsewhere conns i j _ here running-ne-gone over).1)
  Promise-silent (replies i m ambient here ev vacant taken reply) j over free =
      let (differs, kept) = update_elsewhere conns i j _ here running-ne-gone over in
      (reply j ∙ ground arith, kept)
  Promise-silent (admits i m ambient s here ev vacant taken new reply) j over free =
      let (differs, kept) = update_elsewhere conns i j _ here running-ne-gone over in
      (reply j ∙ ground arith, kept)
  Promise-silent (refuses i m ambient s here ev vacant taken old reply) j over free =
      let (differs, kept) = update_elsewhere conns i j _ here running-ne-gone over in
      (reply j ∙ ground arith, kept)
  Promise-silent (leaves i s ev here has heard) j over free =
      (heard j ∙ rw (free, spec_farewell), (update_elsewhere conns i j _ here ended-ne-gone over).1)
  Promise-silent (vanishes i ev here vacant quiet) j over free =
      (quiet j, (update_elsewhere conns i j _ here ended-ne-gone over).1)

module _ {Uuid Json : Type 0} ⦃e : Eq Uuid⦄ {b : Base64} {c : Ed25519}
    {serde : SerdeJson Uuid Json} where
  pub Reach-AreClosed : {sys : System Uuid} → Reach b c serde sys → AreClosed sys.connection
  Reach-AreClosed Reach.start = λ j q. refl
  Reach-AreClosed (Reach.next r st) =
      Promise-AreClosed (Step-Promise b c serde st (Reach-Inv r)) (Reach-AreClosed r)

  -- The server of a network goes through states that the server alone reaches.
  pub Run-Reach :
      {net : Network Uuid Json} → Run b c serde new_network net → Reach b c serde net.system
  Run-Reach start = Reach.start
  Run-Reach (next r (serve st)) = Reach.next (Run-Reach r) st
  Run-Reach (next r (take i sent alive waiting)) = Run-Reach r
  Run-Reach (next r (return i alive empty over unlisted)) = Run-Reach r

  -- When a connection is over, no sender to its channel is left in the table: its writer can end.
  pub over-IsUnlisted :
      {net : Network Uuid Json}
      → Run b c serde new_network net
      → (i : ℕ) → (net.system.connection i).phase ≡ gone
      → IsUnlisted i net.system.server.connections
  over-IsUnlisted r i over =
      sessionless-IsUnlisted (Reach-Inv (Run-Reach r)).table i
        (Reach-AreClosed (Run-Reach r) i over)

  -- From when a connection is over, no step posts anything for it, and it stays over.
  pub over_silent :
      {net net' : Network Uuid Json} (run : Run b c serde new_network net) (i : ℕ)
      → (net.system.connection i).phase ≡ gone
      → (st : NetworkStep b c serde net net')
      → (posted b c serde (next run st) i ≡ posted b c serde run i)
        × ((net'.system.connection i).phase ≡ gone)
  over_silent run i over (serve st) =
      let reach = Run-Reach run in
      let (quiet, kept) =
        Promise-silent (Step-Promise b c serde st (Reach-Inv reach)) i over
          (Reach-AreClosed reach i over) in
      (rw quiet (append-nil _), ap (λ (conn : Connection Uuid). conn.phase) kept ∙ over)
  over_silent run i over (take j sent alive waiting) = (refl, over)
  over_silent run i over (return j alive empty finished unlisted) = (refl, over)

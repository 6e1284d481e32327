-- ===== src/Runtime/Network/Ending.antt =====
-- Every connection can come to its end, writer task included: the `writer.await` that ends
-- `handle_socket` in server/src/main.rs does not wait for ever.
use vtnet.Runtime.Network.Drain.{Run-trans, writer_finishes}
use vtnet.Runtime.Invariant.{update_at}
use vtnet.Runtime.Connection.{finish}
use vtnet.Base.{
  ℕ, Eq, nat_eq, eq?, ◌≡◌, ◌≢◌, refl, sym, ◌∙◌, ap, Option, some, none, false, Bool-cases, inl, inr,
  if_neg,
}
use vtnet.Collections.Map
use vtnet.Shared.Uid.{uid_eq}
use vtnet.Room.Session.{Session}
use vtnet.Room.Registry.{is_member}
use vtnet.Runtime.Safety.{members_are_present, one_connection}
use vtnet.Runtime.Login.{unlisted}
use vtnet.Runtime.Network.Silence.{Run-Reach, Reach-AreClosed}
use vtnet.External.{Base64, Ed25519}
use vtnet.Shared.Wire.{SerdeJson}
use vtnet.Runtime.Connection.{Connection, Phase, absent, running, ended, gone}
use vtnet.Runtime.System.{System, update, hang_up}
use vtnet.Runtime.System
use vtnet.Runtime.Network.{
  Writer, writing, stopped, Network, new_network, NetworkStep, serve, Run, start, next,
}

some-ne-none : {A : Type 0} (a : A) → ◌≢◌ {A = Option A} (some a) none
some-ne-none a h = cc

module _ {Uuid Json : Type 0} ⦃e : Eq Uuid⦄ (b : Base64) (c : Ed25519)
    (serde : SerdeJson Uuid Json) where
  -- The steps from one network to another end a connection, and no other.
  record Ends (net : Network Uuid Json) (i : ℕ) (to : Network Uuid Json) : Type 0 where
    run : Run b c serde net to
    over : (to.system.connection i).phase ≡ gone
    finished : (to.outbox i).writer ≡ stopped
    others : (j : ℕ) → j ≢ i → to.system.connection j ≡ net.system.connection j

  -- One more step of the server before the others, which changes the connection alone.
  step-Ends :
      {net between : Network Uuid Json} (i : ℕ) (conn : Connection Uuid)
      → NetworkStep b c serde net between
      → between.system.connection ≡ update net.system.connection i conn
      → ((to : Network Uuid Json) × Ends between i to)
      → (to : Network Uuid Json) × Ends net i to
  step-Ends {net} i conn st same (to, rest) = (
    to,
    record {
      run = Run-trans b c serde (next start st) rest.run;
      over = rest.over;
      finished = rest.finished;
      others = λ j differs.
          rest.others j differs
          ∙ (ap (λ (f : ℕ → Connection Uuid). f j) same
              ∙ if_neg (eq? j i) differs conn (net.system.connection j));
    },
  )

  gone-Ends :
      {net : Network Uuid Json} (w : Writer)
      → Run b c serde new_network net
      → (i : ℕ) → (net.outbox i).writer ≡ w
      → (net.system.connection i).phase ≡ gone
      → (to : Network Uuid Json) × Ends net i to
  gone-Ends {net} stopped run i dead over =
      (net, record { run = start; over = over; finished = dead; others = λ j differs. refl })
  gone-Ends writing run i alive over =
      let (to, flushed) = writer_finishes b c serde run i over alive in
      (
        to,
        record {
          run = flushed.run;
          over = ap (λ (s : System Uuid). (s.connection i).phase) flushed.server ∙ over;
          finished = flushed.finished;
          others = λ j differs. ap (λ (s : System Uuid). s.connection j) flushed.server;
        },
      )

  ended-Ends :
      {net : Network Uuid Json}
      → Run b c serde new_network net
      → (i : ℕ) → (net.system.connection i).phase ≡ ended
      → (to : Network Uuid Json) × Ends net i to
  unfolding finish
  ended-Ends {net} run i here =
      let st = serve (System.Step.close i here) in
      step-Ends i _ st refl (
        gone-Ends _ (next run st) i refl
          (ap (λ (conn : Connection Uuid). conn.phase) (update_at net.system.connection i _)))

  phase-Ends :
      {net : Network Uuid Json} (p : Phase)
      → Run b c serde new_network net
      → (i : ℕ) → (net.system.connection i).phase ≡ p
      → p ≢ absent
      → (to : Network Uuid Json) × Ends net i to
  phase-Ends absent run i here came = absurd (came refl)
  phase-Ends {net} running run i here came =
      let st = serve (hang_up i here) in
      step-Ends i _ st refl (
        ended-Ends (next run st) i
          (ap (λ (conn : Connection Uuid). conn.phase) (update_at net.system.connection i _)))
  phase-Ends ended run i here came = ended-Ends run i here
  phase-Ends gone run i here came = gone-Ends _ run i refl here

  -- A connection is over: what is left of it, and of the session that it had in `net`.
  pub record IsOver (net : Network Uuid Json) (i : ℕ) (to : Network Uuid Json) : Type 0 where
    pub over : (to.system.connection i).phase ≡ gone
    pub finished : (to.outbox i).writer ≡ stopped
    pub no_session : (to.system.connection i).session ≡ none
    pub unlisted :
        (s : Session Uuid)
        → (net.system.connection i).session ≡ some s
        → Map.get s.user_uid to.system.server.connections ≡ none
    pub left :
        (s : Session Uuid)
        → (net.system.connection i).session ≡ some s
        → (r : Uuid) → is_member to.system.server.rooms r s.user_uid ≡ false
    pub others : (j : ℕ) → j ≢ i → to.system.connection j ≡ net.system.connection j

  module _ {net to : Network Uuid Json} (run : Run b c serde new_network net) (i : ℕ)
      (ends : Ends net i to) where
    end_run : Run b c serde new_network to
    end_run = Run-trans b c serde run ends.run

    -- No connection has a session of the user any more.
    nobody_else :
        (s : Session Uuid)
        → (net.system.connection i).session ≡ some s
        → (j : ℕ) (t : Session Uuid) → (to.system.connection j).session ≡ some t
        → t.user_uid ≢ s.user_uid
    nobody_else s has j t here same = elim (eq? j i) [
      | yes own ↦
          let closed = Reach-AreClosed (Run-Reach end_run) i ends.over in
          absurd
            (some-ne-none t (sym here ∙ (ap (λ k. (to.system.connection k).session) own ∙ closed)))
      | no differs ↦ absurd (
          differs (
            one_connection (Run-Reach run) j i t s
              (ap (λ (k : Connection Uuid). k.session) (sym (ends.others j differs)) ∙ here) has
              same))
    ]

    Ends-IsOver : IsOver net i to
    Ends-IsOver = record {
      over = ends.over;
      finished = ends.finished;
      no_session = Reach-AreClosed (Run-Reach end_run) i ends.over;
      unlisted = λ s has. unlisted b c serde (Run-Reach end_run) s.user_uid (nobody_else s has);
      left = λ s has r. elim (Bool-cases (is_member to.system.server.rooms r s.user_uid)) [
        | inl member ↦
            let (j, t, here, own, there) =
              (members_are_present (Run-Reach end_run) r s.user_uid).0 member in
            absurd (nobody_else s has j t here own)
        | inr out ↦ out
      ];
      others = ends.others;
    }

  -- From every reachable network, every connection that has come can be brought to its end in finitely
  -- many steps: its loop is left, it has no session, and its writer has returned; the user whose
  -- session it had has no sender in the table and is in no room any more, and the connections other
  -- than this one are as they were.
  pub connection_ends :
      {net : Network Uuid Json}
      → Run b c serde new_network net
      → (i : ℕ) → (net.system.connection i).phase ≢ absent
      → (to : Network Uuid Json) × Run b c serde net to × IsOver net i to
  connection_ends run i came =
      let (to, ends) = phase-Ends _ run i refl came in (to, ends.run, Ends-IsOver run i ends)

-- ===== src/Runtime/Refinement/Steps.antt =====
-- Every step of the running server against the promise of Spec/Steps.
use vtnet.Base.{
  ℕ, Eq, nat_eq, ◌≡◌, refl, sym, ap, subst, true, false, Bool, Option, none, some, [], ◌∷◌,
  Option-cases, inl, inr, ok, err, Result,
}
use vtnet.Text.{Text}
use vtnet.External.{Base64, Ed25519}
use vtnet.Collections.Map
use vtnet.Shared.Uid.{UserUid, uid_eq}
use vtnet.Shared.Messages.{ClientMessage, ServerMessage}
use vtnet.Shared.Wire.{SerdeJson}
use vtnet.Room.Session.{Session}
use vtnet.Auth.{take_authenticated_session}
use vtnet.Transport.{WebSocketMessageError, decode_client_message}
use vtnet.Runtime.{Sent, handle_authenticated_message}
use vtnet.Runtime.Connection.{
  running, ended, gone, Frame, text, close, other, Ambient, unix_timestamp_millis, message_of,
  admit, receive_message, receive_decoded, receive, finish_session, finish,
}
use vtnet.Runtime.System.{System, update, Step, accept, read, hang_up}
use vtnet.Runtime.Table.{HasUid}
use vtnet.Runtime.Channels.{on}
use vtnet.Runtime.Safety.{Inv, sessions}
use vtnet.Runtime.Spec.Steps.{
  IsReply, IsOnline, IsHeard, answer, answered, Event, opened, received, hung_up, closed, Promise,
  opens, skips, ends, handles, replies, admits, refuses, leaves, vanishes,
}
use vtnet.Runtime.Refinement.{handle_authenticated_message-IsPromised, disconnect_session-heard}

module _ {Uuid Json : Type 0} ⦃e : Eq Uuid⦄ (b : Base64) (c : Ed25519)
    (serde : SerdeJson Uuid Json) where
  -- What a step puts on channels, and what it is about.
  abbrev pub sent_by : {s t : System Uuid} → Step b c serde s t → Sent Uuid Json
  sent_by {s} (read i frame ambient h) =
      (receive b c serde s.server (s.connection i) i ambient frame).2
  sent_by {s} (Step.close i h) = (finish {Json = Json} s.server (s.connection i)).2
  sent_by _ = []

  abbrev pub event_of : {s t : System Uuid} → Step b c serde s t → Event
  event_of (accept i h) = opened i
  event_of (read i frame ambient h) = received i frame ambient
  event_of (hang_up i h) = hung_up i
  event_of (Step.close i h) = closed i

  reply_lem :
      (i : ℕ) (message : ServerMessage Uuid Json)
      → IsReply i message (λ j. on j ((i, message) ∷ []))
  unfolding on
  reply_lem i message j = refl

  module _ (sys : System Uuid) (v : Inv sys) (i : ℕ) (ambient : Ambient)
      (in_loop : (sys.connection i).phase ≡ running) where
    online :
        (u : UserUid) (j : ℕ)
        → Map.get u sys.server.connections ≡ some j
        → IsOnline sys.connection u
    online u j found = elim (Option-cases (sessions sys j)) [
      | inl no_session ↦ absurd (subst (HasUid u) no_session (v.table.backed u j found))
      | inr (t, has) ↦ (j, t, has, subst (HasUid u) has (v.table.backed u j found))
    ]

    offline : (u : UserUid) → Map.get u sys.server.connections ≡ none → ¬ IsOnline sys.connection u
    offline u unlisted (j, t, has, same) =
        cc (v.table.registered j t has, unlisted, ap (λ w. Map.get w sys.server.connections) same)

    module _ (m : ClientMessage Uuid Json) (event : Event)
        (heard : IsHeard b c serde i m ambient event) where
      greeted :
          (o : Option (Session Uuid))
          → (sys.connection i).session ≡ none
          → (take_authenticated_session (answer b c serde (sys.connection i) m ambient).0).1 ≡ o
          → let out =
              admit sys.server
                (answered b c serde (sys.connection i) m ambient)
                i
                (message_of (answer b c serde (sys.connection i) m ambient).1)
                o in
            Promise b c serde sys.connection event (λ j. on j out.2) (update sys.connection i out.1)
      unfolding admit
      greeted none free taken = replies i m ambient in_loop heard free taken (reply_lem i _)
      greeted (some s) free taken =
          elim (Option-cases (Map.get s.user_uid sys.server.connections)) [
            | inl new ↦ rw new (
                admits i m ambient s in_loop heard free taken (offline s.user_uid new)
                  (reply_lem i _))
            | inr (j, found) ↦ rw found (
                refuses i m ambient s in_loop heard free taken (online s.user_uid j found)
                  (reply_lem i _))
          ]

      received_message :
          (o : Option (Session Uuid))
          → (sys.connection i).session ≡ o
          → let out = receive_message b c serde sys.server (sys.connection i) i ambient m o in
            Promise b c serde sys.connection event (λ j. on j out.2) (update sys.connection i out.1)
      unfolding receive_message
      received_message none free = greeted _ free refl
      received_message (some s) has =
          let time = unix_timestamp_millis ambient.since_epoch in
          let promised = handle_authenticated_message-IsPromised v.table Json i s has m time in
          subst
            (λ u.
              Promise b c serde sys.connection event
                (λ j. on j (handle_authenticated_message sys.server s m time).2)
                (update sys.connection i (record (sys.connection i) { session = some u })))
            (sym promised.session) (handles i m ambient s in_loop heard has promised.heard)

    received_text :
        (payload : Text) (r : Result (ClientMessage Uuid Json) WebSocketMessageError)
        → decode_client_message serde b payload ≡ r
        → let out = receive_decoded b c serde sys.server (sys.connection i) i ambient r in
          Promise b c serde sys.connection
            (received i (text payload) ambient)
            (λ j. on j out.2)
            (update sys.connection i out.1)
    unfolding receive_decoded on
    received_text payload (ok m) q =
        received_message m (received i (text payload) ambient) (payload, refl, q)
          (sys.connection i).session refl
    received_text payload (err x) q = ends i (refl, x, q) in_loop (λ j. refl)

    received_frame :
        (frame : Frame)
        → let out = receive b c serde sys.server (sys.connection i) i ambient frame in
          Promise b c serde sys.connection
            (received i frame ambient)
            (λ j. on j out.2)
            (update sys.connection i out.1)
    unfolding receive on
    received_frame (text payload) =
        received_text payload (decode_client_message serde b payload) refl
    received_frame close = ends i refl in_loop (λ j. refl)
    received_frame other = skips i ambient refl in_loop (λ j. refl)

  finished :
      (sys : System Uuid) (i : ℕ) (o : Option (Session Uuid)) (flag : Bool)
      → Inv sys
      → (sys.connection i).phase ≡ ended
      → (sys.connection i).session ≡ o
      → ((s : Session Uuid) → o ≡ some s → flag ≡ true)
      → let out = finish_session {Json = Json} sys.server flag o in
        Promise b c serde sys.connection
          (closed i)
          (λ j. on j out.1)
          (update sys.connection i
            (record (sys.connection i) { phase = gone; session = none; is_registered = false }))
  unfolding finish_session on
  finished sys i none flag v over free f = vanishes i refl over free (λ j. refl)
  finished sys i (some s) flag v over has f =
      rw (f s refl) (leaves i s refl over has (disconnect_session-heard v.table Json i s has))

  -- From every state with the invariant, a step of the server with its table and rooms is a step
  -- that the sessions alone promise, for the same event, and every channel gets in order what is
  -- promised.
  pub Step-Promise :
      {s t : System Uuid} (st : Step b c serde s t)
      → Inv s
      → Promise b c serde s.connection (event_of st) (λ j. on j (sent_by st)) t.connection
  unfolding finish on
  Step-Promise (accept i h) v = opens i refl h (λ j. refl)
  Step-Promise {s} (read i frame ambient h) v = received_frame s v i ambient h frame
  Step-Promise (hang_up i h) v = ends i refl h (λ j. refl)
  Step-Promise {s} (Step.close i h) v =
      finished s i (s.connection i).session (s.connection i).is_registered v h refl
        (v.sound i).flagged

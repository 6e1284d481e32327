-- ===== src/Runtime/Told/Rooms.antt =====
-- The room of a session of server/src/main.rs in every run: the one that the server posted last for
-- its connection.
use vtnet.Base.{
  ℕ, Eq, nat_eq, eq?, ◌≡◌, ◌≢◌, refl, sym, ◌∙◌, ap, subst, true, Option, none, some, List, [], ◌∷◌,
  ◌++◌, arith, if_pos, if_neg, Option-cases, inl, inr,
}
use vtnet.External.{Base64, Ed25519}
use vtnet.Shared.Messages.{ClientMessage, ServerMessage}
use vtnet.Shared.Wire.{SerdeJson}
use vtnet.Room.Session.{Session}
use vtnet.Auth.Fresh.{IsUnused, handle_message-IsFresh, take-IsFresh}
use vtnet.Runtime.Connection.{Connection, unix_timestamp_millis}
use vtnet.Runtime.Invariant.{IsSound}
use vtnet.Runtime.Spec.{spec_heard, spec_sent, spec_farewell}
use vtnet.Runtime.Spec.Steps.{
  Posts, IsReply, Event, Promise, opens, skips, ends, handles, replies, admits, refuses, leaves,
  vanishes, answer,
}
use vtnet.Runtime.Told.{
  told, told-append, Keeps, answer-Keeps, left-Keeps, heard-Keeps, told-heard, IsTold, slot,
  same_session,
}
use vtnet.Runtime.Table.{room_of}
use vtnet.Runtime.Channels.{on}
use vtnet.Runtime.Refinement.Steps.{sent_by, Step-Promise}
use vtnet.Runtime.Network.{Network, new_network, serve, take, return, Run, start, next, posted}
use vtnet.Runtime.Safety.{Reach-Inv}
use vtnet.Runtime.Network.Silence.{Run-Reach}

unused_room :
    {Uuid : Type 0} (s : Session Uuid) (o : Option (Session Uuid))
    → o ≡ some s
    → IsUnused o
    → s.active_voice_room_id ≡ none
unused_room s o q h = subst IsUnused q h

new-IsTold :
    {Uuid Json : Type 0} (i : ℕ)
    → IsTold {Uuid = Uuid} {Json = Json} []
        ((new_network {Uuid = Uuid} {Json = Json}).system.connection i)
new-IsTold i = record { room = λ s has. cc; outside = λ free alive. refl }

module _ {Uuid : Type 0} ⦃e : Eq Uuid⦄ (Json : Type 0) where
  farewell-Keeps :
      (sess : ℕ → Option (Session Uuid)) (i : ℕ) (s : Session Uuid) (j : ℕ)
      → j ≢ i
      → Keeps {Json = Json} (spec_farewell sess i s j)
  farewell-Keeps sess i s j differs = elim (Option-cases (sess j)) [
    | inl free ↦ rw (free, spec_farewell) (λ o. refl)
    | inr (t, has) ↦
        rw (has, spec_farewell, if_neg (eq? j i) differs)
          (left-Keeps Json s.active_voice_room_id s t)
  ]

module _ {Uuid Json : Type 0} ⦃e : Eq Uuid⦄ where
  quiet-Keeps : (l : List (ServerMessage Uuid Json)) → l ≡ [] → Keeps l
  quiet-Keeps l q o = ap (told o) q

  reply-Keeps :
      (i : ℕ) (m : ServerMessage Uuid Json) (posts : Posts Uuid Json)
      → IsReply i m posts
      → Keeps (m ∷ [])
      → (j : ℕ) → Keeps (posts j)
  reply-Keeps i m posts h k j o = ground (arith, h j, k o)

  sent-Keeps :
      (sess : ℕ → Option (Session Uuid)) (i : ℕ) (s : Session Uuid) (m : ClientMessage Uuid Json)
      (time j : ℕ)
      → j ≢ i
      → Keeps (spec_sent sess i s m time j)
  sent-Keeps sess i s m time j differs = elim (Option-cases (sess j)) [
    | inl free ↦ rw (free, spec_sent) (λ o. refl)
    | inr (t, has) ↦ rw (has, spec_sent, if_neg (eq? j i) differs) (heard-Keeps m time s t)
  ]

  own_sent :
      (sess : ℕ → Option (Session Uuid)) (i : ℕ) (s : Session Uuid) (m : ClientMessage Uuid Json)
      (time : ℕ)
      → sess i ≡ some s
      → spec_sent sess i s m time i ≡ spec_heard m time s s true
  own_sent sess i s m time has = rw (has, spec_sent, if_pos (eq? i i) refl) refl

  module _ {b : Base64} {c : Ed25519} {serde : SerdeJson Uuid Json} where
    Promise-IsTold :
        (conns : ℕ → Connection Uuid) (event : Event) (old more : Posts Uuid Json)
        {conns' : ℕ → Connection Uuid}
        → ((j : ℕ) → IsSound (conns j))
        → Promise b c serde conns event more conns'
        → ((j : ℕ) → IsTold (old j) (conns j))
        → (j : ℕ) → IsTold (old j ++ more j) (conns' j)
    Promise-IsTold conns event old more sound (opens i q begun quiet) h =
        same_session conns old more i _ h (λ j. quiet-Keeps (more j) (quiet j))
          (sym ((sound i).idle begun)) (λ over. cc)
    Promise-IsTold conns event old more sound (skips i ambient q in_loop quiet) h =
        same_session conns old more i _ h (λ j. quiet-Keeps (more j) (quiet j)) refl (λ over. over)
    Promise-IsTold conns event old more sound (ends i q in_loop quiet) h =
        same_session conns old more i _ h (λ j. quiet-Keeps (more j) (quiet j)) refl (λ over. cc)
    Promise-IsTold conns event old more sound (handles i m ambient s in_loop heard has sent) h =
        slot conns old more i _ h
          (λ j differs. rw (sent j) (sent-Keeps (λ k. (conns k).session) i s m _ j differs))
          (record {
            room = λ t is.
                told-append none (old i) (more i)
                ∙ ap (λ o. told o (more i)) ((h i).room s has)
                ∙ ap (told s.active_voice_room_id)
                    (sent i ∙ own_sent (λ k. (conns k).session) i s m _ has)
                ∙ told-heard m _ s
                ∙ ap room_of is;
            outside = λ free. cc;
          })
    Promise-IsTold conns event old more sound (replies i m ambient in_loop heard free taken reply)
          h =
        same_session conns old more i _ h
          (reply-Keeps i _ more reply (answer-Keeps b c (conns i).authenticator m _ _ _)) refl
          (λ over. over)
    Promise-IsTold conns event old more sound
          (admits i m ambient s in_loop heard free taken new reply) h =
        let keeps =
          reply-Keeps i _ more reply
            (answer-Keeps b c (conns i).authenticator m ambient.nonce _ _) in
        slot conns old more i _ h (λ j differs. keeps j)
          (record {
            room = λ t is.
                told-append none (old i) (more i)
                ∙ keeps i (told none (old i))
                ∙ (h i).outside free (λ over. cc)
                ∙ sym (
                    unused_room s _ taken
                      (take-IsFresh (answer b c serde (conns i) m ambient).0 (
                        handle_message-IsFresh b c (conns i).authenticator m ambient.nonce
                          (unix_timestamp_millis ambient.since_epoch) ambient.now
                          (sound i).fresh)).1)
                ∙ ap room_of is;
            outside = λ free. cc;
          })
    Promise-IsTold conns event old more sound
          (refuses i m ambient s in_loop heard free taken online reply) h =
        same_session conns old more i _ h (reply-Keeps i _ more reply (λ o. refl)) refl (λ over. cc)
    Promise-IsTold conns event old more sound (leaves i s q over has sent) h =
        slot conns old more i _ h
          (λ j differs. rw (sent j) (farewell-Keeps Json (λ k. (conns k).session) i s j differs))
          (record { room = λ t is. cc; outside = λ free alive. absurd (alive refl) })
    Promise-IsTold conns event old more sound (vanishes i q over free quiet) h =
        slot conns old more i _ h (λ j differs. quiet-Keeps (more j) (quiet j))
          (record { room = λ t is. cc; outside = λ free alive. absurd (alive refl) })

    pub posted-IsTold :
        {net : Network Uuid Json} (run : Run b c serde new_network net) (i : ℕ)
        → IsTold (posted b c serde run i) (net.system.connection i)
    posted-IsTold start = new-IsTold
    posted-IsTold (next {n = n} r (serve st)) =
        Promise-IsTold n.system.connection _ (posted b c serde r) (λ j. on j (sent_by b c serde st))
          (Reach-Inv (Run-Reach r)).sound (Step-Promise b c serde st (Reach-Inv (Run-Reach r)))
          (posted-IsTold r)
    posted-IsTold (next r (take i sent alive waiting)) = posted-IsTold r
    posted-IsTold (next r (return i alive empty over unlisted)) = posted-IsTold r

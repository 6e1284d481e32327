-- ===== src/Runtime/Invariant.antt =====
-- What one round of `handle_socket` of server/src/main.rs keeps: the table of connections, the rooms
-- and the sessions, and each connection on its own.
use vtnet.Base.{
  ℕ, Eq, nat_eq, eq?, ◌≡◌, refl, sym, ◌∙◌, subst, fun_ext, ap, true, Option, none, some, if_pos,
  if_neg, Option-cases, inl, inr, Result, ok, err,
}
use vtnet.External.{Base64, Ed25519}
use vtnet.Collections.Map
use vtnet.Shared.Uid.{uid_eq}
use vtnet.Shared.Messages.{ClientMessage, ServerMessage}
use vtnet.Shared.Wire.{SerdeJson}
use vtnet.Room.Session.{Session}
use vtnet.Auth.{handle_message, take_authenticated_session}
use vtnet.Auth.Fresh.{IsFresh, IsUnused, handle_message-IsFresh, take-IsFresh}
use vtnet.Transport.{WebSocketMessageError, decode_client_message}
use vtnet.Runtime.{ServerState, Sent}
use vtnet.Runtime.Connection.{
  Connection, Phase, absent, running, ended, Frame, text, close, other, Ambient, admit,
  receive_message, receive_decoded, receive, unix_timestamp_millis, message_of,
}
use vtnet.Runtime.System.{update}
use vtnet.Runtime.Table.{Sessions, IsTable, handle-IsTable, register-IsTable}

-- What holds of one connection on its own.
pub record IsSound {Uuid : Type 0} (c : Connection Uuid) : Type 0 where
  pub flagged : (s : Session Uuid) → c.session ≡ some s → c.is_registered ≡ true
  pub fresh : IsFresh c.authenticator.state
  pub idle : c.phase ≡ absent → c.session ≡ none

pub update_at : {A : Type 0} (f : ℕ → A) (i : ℕ) (a : A) → update f i a i ≡ a
update_at f i a = if_pos (eq? i i) refl a (f i)

pub update_self : {A : Type 0} (f : ℕ → A) (i : ℕ) (a : A) → f i ≡ a → f ≡ update f i a
update_self f i a h = fun_ext λ j. elim (eq? j i) [
  | yes same ↦ ap f same ∙ h ∙ sym (if_pos (eq? j i) same a (f j))
  | no differs ↦ sym (if_neg (eq? j i) differs a (f j))
]

running-ne-absent : {q : Phase} → q ≡ running → ¬ (q ≡ absent)
running-ne-absent p h = cc

pub ended-IsSound :
    {Uuid : Type 0} (conn : Connection Uuid)
    → IsSound conn
    → IsSound (record conn { phase = ended })
ended-IsSound conn h = record { flagged = h.flagged; fresh = h.fresh; idle = λ h. cc }

module _ {Uuid Json : Type 0} ⦃e : Eq Uuid⦄ where
  -- A round of one connection keeps the table and the connection's own invariant.
  pub record IsKept (sess : Sessions Uuid) (i : ℕ)
      (out : ServerState Uuid × Connection Uuid × Sent Uuid Json) : Type 0 where
    pub table : IsTable out.0 (update sess i out.1.session)
    pub sound : IsSound out.1

  module _ (sess : Sessions Uuid) (i : ℕ) (state : ServerState Uuid) (conn : Connection Uuid)
      (table : IsTable state sess) (same : sess i ≡ conn.session) (sound : IsSound conn)
      (in_loop : conn.phase ≡ running) where
    quiet-IsKept :
        (conn' : Connection Uuid) (sent : Sent Uuid Json)
        → conn'.session ≡ conn.session
        → IsSound conn'
        → IsKept sess i (state, conn', sent)
    quiet-IsKept conn' sent unchanged sound' = record {
      table = subst (IsTable state) (update_self sess i conn'.session (same ∙ sym unchanged)) table;
      sound = sound';
    }

    admit-IsKept :
        (message : ServerMessage Uuid Json) (o : Option (Session Uuid))
        → conn.session ≡ none
        → IsUnused o
        → IsKept sess i (admit state conn i message o)
    unfolding admit
    admit-IsKept message none free h = quiet-IsKept conn _ refl sound
    admit-IsKept message (some s) free h =
        elim (Option-cases (Map.get s.user_uid state.connections)) [
          | inl new ↦ rw new (record {
            table = register-IsTable state sess i s table (same ∙ free) new h;
            sound = record {
              flagged = λ t q. refl;
              fresh = sound.fresh;
              idle = λ h. absurd (running-ne-absent in_loop h);
            };
          })
          | inr (j, taken) ↦ rw taken (quiet-IsKept _ _ refl (ended-IsSound conn sound))
        ]

  module _ (b : Base64) (c : Ed25519) (serde : SerdeJson Uuid Json) (sess : Sessions Uuid) (i : ℕ)
      (state : ServerState Uuid) (conn : Connection Uuid) (table : IsTable state sess)
      (same : sess i ≡ conn.session) (sound : IsSound conn) (in_loop : conn.phase ≡ running)
      (ambient : Ambient) where
    receive_message-IsKept :
        (m : ClientMessage Uuid Json) (o : Option (Session Uuid))
        → conn.session ≡ o
        → IsKept sess i (receive_message b c serde state conn i ambient m o)
    unfolding receive_message
    receive_message-IsKept m (some s) has = record {
      table = handle-IsTable state sess i s m _ table (same ∙ has);
      sound = record {
        flagged = λ t q. sound.flagged s has;
        fresh = sound.fresh;
        idle = λ h. absurd (running-ne-absent in_loop h);
      };
    }
    receive_message-IsKept m none has =
        let time = unix_timestamp_millis ambient.since_epoch in
        let handled = handle_message b c conn.authenticator m ambient.nonce time ambient.now in
        let fresh =
          handle_message-IsFresh b c conn.authenticator m ambient.nonce time ambient.now
            sound.fresh in
        let (fresh', unused) = take-IsFresh handled.0 fresh in
        let conn' : Connection Uuid = record conn {
          authenticator = (take_authenticated_session handled.0).0;
        } in
        admit-IsKept sess i state conn' table same
          (record { flagged = sound.flagged; fresh = fresh'; idle = sound.idle }) in_loop
          (message_of handled.1) (take_authenticated_session handled.0).1 has unused

    receive_decoded-IsKept :
        (r : Result (ClientMessage Uuid Json) WebSocketMessageError)
        → IsKept sess i (receive_decoded b c serde state conn i ambient r)
    unfolding receive_decoded
    receive_decoded-IsKept (ok m) = receive_message-IsKept m conn.session refl
    receive_decoded-IsKept (err _) =
        quiet-IsKept sess i state conn table same sound in_loop _ _ refl (ended-IsSound conn sound)

    pub receive-IsKept :
        (frame : Frame) → IsKept sess i (receive b c serde state conn i ambient frame)
    unfolding receive
    receive-IsKept (text payload) = receive_decoded-IsKept (decode_client_message serde b payload)
    receive-IsKept close =
        quiet-IsKept sess i state conn table same sound in_loop _ _ refl (ended-IsSound conn sound)
    receive-IsKept other = quiet-IsKept sess i state conn table same sound in_loop conn _ refl sound

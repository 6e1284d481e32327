-- ===== src/Runtime/Refinement.antt =====
-- The handlers of server/src/main.rs against the promise of Spec.
pub mod Steps
pub mod Representation
use vtnet.Base.{
  ℕ, Eq, nat_eq, eq?, ◌≡◌, ◌≢◌, refl, sym, ◌∙◌, subst, true, false, none, some, [], arith, if_pos,
  if_neg, Option-cases, inl, inr, ap,
}
use vtnet.Collections.Map
use vtnet.Shared.Uid.{uid_eq}
use vtnet.Shared.Messages.{ClientMessage, broadcast_text_message}
use vtnet.Room.Session.{Session}
use vtnet.Room.Permission.{is_allowed}
use vtnet.Room.Registry.{join_voice_room, leave_voice_room, enter}
use vtnet.Room.Routing.{route_client_room_message, other_members}
use vtnet.Runtime.{ServerState, peers, handle_authenticated_message, Sent, disconnect_session}
use vtnet.Runtime.Table.{Sessions, IsTable, HasUid, handle-IsTable}
use vtnet.Runtime.Channels.{on, on-peers}
use vtnet.Runtime.Silence.{IsUnlisted, handle_authenticated_message-silent, leave_active-silent}
use vtnet.Runtime.Spec.{spec_heard, spec_sent, spec_session, spec_farewell}
use vtnet.Runtime.Delivery.{text_delivery, sdp_delivery, ice_delivery}
use vtnet.Runtime.Announcements.{join_delivery, leave_delivery}
use vtnet.Runtime.Confirmation.{join_confirmed, leave_confirmed, disconnect_delivery}
use vtnet.Runtime.System.{update}

module _ {Uuid : Type 0} ⦃e : Eq Uuid⦄ {state : ServerState Uuid} {sess : Sessions Uuid}
    (h : IsTable state sess) where
  -- A connection without a session has no sender in the table.
  pub sessionless-IsUnlisted : (j : ℕ) → sess j ≡ none → IsUnlisted j state.connections
  sessionless-IsUnlisted j free u q = subst (HasUid u) free (h.backed u j q)

  module _ (Json : Type 0) (i : ℕ) (s : Session Uuid) (has_s : sess i ≡ some s) where
    text_own :
        (r : Uuid) (content : _) (time : ℕ)
        → on i
            (handle_authenticated_message {Json = Json} state s
              (ClientMessage.send_text_message r content)
              time).2
          ≡ []
    unfolding handle_authenticated_message route_client_room_message is_allowed peers other_members
        on
    text_own r content time = ground (
      arith,
      on-peers h state.rooms {Json = Json}
          (broadcast_text_message r s.user_uid s.display_name content time) r s.user_uid i s has_s,
    )

    own_heard :
        (m : ClientMessage Uuid Json) (time : ℕ)
        → on i (handle_authenticated_message state s m time).2 ≡ spec_heard m time s s true
    unfolding handle_authenticated_message route_client_room_message on
    own_heard (ClientMessage.send_text_message r content) time =
        ground (arith, text_own r content time)
    own_heard (ClientMessage.send_web_rtc_sdp r target kind raw) time =
        sdp_delivery h Json i i s s r target kind raw time has_s has_s
    own_heard (ClientMessage.send_web_rtc_ice r target candidate) time =
        ice_delivery h Json i i s s r target candidate time has_s has_s
    own_heard (ClientMessage.join_voice_room r) time = join_confirmed h Json i s r time has_s
    own_heard (ClientMessage.leave_voice_room r) time = leave_confirmed h Json i s r time has_s
    own_heard m time = refl

    other_heard :
        (j : ℕ) (t : Session Uuid) (m : ClientMessage Uuid Json) (time : ℕ)
        → sess j ≡ some t
        → j ≢ i
        → on j (handle_authenticated_message state s m time).2 ≡ spec_heard m time s t false
    unfolding handle_authenticated_message route_client_room_message on
    other_heard j t (ClientMessage.send_text_message r content) time has_t differ =
        text_delivery h Json i j s t r content time has_s has_t differ ∙ ground arith
    other_heard j t (ClientMessage.send_web_rtc_sdp r target kind raw) time has_t differ =
        sdp_delivery h Json i j s t r target kind raw time has_s has_t
    other_heard j t (ClientMessage.send_web_rtc_ice r target candidate) time has_t differ =
        ice_delivery h Json i j s t r target candidate time has_s has_t
    other_heard j t (ClientMessage.join_voice_room r) time has_t differ =
        join_delivery h Json i j s t r time has_s has_t differ
    other_heard j t (ClientMessage.leave_voice_room r) time has_t differ =
        leave_delivery h Json i j s t r time has_s has_t differ
    other_heard j t m time has_t differ = refl

    handled_sent :
        (m : ClientMessage Uuid Json) (time j : ℕ)
        → on j (handle_authenticated_message state s m time).2 ≡ spec_sent sess i s m time j
    handled_sent m time j = elim (Option-cases (sess j)) [
      | inl free ↦
          rw (free, spec_sent)
            (handle_authenticated_message-silent Json j state (sessionless-IsUnlisted j free) s m
              time)
      | inr (t, has_t) ↦ elim (eq? j i) [
        | yes same ↦
            subst
              (λ k.
                on k (handle_authenticated_message state s m time).2 ≡ spec_sent sess i s m time k)
              (sym same) (rw (has_s, spec_sent, if_pos (eq? i i) refl) (own_heard m time))
        | no differ ↦
            rw (has_t, spec_sent, if_neg (eq? j i) differ) (other_heard j t m time has_t differ)
      ]
    ]

    moved :
        (m : ClientMessage Uuid Json) (time : ℕ)
        → (handle_authenticated_message state s m time).1 ≡ spec_session m s
    unfolding handle_authenticated_message join_voice_room leave_voice_room enter is_allowed
    moved (ClientMessage.join_voice_room r) time = ground arith
    moved (ClientMessage.leave_voice_room r) time = ground arith
    moved m time = refl

    -- What a handler does is what is promised of the sessions alone: the session moves as it says,
    -- every channel gets what it says, in its order, and table and rooms agree with the sessions again.
    pub record IsPromised (m : ClientMessage Uuid Json) (time : ℕ)
        (out : ServerState Uuid × Session Uuid × Sent Uuid Json) : Type 0 where
      pub session : out.1 ≡ spec_session m s
      pub heard : (j : ℕ) → on j out.2 ≡ spec_sent sess i s m time j
      pub table : IsTable out.0 (update sess i (some (spec_session m s)))

    -- While table, rooms and sessions agree, a handler does to the sessions what is promised of them
    -- alone, puts on every channel what is promised, in that order, and leaves table, rooms and
    -- sessions in agreement.
    pub handle_authenticated_message-IsPromised :
        (m : ClientMessage Uuid Json) (time : ℕ)
        → IsPromised m time (handle_authenticated_message state s m time)
    handle_authenticated_message-IsPromised m time = record {
      session = moved m time;
      heard = handled_sent m time;
      table =
          subst
            (λ u. IsTable (handle_authenticated_message state s m time).0 (update sess i (some u)))
            (moved m time) (handle-IsTable state sess i s m time h has_s);
    }

    -- Once the user is taken out of the table, only other sessions have senders.
    pub removed-IsUnlisted :
        (j : ℕ)
        → ((t : Session Uuid) → sess j ≡ some t → t.user_uid ≡ s.user_uid)
        → IsUnlisted j (Map.remove s.user_uid state.connections)
    removed-IsUnlisted j only u q = elim (eq? u s.user_uid) [
      | yes own ↦ ground (arith, Map.get-remove u s.user_uid state.connections)
      | no differs ↦
          let kept = sym (Map.get-remove_ne u s.user_uid state.connections differs) ∙ q in
          elim (Option-cases (sess j)) [
            | inl free ↦ sessionless-IsUnlisted j free u kept
            | inr (t, has) ↦ differs (sym (subst (HasUid u) has (h.backed u j kept)) ∙ only t has)
          ]
    ]

    disconnect-silent :
        (j : ℕ)
        → ((t : Session Uuid) → sess j ≡ some t → t.user_uid ≡ s.user_uid)
        → on j (disconnect_session {Json = Json} state s).1 ≡ []
    unfolding disconnect_session
    disconnect-silent j only =
        leave_active-silent Json j
          (record state { connections = Map.remove s.user_uid state.connections })
          (removed-IsUnlisted j only) s s.active_voice_room_id

    -- While table, rooms and sessions agree, a disconnect tells every other connection what is
    -- promised of the sessions alone, and its own nothing.
    pub disconnect_session-heard :
        (j : ℕ) → on j (disconnect_session {Json = Json} state s).1 ≡ spec_farewell sess i s j
    disconnect_session-heard j = elim (Option-cases (sess j)) [
      | inl free ↦ rw (free, spec_farewell) (disconnect-silent j (λ t q. cc))
      | inr (t, has_t) ↦ elim (eq? j i) [
        | yes same ↦
            rw (has_t, spec_farewell, if_pos (eq? j i) same)
              (disconnect-silent j (λ u q. ground (arith, has_s, ap sess same)))
        | no differ ↦
            rw (has_t, spec_farewell, if_neg (eq? j i) differ)
              (disconnect_delivery h Json i j s t has_s has_t differ)
      ]
    ]

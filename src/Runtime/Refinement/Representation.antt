-- ===== src/Runtime/Refinement/Representation.antt =====
-- The hash tables of server/src/main.rs and server/src/lib.rs have no fixed order: what the handlers
-- do does not depend on it.
use vtnet.Base.{ℕ, Eq, nat_eq, ◌≡◌, sym, ◌∙◌, some}
use vtnet.Shared.Messages.{ClientMessage}
use vtnet.Room.Session.{Session}
use vtnet.Runtime.{ServerState, Sent, handle_authenticated_message, disconnect_session}
use vtnet.Runtime.Channels.{on}
use vtnet.Runtime.Table.{Sessions, IsTable}
use vtnet.Runtime.System.{update}
use vtnet.Runtime.Spec.{spec_session}
use vtnet.Runtime.Refinement.{handle_authenticated_message-IsPromised, disconnect_session-heard}

module _ {Uuid Json : Type 0} ⦃e : Eq Uuid⦄ where
  -- Every channel gets the same, in the same order.
  abbrev pub AreSameMessages : Sent Uuid Json → Sent Uuid Json → Type 0
  AreSameMessages sent sent' = (j : ℕ) → on j sent ≡ on j sent'

  -- Two states that hold the tables and rooms of the same sessions, in whatever order and number of
  -- entries, are as good as each other: for each message a handler gives the session the same new
  -- value and each channel the same messages in the same order, with states that again hold the same
  -- sessions; and a disconnect sends each channel the same messages.
  pub representation_free :
      {state state' : ServerState Uuid} {sess : Sessions Uuid}
      → IsTable state sess
      → IsTable state' sess
      → (i : ℕ) (s : Session Uuid) → sess i ≡ some s
      → (m : ClientMessage Uuid Json) (time : ℕ)
      → let out = handle_authenticated_message state s m time in
        let out' = handle_authenticated_message state' s m time in
        let after = update sess i (some (spec_session m s)) in
        (out.1 ≡ out'.1)
        × AreSameMessages out.2 out'.2
        × IsTable out.0 after
        × IsTable out'.0 after
        × AreSameMessages (disconnect_session state s).1 (disconnect_session state' s).1
  representation_free h h' i s has m time =
      let p = handle_authenticated_message-IsPromised h Json i s has m time in
      let p' = handle_authenticated_message-IsPromised h' Json i s has m time in
      (
        p.session ∙ sym p'.session,
        λ j. p.heard j ∙ sym (p'.heard j),
        p.table,
        p'.table,
        λ j.
            disconnect_session-heard h Json i s has j
            ∙ sym (disconnect_session-heard h' Json i s has j),
      )

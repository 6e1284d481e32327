-- ===== src/Tests/Representation.antt =====
-- The meeting of Tests/Server, reached in another order.
use vtnet.Base.{ℕ, zero, suc, nat_eq, ◌≡◌, refl, subst, fun_ext, arith, true, false, some}
use vtnet.Shared.Messages.{ClientMessage}
use vtnet.Room.Session.{Session}
use vtnet.Auth.{default_display_name}
use vtnet.Runtime.{handle_authenticated_message, disconnect_session}
use vtnet.Runtime.Table.{IsTable}
use vtnet.Runtime.Safety.{sessions, Reach-Inv}
use vtnet.Runtime.System
use vtnet.Runtime.System.{System, Reach, start, next, read, update}
use vtnet.Runtime.Spec.{spec_session}
use vtnet.Runtime.Refinement.Representation.{AreSameMessages, representation_free}
use vtnet.Tests.Crates.{base64, ed25519, serde}
use vtnet.Tests.Server.{
  server, alice, bob, ambient, round, identify, respond, enter_room, both_open, meeting,
  meeting-Reach,
}

abbrev bob_asked : System ℕ
bob_asked = round both_open 1 (identify bob)

abbrev bob_known : System ℕ
bob_known = round bob_asked 1 (respond false bob)

abbrev bob_inside : System ℕ
bob_inside = round bob_known 1 (enter_room 7)

abbrev alice_asked : System ℕ
alice_asked = round bob_inside 0 (identify alice)

abbrev alice_known : System ℕ
alice_known = round alice_asked 0 (respond true alice)

abbrev reunion : System ℕ
reunion = round alice_known 0 (enter_room 7)

reunion-Reach : Reach base64 ed25519 serde reunion
unfolding server
reunion-Reach =
    next
      (next
        (next
          (next
            (next
              (next (next (next start (System.Step.accept 0 refl)) (System.Step.accept 1 refl))
                (read 1 (identify bob) ambient refl))
              (read 1 (respond false bob) ambient refl))
            (read 1 (enter_room 7) ambient refl))
          (read 0 (identify alice) ambient refl))
        (read 0 (respond true alice) ambient refl))
      (read 0 (enter_room 7) ambient refl)

same_session : (i : ℕ) → sessions reunion i ≡ sessions meeting i
unfolding server
same_session zero = refl
same_session (suc zero) = refl
same_session (suc (suc i)) = ground arith

reunion-IsTable : IsTable reunion.server (sessions meeting)
reunion-IsTable =
    subst (IsTable reunion.server) (fun_ext same_session) (Reach-Inv reunion-Reach).table

abbrev session_of_alice : Session ℕ
session_of_alice = record {
  user_uid = alice;
  display_name = default_display_name alice;
  active_voice_room_id = some 7;
}

alice_there : sessions meeting 0 ≡ some session_of_alice
unfolding server
alice_there = refl

representation_free_example :
    let move : ClientMessage ℕ ℕ = ClientMessage.join_voice_room 8 in
    let out = handle_authenticated_message {Json = ℕ} meeting.server session_of_alice move 5_000 in
    let out' = handle_authenticated_message {Json = ℕ} reunion.server session_of_alice move 5_000 in
    let after =
      update (sessions meeting) 0 (some (spec_session {Json = ℕ} move session_of_alice)) in
    (out.1 ≡ out'.1)
    × AreSameMessages out.2 out'.2
    × IsTable out.0 after
    × IsTable out'.0 after
    × AreSameMessages {Json = ℕ}
        (disconnect_session meeting.server session_of_alice).1
        (disconnect_session reunion.server session_of_alice).1
representation_free_example =
    representation_free (Reach-Inv meeting-Reach).table reunion-IsTable 0 session_of_alice
      alice_there (ClientMessage.join_voice_room 8) 5_000

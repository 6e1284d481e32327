-- ===== src/Frontend/Early.antt =====
-- A message of a room that App.tsx handles before the effect of its last re-render has run.
use vtnet.Base.{◌≡◌, refl, false, some, [], ◌∷◌, text_eq, if◌then◌else◌, arith}
use vtnet.Text.{Text}
use vtnet.Shared.Wire.{ServerWire}
use vtnet.Shared.Json.{Value, string, server_to_value}
use vtnet.Frontend.{State, create_offer, peer_connection}
use vtnet.Collections.Set
use vtnet.Frontend.Typed.{is_room, on_server_message, handle-server_to_value}
use vtnet.Frontend.Machine.{Input, message_received, rendered, step, run}

-- A frame with a message of the server.
abbrev pub arrives : ServerWire Text Value → Input
arrives w = message_received (some (server_to_value w))

step-arrives : (s : State) (w : ServerWire Text Value) → step s (arrives w) ≡ on_server_message s w
unfolding step
step-arrives s w = rw (handle-server_to_value s w) refl

-- A newcomer to the room, for a page whose ref is the room, or is not.
newcomer :
    (s : State) (room peer name : Text)
    → is_room peer s.captured_identity ≡ false
    → step s (arrives (ServerWire.peer_joined_room room peer name)) ≡ (
        if is_room room s.active_room_ref
        then (peer_connection s peer, create_offer peer (string room) ∷ [])
        else (s, []))
newcomer s room peer name other =
    rw (step-arrives s (ServerWire.peer_joined_room room peer name)) (ground arith)

-- What a confirmed join makes of a page, before it has re-rendered.
abbrev pub joined : State → Text → State
joined page room = record page {
  peer_connections = [];
  remote_audio = [];
  active_room_id = some room;
  messages = [];
}

-- When a peer's arrival follows the confirmation of a join, a page that has re-rendered in between
-- has a connection with that peer and no other, and asks for an offer to it; one whose effect on the
-- active room has not run yet, and whose ref is not the new room already, asks for nothing and stays
-- as the confirmation has left it, without a connection. The peer is not the user itself.
pub early_peer :
    (page : State) (room peer name : Text)
    → is_room room page.active_room_ref ≡ false
    → is_room peer page.captured_identity ≡ false
    → (run page (
          arrives (ServerWire.voice_room_joined room)
          ∷ rendered
          ∷ arrives (ServerWire.peer_joined_room room peer name)
          ∷ [])
        ≡ (
          record (joined page room) { active_room_ref = some room; peer_connections = peer ∷ [] },
          create_offer peer (string room) ∷ [],
        ))
      × (run page (
            arrives (ServerWire.voice_room_joined room)
            ∷ arrives (ServerWire.peer_joined_room room peer name)
            ∷ [])
          ≡ (joined page room, []))
unfolding run peer_connection Set.contains
early_peer page room peer name stale other =
    let shown : State = record (joined page room) { active_room_ref = some room } in
    (
      rw
          (
            step-arrives page (ServerWire.voice_room_joined room),
            newcomer shown room peer name other,
          )
          (ground arith),
      rw
          (
            step-arrives page (ServerWire.voice_room_joined room),
            newcomer (joined page room) room peer name other,
            stale,
          )
          refl,
    )

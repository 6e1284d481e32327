-- ===== src/Frontend/Silence.antt =====
-- `handleServerMessage` of App.tsx puts nothing on the socket itself, before its first `await`.
use vtnet.Base.{
  ◌≡◌, refl, text_eq, Bool, true, false, Option, none, some, List, [], ◌∷◌, Result, ok, err, ◌>>=◌,
  if◌then◌else◌, arith,
}
use vtnet.Text.{Text, codes}
use vtnet.Shared.Json.{Value}
use vtnet.Frontend.Script.{property, is_text, Thrown}
use vtnet.Frontend.{State, Effect, Outcome, send, close_socket}
use vtnet.Frontend.Messages.{
  payload_field, on_auth_success, payload_field, handle_server_message, dispatch,
  read_auth_challenge, read_auth_failure, read_voice_room_joined, read_peer_joined_room,
  read_peer_left_room, read_forward_sdp, read_forward_ice, read_text, on_auth_challenge,
  on_auth_failure, on_voice_room_joined, on_voice_room_left, on_peer_joined_room, on_peer_left_room,
  on_sdp, on_ice, on_text,
}
use vtnet.Frontend.Machine.{unless_thrown}

-- What the effects put on the socket.
abbrev pub sends : List Effect → List Value
sends [] = []
sends (send v ∷ rest) = v ∷ sends rest
sends (_ ∷ rest) = sends rest

-- What a handler that may throw puts on the socket.
unfoldable pub result_sends : Result Outcome Thrown → List Value
result_sends (ok out) = sends out.1
result_sends (err _) = []

>>=-silent :
    {A : Type 0} (r : Result A Thrown) (f : A → Result Outcome Thrown)
    → ((a : A) → result_sends (f a) ≡ [])
    → result_sends (r >>= f) ≡ []
unfolding result_sends
>>=-silent (ok a) f h = h a
>>=-silent (err x) f h = refl

pub close_socket-sends : (s : State) → sends (close_socket s).1 ≡ []
unfolding close_socket
close_socket-sends s = ground arith

on_auth_challenge-sends :
    (s : State) (n : Option Text) (t : Option Value) → sends (on_auth_challenge s n t).1 ≡ []
unfolding on_auth_challenge
on_auth_challenge-sends s n t = ground arith

on_peer_joined_room-sends :
    (s : State) (p : Option Text) (r : Option Value) → sends (on_peer_joined_room s p r).1 ≡ []
unfolding on_peer_joined_room
on_peer_joined_room-sends s p r = ground arith

on_sdp-sends :
    (s : State) (p k q : Option Text) (r : Option Value) → sends (on_sdp s p k q r).1 ≡ []
unfolding on_sdp
on_sdp-sends s p k q r = ground arith

read_auth_challenge-silent : (s : State) (m : Value) → result_sends (read_auth_challenge s m) ≡ []
unfolding read_auth_challenge result_sends on_auth_challenge
read_auth_challenge-silent s m = ground arith

read_auth_failure-silent : (s : State) (m : Value) → result_sends (read_auth_failure s m) ≡ []
unfolding read_auth_failure result_sends on_auth_failure
read_auth_failure-silent s m =
    >>=-silent (payload_field (codes "reason") m) (λ r. ok (on_auth_failure s r))
      λ r. close_socket-sends _

read_voice_room_joined-silent :
    (s : State) (m : Value) → result_sends (read_voice_room_joined s m) ≡ []
unfolding read_voice_room_joined result_sends on_voice_room_joined
read_voice_room_joined-silent s m = ground arith

read_peer_joined_room-silent :
    (s : State) (m : Value) → result_sends (read_peer_joined_room s m) ≡ []
unfolding read_peer_joined_room result_sends on_peer_joined_room
read_peer_joined_room-silent s m = ground arith

read_peer_left_room-silent : (s : State) (m : Value) → result_sends (read_peer_left_room s m) ≡ []
unfolding read_peer_left_room result_sends on_peer_left_room
read_peer_left_room-silent s m = ground arith

read_forward_sdp-silent : (s : State) (m : Value) → result_sends (read_forward_sdp s m) ≡ []
unfolding read_forward_sdp result_sends on_sdp
read_forward_sdp-silent s m = ground arith

read_forward_ice-silent : (s : State) (m : Value) → result_sends (read_forward_ice s m) ≡ []
unfolding read_forward_ice result_sends on_ice
read_forward_ice-silent s m = ground arith

read_text-silent : (s : State) (m : Value) → result_sends (read_text s m) ≡ []
unfolding read_text result_sends on_text
read_text-silent s m = ground arith

if-silent :
    (c : Bool) (r q : Result Outcome Thrown)
    → result_sends r ≡ []
    → result_sends q ≡ []
    → result_sends (if c then r else q) ≡ []
if-silent true r q h k = h
if-silent false r q h k = k

ok-silent : (out : Outcome) → sends out.1 ≡ [] → result_sends (ok out) ≡ []
unfolding result_sends
ok-silent out h = h

dispatch-silent :
    (s : State) (message : Value) (event : Option Value)
    → result_sends (dispatch s message event) ≡ []
unfolding dispatch on_voice_room_left
dispatch-silent s message event =
    if-silent (is_text event (codes "auth_challenge")) _ _ (read_auth_challenge-silent s message) (
      if-silent (is_text event (codes "auth_success")) _ _ (ok-silent (on_auth_success s) refl) (
        if-silent (is_text event (codes "auth_failure")) _ _ (read_auth_failure-silent s message) (
          if-silent (is_text event (codes "voice_room_joined")) _ _
            (read_voice_room_joined-silent s message)
            (if-silent (is_text event (codes "voice_room_left")) _ _
              (ok-silent (on_voice_room_left s) refl)
              (if-silent (is_text event (codes "peer_joined_room")) _ _
                (read_peer_joined_room-silent s message)
                (if-silent (is_text event (codes "peer_left_room")) _ _
                  (read_peer_left_room-silent s message)
                  (if-silent (is_text event (codes "forward_web_rtc_sdp")) _ _
                    (read_forward_sdp-silent s message)
                    (if-silent (is_text event (codes "forward_web_rtc_ice")) _ _
                      (read_forward_ice-silent s message)
                      (if-silent (is_text event (codes "broadcast_text_message")) _ _
                        (read_text-silent s message) (ok-silent (s, []) refl))))))))))

pub message-silent :
    (s : State) (message : Option Value) → result_sends (handle_server_message s message) ≡ []
unfolding handle_server_message result_sends
message-silent s none = refl
message-silent s (some message) =
    >>=-silent (property (codes "event") message) (dispatch s message) (dispatch-silent s message)

pub unless_thrown-silent :
    (s : State) (r : Result Outcome Thrown) → result_sends r ≡ [] → sends (unless_thrown s r).1 ≡ []
unfolding result_sends
unless_thrown-silent s (ok out) h = h
unless_thrown-silent s (err x) h = refl

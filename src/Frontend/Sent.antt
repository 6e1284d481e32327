-- ===== src/Frontend/Sent.antt =====
-- All that App.tsx puts on the socket, the session descriptions without a room included. The inputs
-- are free: a browser may never set an offer on a connection that the page has closed as it left.
use vtnet.Base.{
  ◌≡◌, ◌≢◌, ◌⊎◌, refl, ap, ◌==◌, text_eq, true, Bool-cases, Option-cases, none, List, [], ◌∷◌, All,
  inl, inr, arith,
}
use vtnet.Text.{Text, codes}
use vtnet.Shared.Wire.{ClientWire}
use vtnet.Shared.Json.{
  Value, field, text_field, end, string, null, boolean, number, other_number, array, object, Fields,
  envelope, client_to_value,
}
use vtnet.Frontend.Script.{nullable}
use vtnet.Frontend.{State, send_message}
use vtnet.Frontend.Page.{offered, described}
use vtnet.Frontend.Machine.{Input, offer_made, description_set, step}
use vtnet.Frontend.Silence.{sends}
use vtnet.Frontend.Envelopes.{IsClientJson, IsInRoom, in_room-IsClientJson, send_message-sends}

-- The JSON of a session description, for any value as its room.
abbrev pub description : Value → Text → Text → Text → Value
description room peer kind sdp = envelope (codes "send_web_rtc_sdp") (
    field (codes "room_id") room (
      text_field (codes "target_uid") peer
        (text_field (codes "sdp_type") kind (text_field (codes "sdp_raw") sdp end))))

-- A description that is no message of the protocol: an offer for a room that is no string, or the
-- answer to an offer that has been set when the page is in no room any more.
abbrev pub IsRoomless : State → Input → Value → Type 0
IsRoomless s (offer_made peer room sdp) v =
    ((r : Text) → room ≢ string r)
    × (v ≡ description room peer (codes "offer") sdp)
    × (¬ IsClientJson v)
IsRoomless s (description_set peer sdp_type sdp) v =
    (s.active_room_ref ≡ none)
    × (sdp_type ≡ codes "offer")
    × (v ≡ description null peer (codes "answer") sdp)
    × (¬ IsClientJson v)
IsRoomless s _ v = ⊥

Value-string : (v : Value) → ((r : Text) × (v ≡ string r)) ⊎ ((r : Text) → v ≢ string r)
Value-string (string t) = inl (t, refl)
Value-string null = inr (λ r e. cc)
Value-string (boolean x) = inr (λ r e. cc)
Value-string (number n) = inr (λ r e. cc)
Value-string (other_number t) = inr (λ r e. cc)
Value-string (array items) = inr (λ r e. cc)
Value-string (object fields) = inr (λ r e. cc)

description-ne :
    (room : Value) (peer kind sdp : Text)
    → ((r : Text) → room ≢ string r)
    → ¬ IsClientJson (description room peer kind sdp)
unfolding client_to_value
description-ne room peer kind sdp h (ClientWire.send_web_rtc_sdp r target k raw, q) = h r cc
description-ne room peer kind sdp h (ClientWire.send_web_rtc_ice r target k, q) = h r cc
description-ne room peer kind sdp h (ClientWire.send_text_message r target, q) = h r cc
description-ne room peer kind sdp h (ClientWire.join_voice_room r, q) = h r cc
description-ne room peer kind sdp h (ClientWire.leave_voice_room r, q) = h r cc
description-ne room peer kind sdp h (ClientWire.auth_identify v uid, q) = cc
description-ne room peer kind sdp h (ClientWire.auth_response t, q) = cc

-- A value that is put on the socket, and of which something is known.
sending-All :
    (P : Value → Type 0) (s : State) (event : Text) (payload : Fields)
    → P (envelope event payload)
    → All P (sends (send_message s event payload).0)
sending-All P s event payload h = elim (Bool-cases (send_message s event payload).1) [
  | inl sent ↦ rw (send_message-sends s event payload, sent) (h, tt)
  | inr unsent ↦ rw (send_message-sends s event payload, unsent) tt
]

All-inl : (P Q : Value → Type 0) (vs : List Value) → All P vs → All (λ v. P v ⊎ Q v) vs
All-inl P Q [] h = tt
All-inl P Q (v ∷ vs) h = (inl h.0, All-inl P Q vs h.1)

-- What is sent for an input, message or not.
abbrev AreSent : State → Input → List Value → Type 0
AreSent s input vs = All (λ v. IsClientJson v ⊎ IsRoomless s input v) vs

in_room-AreSent :
    (s : State) (input : Input) → IsInRoom s input → AreSent s input (sends (step s input).1)
in_room-AreSent s input h =
    All-inl IsClientJson (IsRoomless s input) (sends (step s input).1)
      (in_room-IsClientJson s input h)

same_text : (x y : Text) → (x == y) ≡ true → x ≡ y
same_text x y h = ground arith

-- The answer to an offer, from a page that is in no room.
described-AreSent :
    (s : State) (peer sdp_type sdp : Text)
    → s.active_room_ref ≡ none
    → AreSent s (description_set peer sdp_type sdp) (sends (described s peer sdp_type sdp).1)
unfolding described
described-AreSent s peer sdp_type sdp unknown = elim (Bool-cases (sdp_type == codes "offer")) [
  | inl is_offer ↦
      let answer = ap (λ o. description (nullable o) peer (codes "answer") sdp) unknown in
      rw is_offer (
        sending-All (λ v. IsClientJson v ⊎ IsRoomless s (description_set peer sdp_type sdp) v) s _ _
          (inr (
            unknown,
            same_text sdp_type (codes "offer") is_offer,
            answer,
            rw answer (description-ne null peer (codes "answer") sdp (λ r e. cc)),
          )))
  | inr no_offer ↦ rw no_offer tt
]

-- Whatever happens on the page, each value that it puts on its socket is the JSON of a message of the
-- protocol, with the payload's fields in their order, or one of two session descriptions that are
-- none: the offer, if it was made for a room that is no string, and, if the page is in no room when
-- an offer has been set, the answer, whose room is null.
pub step-AreSent :
    (s : State) (input : Input)
    → All (λ v. IsClientJson v ⊎ IsRoomless s input v) (sends (step s input).1)
unfolding step offered
step-AreSent s (offer_made peer room sdp) = elim (Value-string room) [
  | inl known ↦ in_room-AreSent s (offer_made peer room sdp) known
  | inr unknown ↦
      sending-All (λ v. IsClientJson v ⊎ IsRoomless s (offer_made peer room sdp) v) s _ _
        (inr (unknown, refl, description-ne room peer (codes "offer") sdp unknown))
]
step-AreSent s (description_set peer sdp_type sdp) = elim (Option-cases s.active_room_ref) [
  | inr known ↦ in_room-AreSent s (description_set peer sdp_type sdp) known
  | inl unknown ↦ described-AreSent s peer sdp_type sdp unknown
]
step-AreSent s input = in_room-AreSent s input tt

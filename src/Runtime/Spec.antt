-- ===== src/Runtime/Spec.antt =====
-- What the server of server/src/main.rs promises, said with nothing but the sessions of its
-- connections: no registry of rooms, no table of senders, no order of members. The messages of a
-- step are given for each channel.
pub mod Steps
use vtnet.Base.{
  ℕ, Eq, nat_eq, ◌==◌, Bool, true, false, not, ◌&&◌, Option, none, some, List, [], ◌∷◌, ◌++◌,
  if◌then◌else◌,
}
use vtnet.Shared.Uid.{uid_eq}
use vtnet.Shared.Messages.{
  ClientMessage, ServerMessage, voice_room_joined, voice_room_left, peer_joined_room,
  peer_left_room, broadcast_text_message, forward_web_rtc_sdp, forward_web_rtc_ice,
}
use vtnet.Room.Session.{Session, is_active_in}
use vtnet.Runtime.Table.{Sessions}

module _ {Uuid : Type 0} ⦃e : Eq Uuid⦄ where
  abbrev pub in_room : Session Uuid → Uuid → Bool
  in_room s r = is_active_in s.active_voice_room_id r

  abbrev pub move_to : Session Uuid → Option Uuid → Session Uuid
  move_to s o = record s { active_voice_room_id = o }

  module _ {Json : Type 0} where
    -- The session after its message: it enters a room, or leaves the one that it is in.
    abbrev pub spec_session : ClientMessage Uuid Json → Session Uuid → Session Uuid
    spec_session (ClientMessage.join_voice_room r) s = move_to s (some r)
    spec_session (ClientMessage.leave_voice_room r) s = if in_room s r then move_to s none else s
    spec_session _ s = s

    -- What others are told of a user who leaves a room.
    abbrev pub spec_left :
        Option Uuid → Session Uuid → Session Uuid → List (ServerMessage Uuid Json)
    spec_left none s t = []
    spec_left (some q) s t = if in_room t q then peer_left_room q s.user_uid ∷ [] else []

    -- What the channel of session `t` gets for a message of session `s`, in a room `r` that `s` is
    -- in, by the flag whether it is the sender's own channel.
    abbrev pub spec_heard :
        ClientMessage Uuid Json
        → ℕ
        → Session Uuid
        → Session Uuid
        → Bool
        → List (ServerMessage Uuid Json)
    spec_heard (ClientMessage.send_text_message r content) time s t own =
        if in_room s r && (in_room t r && not own)
        then broadcast_text_message r s.user_uid s.display_name content time ∷ []
        else []
    spec_heard (ClientMessage.send_web_rtc_sdp r target kind raw) time s t own =
        if in_room s r && (in_room t r && t.user_uid == target)
        then forward_web_rtc_sdp r s.user_uid kind raw ∷ []
        else []
    spec_heard (ClientMessage.send_web_rtc_ice r target candidate) time s t own =
        if in_room s r && (in_room t r && t.user_uid == target)
        then forward_web_rtc_ice r s.user_uid candidate ∷ []
        else []
    spec_heard (ClientMessage.join_voice_room r) time s t true =
        if in_room s r then [] else voice_room_joined r ∷ []
    spec_heard (ClientMessage.join_voice_room r) time s t false =
        if in_room s r
        then []
        else spec_left s.active_voice_room_id s t
          ++ (if in_room t r then peer_joined_room r s.user_uid s.display_name ∷ [] else [])
    spec_heard (ClientMessage.leave_voice_room r) time s t true =
        if in_room s r then voice_room_left r ∷ [] else []
    spec_heard (ClientMessage.leave_voice_room r) time s t false =
        if in_room s r && in_room t r then peer_left_room r s.user_uid ∷ [] else []
    spec_heard _ time s t own = []

    -- What channel `j` gets for a message of the session of connection `i`.
    abbrev pub spec_sent :
        Sessions Uuid
        → ℕ
        → Session Uuid
        → ClientMessage Uuid Json
        → ℕ
        → ℕ
        → List (ServerMessage Uuid Json)
    spec_sent sess i s m time j = elim (sess j) [
      | none ↦ []
      | some t ↦ spec_heard m time s t (j == i)
    ]

    -- What channel `j` gets when connection `i` is over.
    abbrev pub spec_farewell : Sessions Uuid → ℕ → Session Uuid → ℕ → List (ServerMessage Uuid Json)
    spec_farewell sess i s j = elim (sess j) [
      | none ↦ []
      | some t ↦ if j == i then [] else spec_left s.active_voice_room_id s t
    ]

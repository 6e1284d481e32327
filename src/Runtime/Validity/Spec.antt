-- ===== src/Runtime/Validity/Spec.antt =====
-- The messages that Runtime/Spec promises are well formed.
use vtnet.Base.{
  Option-cases, Bool-cases, inl, inr, ℕ, Eq, nat_eq, ◌==◌, Bool, true, false, Option, none, some,
  List, [], ◌∷◌, All, All-append, arith, if◌then◌else◌,
}
use vtnet.Shared.Uid.{uid_eq}
use vtnet.Shared.Messages.{ClientMessage, ServerMessage}
use vtnet.Shared.Wire.RoundTrip.{IsMessage}
use vtnet.Room.Session.{Session}
use vtnet.Runtime.Connection.{server_name, unix_timestamp_millis}
use vtnet.Runtime.Clock.{unix_timestamp_millis_lem}
use vtnet.Runtime.Table.{Sessions}
use vtnet.Runtime.Spec.{in_room, spec_session, spec_left, spec_heard, spec_sent, spec_farewell}
use vtnet.Runtime.Validity.{IsTime, IsServerMessage, IsMember}

pub timestamp-IsTime : (o : Option ℕ) → IsTime (unix_timestamp_millis o)
timestamp-IsTime none = ground (arith, (unix_timestamp_millis_lem 0).0)
timestamp-IsTime (some duration) = (unix_timestamp_millis_lem duration).1

module _ {Uuid Json : Type 0} where
  abbrev pub AreServerMessages : List (ServerMessage Uuid Json) → Type 0
  AreServerMessages = All (IsServerMessage server_name)

  pub guarded :
      (test : Bool) (m : ServerMessage Uuid Json)
      → IsServerMessage server_name m
      → AreServerMessages (if test then m ∷ [] else [])
  guarded true m h = (h, tt)
  guarded false m h = tt

  unless :
      (test : Bool) (messages : List (ServerMessage Uuid Json))
      → AreServerMessages messages
      → AreServerMessages (if test then [] else messages)
  unless true messages h = tt
  unless false messages h = h

module _ {Uuid : Type 0} ⦃e : Eq Uuid⦄ (Json : Type 0) (s : Session Uuid) (h : IsMember s) where
  left-AreServerMessages :
      (o : Option Uuid) (t : Session Uuid) → AreServerMessages {Json = Json} (spec_left o s t)
  left-AreServerMessages none t = tt
  left-AreServerMessages (some q) t = guarded (in_room t q) _ h.0

  heard-AreServerMessages :
      (m : ClientMessage Uuid Json) (time : ℕ) (t : Session Uuid) (own : Bool)
      → IsMessage m
      → IsTime time
      → AreServerMessages (spec_heard m time s t own)
  heard-AreServerMessages (ClientMessage.send_text_message r content) time t own good fits =
      guarded _ _ (h, good, fits)
  heard-AreServerMessages (ClientMessage.send_web_rtc_sdp r target kind raw) time t own good fits =
      guarded _ _ h.0
  heard-AreServerMessages (ClientMessage.send_web_rtc_ice r target candidate) time t own good fits =
      guarded _ _ h.0
  heard-AreServerMessages (ClientMessage.join_voice_room r) time t true good fits =
      unless (in_room s r) _ (tt, tt)
  heard-AreServerMessages (ClientMessage.join_voice_room r) time t false good fits =
      unless (in_room s r) _ (
        All-append (IsServerMessage server_name) (spec_left s.active_voice_room_id s t) _
          (left-AreServerMessages s.active_voice_room_id t) (guarded (in_room t r) _ h))
  heard-AreServerMessages (ClientMessage.leave_voice_room r) time t true good fits = guarded _ _ tt
  heard-AreServerMessages (ClientMessage.leave_voice_room r) time t false good fits =
      guarded _ _ h.0
  heard-AreServerMessages m time t own good fits = tt

  pub sent-AreServerMessages :
      (sess : Sessions Uuid) (i : ℕ) (m : ClientMessage Uuid Json) (time j : ℕ)
      → IsMessage m
      → IsTime time
      → AreServerMessages (spec_sent sess i s m time j)
  sent-AreServerMessages sess i m time j good fits = elim (Option-cases (sess j)) [
    | inl free ↦ rw (free, spec_sent) tt
    | inr (t, has) ↦ rw (has, spec_sent) (heard-AreServerMessages m time t (j == i) good fits)
  ]

  pub farewell-AreServerMessages :
      (sess : Sessions Uuid) (i j : ℕ) → AreServerMessages {Json = Json} (spec_farewell sess i s j)
  farewell-AreServerMessages sess i j = elim (Option-cases (sess j)) [
    | inl free ↦ rw (free, spec_farewell) tt
    | inr (t, has) ↦
        rw (has, spec_farewell)
          (unless (j == i) _ (left-AreServerMessages s.active_voice_room_id t))
  ]

  pub moved-IsMember : (m : ClientMessage Uuid Json) → IsMember (spec_session m s)
  moved-IsMember (ClientMessage.leave_voice_room r) = elim (Bool-cases (in_room s r)) [
    | inl inside ↦ rw inside h
    | inr outside ↦ rw outside h
  ]
  moved-IsMember (ClientMessage.join_voice_room r) = h
  moved-IsMember m = h

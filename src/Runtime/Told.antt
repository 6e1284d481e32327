-- ===== src/Runtime/Told.antt =====
-- What a connection's own messages say of its room: the room of its session in server/src/main.rs is
-- the one that it was told last.
pub mod Rooms
use vtnet.Base.{
  ℕ, Eq, nat_eq, eq?, ◌≡◌, ◌≢◌, refl, sym, ◌∙◌, subst, true, false, Option, none, some, List, [],
  ◌∷◌, ◌++◌, arith, if_pos, if_neg, inl, inr, if◌then◌else◌, Bool-cases,
}
use vtnet.External.{Base64, Ed25519}
use vtnet.Shared.Messages.{
  ClientMessage, ServerMessage, voice_room_joined, voice_room_left, peer_joined_room, auth_identify,
  auth_response,
}
use vtnet.Room.Session.{Session}
use vtnet.Auth.{
  ConnectionAuthenticator, AuthenticationState, connected, challenge_issued, handle_message,
  dispatch, accept,
}
use vtnet.Runtime.Connection.{Connection, gone, message_of}
use vtnet.Runtime.System.{update}
use vtnet.Room.Registry.Presence.{active_in}
use vtnet.Runtime.Spec.{spec_session, spec_left, spec_heard, in_room}
use vtnet.Runtime.Spec.Steps.{Posts}

-- The room after the messages, from the room before.
abbrev pub told : {Uuid Json : Type 0} → Option Uuid → List (ServerMessage Uuid Json) → Option Uuid
told o [] = o
told o (voice_room_joined r ∷ rest) = told (some r) rest
told o (voice_room_left r ∷ rest) = told none rest
told o (_ ∷ rest) = told o rest

pub told-append :
    {Uuid Json : Type 0} (o : Option Uuid) (xs ys : List (ServerMessage Uuid Json))
    → told o (xs ++ ys) ≡ told (told o xs) ys
told-append o [] ys = refl
told-append o (ServerMessage.auth_challenge _ _ ∷ xs) ys = told-append o xs ys
told-append o (ServerMessage.auth_success _ _ _ ∷ xs) ys = told-append o xs ys
told-append o (ServerMessage.auth_failure _ ∷ xs) ys = told-append o xs ys
told-append o (ServerMessage.voice_room_joined r ∷ xs) ys = told-append (some r) xs ys
told-append o (ServerMessage.voice_room_left _ ∷ xs) ys = told-append none xs ys
told-append o (ServerMessage.peer_joined_room _ _ _ ∷ xs) ys = told-append o xs ys
told-append o (ServerMessage.peer_left_room _ _ ∷ xs) ys = told-append o xs ys
told-append o (ServerMessage.broadcast_text_message _ _ _ _ _ ∷ xs) ys = told-append o xs ys
told-append o (ServerMessage.forward_web_rtc_sdp _ _ _ _ ∷ xs) ys = told-append o xs ys
told-append o (ServerMessage.forward_web_rtc_ice _ _ _ ∷ xs) ys = told-append o xs ys

-- The messages say nothing of the reader's own room.
abbrev pub Keeps : {Uuid Json : Type 0} → List (ServerMessage Uuid Json) → Type 0
Keeps {Uuid} messages = (o : Option Uuid) → told o messages ≡ o

module _ (b : Base64) (c : Ed25519) {Uuid Json : Type 0} where
  dispatch-Keeps :
      (a : ConnectionAuthenticator Uuid) (st : AuthenticationState Uuid)
      (m : ClientMessage Uuid Json) (nonce : List ℕ) (time now : ℕ)
      → Keeps (message_of (dispatch b c a st m nonce time now).1 ∷ [])
  unfolding dispatch accept
  dispatch-Keeps a connected (auth_identify v uid) nonce time now o = ground arith
  dispatch-Keeps a (challenge_issued ch) (auth_response t) nonce time now o = ground arith
  dispatch-Keeps a _ _ nonce time now o = refl

  pub answer-Keeps :
      (a : ConnectionAuthenticator Uuid) (m : ClientMessage Uuid Json) (nonce : List ℕ)
      (time now : ℕ)
      → Keeps (message_of (handle_message b c a m nonce time now).1 ∷ [])
  unfolding handle_message
  answer-Keeps a m nonce time now = dispatch-Keeps a a.state m nonce time now

module _ {Uuid : Type 0} ⦃e : Eq Uuid⦄ where
  pub left-Keeps :
      (Json : Type 0) (o : Option Uuid) (s t : Session Uuid) → Keeps {Json = Json} (spec_left o s t)
  left-Keeps Json none s t p = refl
  left-Keeps Json (some q) s t p = ground arith

  module _ {Json : Type 0} where
    append-Keeps : (xs ys : List (ServerMessage Uuid Json)) → Keeps xs → Keeps ys → Keeps (xs ++ ys)
    append-Keeps xs ys h k o = told-append o xs ys ∙ k (told o xs) ∙ h o

    pub heard-Keeps :
        (m : ClientMessage Uuid Json) (time : ℕ) (s t : Session Uuid)
        → Keeps (spec_heard m time s t false)
    heard-Keeps (ClientMessage.send_text_message _ _) time s t o = ground arith
    heard-Keeps (ClientMessage.send_web_rtc_sdp _ _ _ _) time s t o = ground arith
    heard-Keeps (ClientMessage.send_web_rtc_ice _ _ _) time s t o = ground arith
    heard-Keeps (ClientMessage.join_voice_room r) time s t o = elim (Bool-cases (in_room s r)) [
      | inl inside ↦ rw inside refl
      | inr outside ↦ rw outside (
          append-Keeps (spec_left s.active_voice_room_id s t)
            (if in_room t r then peer_joined_room r s.user_uid s.display_name ∷ [] else [])
            (left-Keeps Json s.active_voice_room_id s t) (λ p. ground arith) o)
    ]
    heard-Keeps (ClientMessage.leave_voice_room r) time s t o = ground arith
    heard-Keeps (ClientMessage.auth_identify _ _) time s t o = refl
    heard-Keeps (ClientMessage.auth_response _) time s t o = refl

    -- A session's message moves the session to the room that its own connection is told.
    pub told-heard :
        (m : ClientMessage Uuid Json) (time : ℕ) (s : Session Uuid)
        → told s.active_voice_room_id (spec_heard m time s s true)
          ≡ (spec_session m s).active_voice_room_id
    told-heard (ClientMessage.send_text_message _ _) time s = ground arith
    told-heard (ClientMessage.send_web_rtc_sdp _ _ _ _) time s = ground arith
    told-heard (ClientMessage.send_web_rtc_ice _ _ _) time s = ground arith
    told-heard (ClientMessage.join_voice_room r) time s =
        ground (arith, active_in s.active_voice_room_id r)
    told-heard (ClientMessage.leave_voice_room r) time s = ground arith
    told-heard (ClientMessage.auth_identify _ _) time s = refl
    told-heard (ClientMessage.auth_response _) time s = refl

module _ {Uuid Json : Type 0} where
  -- What a connection was told, and its session: they agree on the room, and before there is a
  -- session there is no room.
  pub record IsTold (posts : List (ServerMessage Uuid Json)) (conn : Connection Uuid) : Type 0 where
    pub room : (s : Session Uuid) → conn.session ≡ some s → told none posts ≡ s.active_voice_room_id
    pub outside : conn.session ≡ none → conn.phase ≢ gone → told none posts ≡ none

  keep :
      (old more : List (ServerMessage Uuid Json)) (conn conn' : Connection Uuid)
      → Keeps more
      → IsTold old conn
      → conn'.session ≡ conn.session
      → (conn.phase ≡ gone → conn'.phase ≡ gone)
      → IsTold (old ++ more) conn'
  keep old more conn conn' k h same over = record {
    room = λ s has. told-append none old more ∙ k (told none old) ∙ h.room s (sym same ∙ has);
    outside = λ free alive.
        told-append none old more
        ∙ k (told none old)
        ∙ h.outside (sym same ∙ free) (λ q. alive (over q));
  }

  -- A slot changes, and the others only hear what says nothing of their room.
  pub slot :
      (conns : ℕ → Connection Uuid) (old more : Posts Uuid Json) (i : ℕ) (conn : Connection Uuid)
      → ((j : ℕ) → IsTold (old j) (conns j))
      → ((j : ℕ) → j ≢ i → Keeps (more j))
      → IsTold (old i ++ more i) conn
      → (j : ℕ) → IsTold (old j ++ more j) (update conns i conn j)
  slot conns old more i conn h k at j = elim (eq? j i) [
    | yes same ↦
        rw (if_pos (eq? j i) same) (subst (λ l. IsTold (old l ++ more l) conn) (sym same) at)
    | no differs ↦
        rw (if_neg (eq? j i) differs)
          (keep (old j) (more j) (conns j) (conns j) (k j differs) (h j) refl (λ q. q))
  ]

  -- The same session in a slot, with messages that say nothing of a room.
  pub same_session :
      (conns : ℕ → Connection Uuid) (old more : Posts Uuid Json) (i : ℕ) (conn : Connection Uuid)
      → ((j : ℕ) → IsTold (old j) (conns j))
      → ((j : ℕ) → Keeps (more j))
      → conn.session ≡ (conns i).session
      → ((conns i).phase ≡ gone → conn.phase ≡ gone)
      → (j : ℕ) → IsTold (old j ++ more j) (update conns i conn j)
  same_session conns old more i conn h k same over =
      slot conns old more i conn h (λ j differs. k j)
        (keep (old i) (more i) (conns i) conn (k i) (h i) same over)

-- ===== src/Runtime/Residue.antt =====
-- What is left in the memory of server/src/main.rs when nobody is connected.
use vtnet.Base.{
  ℕ, Eq, nat_eq, ◌≡◌, refl, subst, true, Option, none, some, List, [], ◌∷◌, arith, Option-cases,
  inl, inr,
}
use vtnet.External.{Base64, Ed25519}
use vtnet.Collections.Set
use vtnet.Collections.Map
use vtnet.Shared.Uid.{UserUid, uid_eq}
use vtnet.Shared.Wire.{SerdeJson}
use vtnet.Room.Registry.{members, is_member, some_and_contains}
use vtnet.Room.Registry.Membership.{IsRoom}
use vtnet.Runtime.System.{System, Reach}
use vtnet.Runtime.Table.{HasUid}
use vtnet.Runtime.Safety.{Reach-Inv, members_are_present}

-- A room that is stored has somebody in it.
some_member :
    (o : Option (List UserUid))
    → IsRoom o
    → ((u : UserUid) → ¬ (some_and_contains o u ≡ true))
    → o ≡ none
unfolding Set.contains
some_member none h empty = refl
some_member (some []) h empty = absurd (h.0 refl)
some_member (some (u ∷ us)) h empty = absurd (empty u (ground arith))

module _ {Uuid Json : Type 0} ⦃e : Eq Uuid⦄ {b : Base64} {c : Ed25519}
    {serde : SerdeJson Uuid Json} where
  -- In every reachable state in which no connection has a session, no room is stored, and no sender.
  pub nothing_remains :
      {sys : System Uuid}
      → Reach b c serde sys
      → ((i : ℕ) → (sys.connection i).session ≡ none)
      → ((r : Uuid) → members sys.server.rooms r ≡ none)
        × ((u : UserUid) → Map.get u sys.server.connections ≡ none)
  unfolding is_member
  nothing_remains {sys} reach alone =
      let table = (Reach-Inv reach).table in
      (
        λ r. some_member (members sys.server.rooms r) (table.refines.registry r) (λ u inside.
            let (i, s, has, same, there) = (members_are_present reach r u).0 inside in
            cc (has, alone i)),
        λ u. elim (Option-cases (Map.get u sys.server.connections)) [
          | inl absent ↦ absent
          | inr (i, found) ↦ absurd (subst (HasUid u) (alone i) (table.backed u i found))
        ],
      )

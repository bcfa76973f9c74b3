-- ===== src/Coalesce/Member.antt =====
-- `MemberEventCoalescer` of core/src/coalesce/member.rs. The drain of `latest_events` and the
-- iteration of the grouped events go through hash maps in the order of the association lists.
use ruserf.Prelude.{
  Bool, true, false, not, ◌&&◌, Option, none, some, List, [], ◌∷◌, ◌++◌, ◌≡◌, ◌↔◌, Eq, ◌==◌, ℕ,
  nat_eq, lookup, insert, if◌then◌else◌, map, arith,
}
use ruserf.Types.{Node, Member, MemberEventType, CrateEvent, node_eq}
use ruserf.Coalesce.{OutTx, send_all}

-- `#[derive(PartialEq)]` of `MemberEventType`, by its discriminant.
abbrev discriminant : MemberEventType → ℕ
discriminant MemberEventType.join = 0
discriminant MemberEventType.leave = 1
discriminant MemberEventType.failed = 2
discriminant MemberEventType.update = 3
discriminant MemberEventType.reap = 4

abbrev event_type_beq : MemberEventType → MemberEventType → Bool
event_type_beq x y = discriminant x == discriminant y

pub event_type_beq_iff : (x y : MemberEventType) → (event_type_beq x y ≡ true) ↔ (x ≡ y)
event_type_beq_iff x y = ground arith

instance abbrev pub event_type_eq : Eq MemberEventType
event_type_eq = record { beq = event_type_beq; beq_iff = event_type_beq_iff }

-- The test of `flush`: the node's last event had that type, and it is no update.
abbrev pub is_repeat : Option MemberEventType → MemberEventType → Bool
is_repeat none ty = false
is_repeat (some previous) ty = previous == ty && not (ty == MemberEventType.update)

pub record CoalesceEvent (I A : Type 0) : Type 0 where
  pub ty : MemberEventType
  pub member : Member I A

pub record MemberEventCoalescer (I A : Type 0) : Type 0 where
  pub last_events : List (Node I A × MemberEventType)
  pub latest_events : List (Node I A × CoalesceEvent I A)

module _ {I A : Type 0} where
  unfoldable pub handle : CrateEvent I A → Bool
  handle (CrateEvent.member e) = true
  handle _ = false

module _ {I A : Type 0} ⦃i : Eq I⦄ ⦃a : Eq A⦄ where
  -- The loop of `coalesce` over the members of an event.
  unfoldable pub coalesce_members :
      MemberEventType
      → List (Member I A)
      → List (Node I A × CoalesceEvent I A)
      → List (Node I A × CoalesceEvent I A)
  coalesce_members ty [] latest = latest
  coalesce_members ty (m ∷ ms) latest =
      coalesce_members ty ms (insert m.node (record { ty = ty; member = m }) latest)

  -- `none` is the `unreachable!()`.
  unfoldable pub coalesce :
      CrateEvent I A → MemberEventCoalescer I A → Option (MemberEventCoalescer I A)
  unfolding coalesce_members
  coalesce (CrateEvent.member e) c =
      some (record c { latest_events = coalesce_members e.ty e.members c.latest_events })
  coalesce _ c = none

  -- A member is added to the group of its type.
  unfoldable pub group :
      MemberEventType
      → Member I A
      → List (MemberEventType × List (Member I A))
      → List (MemberEventType × List (Member I A))
  group ty m events = elim (lookup ty events) [
    | none ↦ insert ty (m ∷ []) events
    | some members ↦ insert ty (members ++ m ∷ []) events
  ]

  -- The loop of `flush` over the drained events, with the last events and the groups so far.
  unfoldable pub flush_loop :
      List (Node I A × CoalesceEvent I A)
      → List (Node I A × MemberEventType)
      → List (MemberEventType × List (Member I A))
      → List (Node I A × MemberEventType) × List (MemberEventType × List (Member I A))
  unfolding group
  flush_loop [] last events = (last, events)
  flush_loop ((id, cev) ∷ rest) last events =
      let skipped = flush_loop rest last events in
      let taken = flush_loop rest (insert id cev.ty last) (group cev.ty cev.member events) in
      if is_repeat (lookup id last) cev.ty then skipped else taken

  abbrev pub freeze : MemberEventType × List (Member I A) → CrateEvent I A
  freeze e = CrateEvent.member (record { ty = e.0; members = e.1 })

  unfoldable pub flush :
      MemberEventCoalescer I A
      → OutTx (CrateEvent I A)
      → MemberEventCoalescer I A × (OutTx (CrateEvent I A) × Bool)
  unfolding flush_loop send_all
  flush c out =
      let (last, events) = flush_loop c.latest_events c.last_events [] in
      (record { last_events = last; latest_events = [] }, send_all (map freeze events) out)

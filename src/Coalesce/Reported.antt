-- ===== src/Coalesce/Reported.antt =====
-- The coalescer of member events (core/src/coalesce/member.rs) from a history of events to a flush.
use ruserf.Prelude.{
  Option, none, some, List, [], ◌∷◌, ◌++◌, ◌≡◌, refl, ap, ◌∙◌, Eq, ◌==◌, lookup, insert,
  lookup-insert, keys, occurs-insert, IsDistinct, All, if◌then◌else◌, map, arith, inl, inr,
  Bool-cases,
}
use ruserf.Types.{Node, Member, MemberEvent, MemberEventType, CrateEvent, node_eq}
use ruserf.Coalesce.{OutTx}
use ruserf.Coalesce.Member.{
  CoalesceEvent, MemberEventCoalescer, coalesce_members, coalesce, flush_loop, flush, freeze,
}
use ruserf.Coalesce.Changes.{told, change, last_after, IsAbout, flush_loop-Reports}
use ruserf.Coalesce.Delivered.{taken, takes_all, send_all-sent}

module _ {I A : Type 0} ⦃i : Eq I⦄ ⦃a : Eq A⦄ where
  -- The last entry for a node among the members of an event of the type, if any, or else the one before.
  abbrev pub latest_member :
      Node I A
      → MemberEventType
      → List (Member I A)
      → Option (CoalesceEvent I A)
      → Option (CoalesceEvent I A)
  latest_member id ty [] before = before
  latest_member id ty (m ∷ ms) before =
      latest_member id ty ms
        (if m.node == id then some (record { ty = ty; member = m }) else before)

  -- The same for a history of events.
  abbrev pub latest_event :
      Node I A → List (MemberEvent I A) → Option (CoalesceEvent I A) → Option (CoalesceEvent I A)
  latest_event id [] before = before
  latest_event id (e ∷ es) before = latest_event id es (latest_member id e.ty e.members before)

  unfoldable pub coalesce_all :
      List (MemberEvent I A) → MemberEventCoalescer I A → Option (MemberEventCoalescer I A)
  unfolding coalesce
  coalesce_all [] c = some c
  coalesce_all (e ∷ es) c = elim (coalesce (CrateEvent.member e) c) [
    | none ↦ none
    | some next ↦ coalesce_all es next
  ]

  -- Each node has one entry, which is about it.
  record IsTable (latest : List (Node I A × CoalesceEvent I A)) : Type 0 where
    single : IsDistinct (keys latest)
    about : All IsAbout latest

  IsAbout-insert :
      (cev : CoalesceEvent I A) (latest : List (Node I A × CoalesceEvent I A))
      → All IsAbout latest
      → All IsAbout (insert cev.member.node cev latest)
  unfolding insert
  IsAbout-insert cev [] h = (refl, tt)
  IsAbout-insert cev ((own, old) ∷ rest) h = elim (Bool-cases (own == cev.member.node)) [
    | inl same ↦ rw same (refl, h.1)
    | inr other ↦ rw other (h.0, IsAbout-insert cev rest h.1)
  ]

  coalesce_members-IsTable :
      (ty : MemberEventType) (ms : List (Member I A)) (latest : List (Node I A × CoalesceEvent I A))
      → IsTable latest
      → IsTable (coalesce_members ty ms latest)
  unfolding coalesce_members
  coalesce_members-IsTable ty [] latest h = h
  coalesce_members-IsTable ty (m ∷ ms) latest h =
      let cev : CoalesceEvent I A = record { ty = ty; member = m } in
      coalesce_members-IsTable ty ms (insert m.node cev latest) (record {
        single =
            λ b. let most = h.single b in ground (arith, most, occurs-insert m.node b cev latest);
        about = IsAbout-insert cev latest h.about;
      })

  lookup-coalesce_members :
      (id : Node I A) (ty : MemberEventType) (ms : List (Member I A))
      (latest : List (Node I A × CoalesceEvent I A))
      → lookup id (coalesce_members ty ms latest) ≡ latest_member id ty ms (lookup id latest)
  unfolding coalesce_members
  lookup-coalesce_members id ty [] latest = refl
  lookup-coalesce_members id ty (m ∷ ms) latest =
      let cev : CoalesceEvent I A = record { ty = ty; member = m } in
      lookup-coalesce_members id ty ms (insert m.node cev latest)
      ∙ ap (latest_member id ty ms) (lookup-insert m.node id cev latest)

  coalesce_all-latest :
      (es : List (MemberEvent I A)) (c : MemberEventCoalescer I A)
      → IsTable c.latest_events
      → (r : MemberEventCoalescer I A) × (coalesce_all es c ≡ some r)
        × (r.last_events ≡ c.last_events)
        × IsTable r.latest_events
        × ((id : Node I A)
            → lookup id r.latest_events ≡ latest_event id es (lookup id c.latest_events))
  unfolding coalesce_all coalesce
  coalesce_all-latest [] c h = (c, refl, refl, h, λ id. refl)
  coalesce_all-latest (e ∷ es) c h =
      let next : MemberEventCoalescer I A = record c {
        latest_events = coalesce_members e.ty e.members c.latest_events;
      } in
      let (r, same, last, table, found) =
        coalesce_all-latest es next (coalesce_members-IsTable e.ty e.members c.latest_events h) in
      (
        r,
        same,
        last,
        table,
        λ id.
            found id
            ∙ ap (latest_event id es) (lookup-coalesce_members id e.ty e.members c.latest_events),
      )

  -- A flush after any member events sends one event for each group, as far as the channel stays open.
  -- The groups hold a node under a type exactly if the last of the events that named it had that type
  -- and it is an update or the node's type at the last flush was another, with the member as that
  -- event had it, once. The coalescer is left without events, and remembers the types.
  pub flush_changes :
      (es : List (MemberEvent I A)) (last : List (Node I A × MemberEventType))
      (out : OutTx (CrateEvent I A))
      → (c : MemberEventCoalescer I A) × (coalesce_all es
            (record { last_events = last; latest_events = [] })
          ≡ some c)
        × (groups : List (MemberEventType × List (Member I A))) × ((flush c out).0.latest_events
            ≡ [])
        × ((flush c out).1.0.sent ≡ out.sent ++ taken out.closes_after (map freeze groups))
        × ((flush c out).1.1 ≡ takes_all {E = CrateEvent I A} out.closes_after (map freeze groups))
        × ((id : Node I A) (ty : MemberEventType)
            → (told id ty groups ≡ change (latest_event id es none) (lookup id last) ty)
              × (lookup id (flush c out).0.last_events
                  ≡ last_after (latest_event id es none) (lookup id last)))
  unfolding flush lookup
  flush_changes es last out =
      let start : MemberEventCoalescer I A = record { last_events = last; latest_events = [] } in
      let empty : IsTable start.latest_events = record { single = λ b. omega arith; about = tt } in
      let (c, same, kept, table, found) = coalesce_all-latest es start empty in
      let groups = (flush_loop c.latest_events c.last_events []).1 in
      let sent = send_all-sent (map freeze groups) out in
      (
        c,
        same,
        groups,
        refl,
        sent.0,
        sent.1,
        λ id ty.
            let found_here : lookup id c.latest_events ≡ latest_event id es none =
              found id ∙ unfold lookup in refl in
            let last_here : lookup id c.last_events ≡ lookup id last = ap (lookup id) kept in
            let reported =
              flush_loop-Reports id ty c.latest_events c.last_events [] table.single table.about in
            (
              reported.0 ∙ rw (found_here, last_here) refl,
              reported.1 ∙ rw (found_here, last_here) refl,
            ),
      )

-- ===== src/Coalesce/Changes.antt =====
-- What a flush of the coalescer of member events (core/src/coalesce/member.rs) reports: the nodes
-- whose last event has another type than the one reported before, and the updates.
use ruserf.Prelude.{
  true, false, not, ◌&&◌, Option, none, some, List, [], ◌∷◌, ◌++◌, ◌≡◌, refl, sym, ◌∙◌, Eq, ◌==◌,
  lookup, insert, lookup-insert, keys, lookup_of_occurs, IsDistinct, All, retain, if◌then◌else◌,
  arith, inl, inr, Bool-cases, Option-cases, beq_refl,
}
use mathlib.Core.List.{append-nil}
use ruserf.Types.{Node, Member, MemberEventType, node_eq, node_beq_iff}
use ruserf.Coalesce.Member.{
  event_type_eq, event_type_beq_iff, is_repeat, CoalesceEvent, group, flush_loop,
}

repeat-same :
    (last : Option MemberEventType) (ty : MemberEventType)
    → is_repeat last ty ≡ true
    → last ≡ some ty
repeat-same none ty h = cc
repeat-same (some previous) ty h = ground (arith, event_type_beq_iff previous ty)

module _ {I A : Type 0} ⦃i : Eq I⦄ ⦃a : Eq A⦄ where
  abbrev members_of : Option (List (Member I A)) → List (Member I A)
  members_of none = []
  members_of (some ms) = ms

  -- The entries for a node in the group of a type.
  abbrev pub told :
      Node I A → MemberEventType → List (MemberEventType × List (Member I A)) → List (Member I A)
  told id ty events = retain (λ m. m.node == id) (members_of (lookup ty events))

  retain-push :
      (id : Node I A) (ms : List (Member I A)) (m : Member I A)
      → retain (λ x. x.node == id) (ms ++ m ∷ [])
        ≡ retain (λ x. x.node == id) ms ++ (if m.node == id then m ∷ [] else [])
  retain-push id [] m = ground arith
  retain-push id (x ∷ ms) m = ground (arith, retain-push id ms m)

  lookup-group :
      (ty own : MemberEventType) (m : Member I A)
      (events : List (MemberEventType × List (Member I A)))
      → lookup ty (group own m events)
        ≡ (if own == ty then some (members_of (lookup own events) ++ m ∷ []) else lookup ty events)
  unfolding group
  lookup-group ty own m events = elim (Option-cases (lookup own events)) [
    | inl absent ↦ rw (absent, group) (lookup-insert own ty (m ∷ []) events)
    | inr (ms, found) ↦ rw (found, group) (lookup-insert own ty (ms ++ m ∷ []) events)
  ]

  told-group :
      (id : Node I A) (ty own : MemberEventType) (m : Member I A)
      (events : List (MemberEventType × List (Member I A)))
      → told id ty (group own m events)
        ≡ told id ty events ++ (if own == ty && m.node == id then m ∷ [] else [])
  told-group id ty own m events = elim (Bool-cases (own == ty)) [
    | inl same ↦
        let at : own ≡ ty = (event_type_beq_iff own ty).0 same in
        rw (lookup-group ty own m events, same, at)
          (retain-push id (members_of (lookup ty events)) m)
    | inr other ↦ rw (lookup-group ty own m events, other) (sym (append-nil (told id ty events)))
  ]

  -- What the loop reports of an entry.
  abbrev pub change :
      Option (CoalesceEvent I A) → Option MemberEventType → MemberEventType → List (Member I A)
  change none last ty = []
  change (some cev) last ty =
      if cev.ty == ty && not (is_repeat last cev.ty) then cev.member ∷ [] else []

  abbrev pub last_after :
      Option (CoalesceEvent I A) → Option MemberEventType → Option MemberEventType
  last_after none last = last
  last_after (some cev) last = some cev.ty

  -- An entry of `latest_events` is about its node.
  abbrev pub IsAbout : Node I A × CoalesceEvent I A → Type 0
  IsAbout e = (e.1.member.node ≡ e.0)

  -- What the loop makes of the entries `latest`, from the groups and last events that it has.
  abbrev pub Reports :
      Node I A
      → MemberEventType
      → Option (CoalesceEvent I A)
      → List (Node I A × MemberEventType)
      → List (MemberEventType × List (Member I A))
      → List (Node I A × MemberEventType) × List (MemberEventType × List (Member I A))
      → Type 0
  Reports id ty found last events r =
      (told id ty r.1 ≡ told id ty events ++ change found (lookup id last) ty)
      × (lookup id r.0 ≡ last_after found (lookup id last))

  module _ (id own : Node I A) (ty : MemberEventType) (cev : CoalesceEvent I A)
      (last : List (Node I A × MemberEventType))
      (events : List (MemberEventType × List (Member I A)))
      (r : List (Node I A × MemberEventType) × List (MemberEventType × List (Member I A))) where
    repeated_own :
        own ≡ id
        → is_repeat (lookup own last) cev.ty ≡ true
        → Reports id ty none last events r
        → Reports id ty (some cev) last events r
    repeated_own at repeat (seen, kept) =
        let repeat' : is_repeat (lookup id last) cev.ty ≡ true = rw (← at) repeat in
        (rw repeat' (seen ∙ ground arith), kept ∙ repeat-same (lookup id last) cev.ty repeat')

    reported_own :
        own ≡ id
        → cev.member.node ≡ own
        → is_repeat (lookup own last) cev.ty ≡ false
        → Reports id ty none (insert own cev.ty last) (group cev.ty cev.member events) r
        → Reports id ty (some cev) last events r
    reported_own at about new (seen, kept) =
        let new' : is_repeat (lookup id last) cev.ty ≡ false = rw (← at) new in
        let own_beq : (cev.member.node == id) ≡ true = rw (about, at) (beq_refl id) in
        let own_last = lookup-insert own id cev.ty last in
        let there : (own == id) ≡ true = rw at (beq_refl id) in
        let added = told-group id ty cev.ty cev.member events in
        (
          seen
              ∙ append-nil (told id ty (group cev.ty cev.member events))
              ∙ added
              ∙ rw (own_beq, new') (ground arith),
          kept ∙ own_last ∙ rw there refl,
        )

    reported_other :
        (found : Option (CoalesceEvent I A))
        → (own == id) ≡ false
        → cev.member.node ≡ own
        → Reports id ty found (insert own cev.ty last) (group cev.ty cev.member events) r
        → Reports id ty found last events r
    reported_other found ne about (seen, kept) =
        let other_beq : (cev.member.node == id) ≡ false = rw about ne in
        let other_last : lookup id (insert own cev.ty last) ≡ lookup id last =
          lookup-insert own id cev.ty last ∙ rw ne refl in
        let added : told id ty (group cev.ty cev.member events) ≡ told id ty events =
          told-group id ty cev.ty cev.member events
          ∙ rw other_beq (ground (arith, append-nil (told id ty events))) in
        (rw (← added, ← other_last) seen, rw (← other_last) kept)

  lookup-cons :
      (id own : Node I A) (cev : CoalesceEvent I A) (rest : List (Node I A × CoalesceEvent I A))
      → lookup id ((own, cev) ∷ rest) ≡ (if own == id then some cev else lookup id rest)
  unfolding lookup
  lookup-cons id own cev rest = refl

  -- The loop reports each entry that is new, for its node, and remembers its type.
  pub flush_loop-Reports :
      (id : Node I A) (ty : MemberEventType) (latest : List (Node I A × CoalesceEvent I A))
      (last : List (Node I A × MemberEventType))
      (events : List (MemberEventType × List (Member I A)))
      → IsDistinct (keys latest)
      → All IsAbout latest
      → Reports id ty (lookup id latest) last events (flush_loop latest last events)
  unfolding flush_loop
  flush_loop-Reports id ty [] last events d h =
      unfold lookup in (sym (append-nil (told id ty events)), refl)
  flush_loop-Reports id ty ((own, cev) ∷ rest) last events d h =
      let d' : IsDistinct (keys rest) = λ b. let most = d b in ground (arith, most) in
      let skipped = flush_loop-Reports id ty rest last events d' h.1 in
      let taken =
        flush_loop-Reports id ty rest (insert own cev.ty last) (group cev.ty cev.member events) d'
          h.1 in
      rw (lookup-cons id own cev rest) (elim (Bool-cases (own == id)) [
        | inl there ↦
            let at : own ≡ id = (node_beq_iff own id).0 there in
            let absent : lookup id rest ≡ none =
              lookup_of_occurs id rest (let most = d id in ground (arith, most, there)) in
            rw there (elim (Bool-cases (is_repeat (lookup own last) cev.ty)) [
              | inl repeat ↦
                  rw repeat
                    (repeated_own id own ty cev last events _ at repeat (rw absent at skipped))
              | inr new ↦
                  rw new (reported_own id own ty cev last events _ at h.0 new (rw absent at taken))
            ])
        | inr ne ↦ rw ne (elim (Bool-cases (is_repeat (lookup own last) cev.ty)) [
          | inl repeat ↦ rw repeat skipped
          | inr new ↦
              rw new (reported_other id own ty cev last events _ (lookup id rest) ne h.0 taken)
        ])
      ])

-- ===== src/Members/Gossip.antt =====
-- When an intent is sent on (core/src/serf/base.rs): `handle_node_join_intent`,
-- `handle_node_leave_intent`, and the buffer of intents for nodes that are not known yet.
use ruserf.Prelude.{
  refl, beq_refl, max, ◌⊎◌, ℕ, ◌≤◌, ◌≡◌, ◌≢◌, true, false, ◌&&◌, Option, none, some, List, Eq, ◌==◌,
  leb, ltb, lookup, insert, lookup-insert, arith, if◌then◌else◌, Bool-cases, Option-cases, inl, inr,
}
use ruserf.Types.{
  MemberStatus, MessageType, MemberState, NodeIntent, JoinMessage, LeaveMessage, Members,
}
use ruserf.Serf.{Serf}
use ruserf.Members.Base.{status_of, with_status, is_serf_alive, upsert_intent}
use ruserf.Members.Join.{handle_node_join_intent}
use ruserf.Members.Leave.{intend_as, handle_node_leave_intent}

-- The time of a buffered intent, 0 if there is none.
abbrev pub time_of : Option (MessageType × ℕ) → ℕ
time_of none = 0
time_of (some i) = i.1

module _ {I : Type 0} ⦃e : Eq I⦄ where
  -- An intent that is not newer than one that was offered before does not change the buffer.
  upsert_intent_again :
      (intents : List (I × NodeIntent)) (n : I) (t t' : MessageType) (l l' now now' : ℕ)
      → l' ≤ l
      → (upsert_intent (upsert_intent intents n t l now).0 n t' l' now').1 ≡ false
  unfolding upsert_intent
  upsert_intent_again intents n t t' l l' now now' h =
      let fresh : NodeIntent = record { ty = t; wall_time = now; ltime = l } in
      ground (arith, lookup-insert n n fresh intents, e.beq_iff n n)

  -- The buffered intent of a node, without the wall time.
  abbrev pub buffered : I → List (I × NodeIntent) → Option (MessageType × ℕ)
  buffered n intents = elim (lookup n intents) [ none ↦ none | some i ↦ some (i.ty, i.ltime) ]

  same_order :
      (intents : List (I × NodeIntent)) (n : I) (t t' : MessageType) (l l' now now' : ℕ)
      → l ≢ l'
      → buffered n (upsert_intent (upsert_intent intents n t l now).0 n t' l' now').0
        ≡ buffered n (upsert_intent (upsert_intent intents n t' l' now').0 n t l now).0
  unfolding upsert_intent
  same_order intents n t t' l l' now now' h =
      let a : NodeIntent = record { ty = t; wall_time = now; ltime = l } in
      let b : NodeIntent = record { ty = t'; wall_time = now'; ltime = l' } in
      ground (
        arith,
        lookup-insert n n a intents,
        lookup-insert n n b intents,
        lookup-insert n n a (insert n b intents),
        lookup-insert n n b (insert n a intents),
        e.beq_iff n n,
      )

  newest :
      (intents : List (I × NodeIntent)) (n : I) (t t' : MessageType) (l l' now now' : ℕ)
      → (i : MessageType × ℕ) × (buffered n
            (upsert_intent (upsert_intent intents n t l now).0 n t' l' now').0
          ≡ some i)
        × ((i ≡ (t, l)) ⊎ (i ≡ (t', l')) ⊎ (buffered n intents ≡ some i))
        × (i.1 ≡ max (time_of (buffered n intents)) (max l l'))
  unfolding upsert_intent
  newest intents n t t' l l' now now' =
      let a : NodeIntent = record { ty = t; wall_time = now; ltime = l } in
      let b : NodeIntent = record { ty = t'; wall_time = now'; ltime = l' } in
      let of_a = lookup-insert n n a intents in
      let of_b = lookup-insert n n b intents in
      let of_ab = lookup-insert n n b (insert n a intents) in
      let self = beq_refl n in
      elim (Option-cases (lookup n intents)) [
        | inl absent ↦ elim (Bool-cases (ltb l l')) [
          | inl late ↦
              ((t', l'), ground (arith, of_a, of_b, of_ab, self), inr (inl refl), ground arith)
          | inr early ↦ ((t, l), ground (arith, of_a, of_b, of_ab, self), inl refl, ground arith)
        ]
        | inr (i, found) ↦ elim (Bool-cases (ltb i.ltime l)) [
          | inl newer ↦ elim (Bool-cases (ltb l l')) [
            | inl late ↦
                ((t', l'), ground (arith, of_a, of_b, of_ab, self), inr (inl refl), ground arith)
            | inr early ↦ ((t, l), ground (arith, of_a, of_b, of_ab, self), inl refl, ground arith)
          ]
          | inr older ↦ elim (Bool-cases (ltb i.ltime l')) [
            | inl late ↦
                ((t', l'), ground (arith, of_a, of_b, of_ab, self), inr (inl refl), ground arith)
            | inr early ↦ (
              (i.ty, i.ltime),
              ground (arith, of_a, of_b, of_ab, self),
              inr (inr rw (found, buffered) refl),
              ground arith,
            )
          ]
        ]
      ]

  -- Two intents of different times for a node leave the same intent in the buffer in whichever order
  -- they arrive: one of the two, or the one that was there, with the latest of their times.
  pub upsert_intent_order :
      (intents : List (I × NodeIntent)) (n : I) (t t' : MessageType) (l l' now now' : ℕ)
      → l ≢ l'
      → (buffered n (upsert_intent (upsert_intent intents n t l now).0 n t' l' now').0
          ≡ buffered n (upsert_intent (upsert_intent intents n t' l' now').0 n t l now).0)
        × ((i : MessageType × ℕ) × (buffered n
                (upsert_intent (upsert_intent intents n t l now).0 n t' l' now').0
              ≡ some i)
            × ((i ≡ (t, l)) ⊎ (i ≡ (t', l')) ⊎ (buffered n intents ≡ some i))
            × (i.1 ≡ max (time_of (buffered n intents)) (max l l')))
  upsert_intent_order intents n t t' l l' now now' h =
      (same_order intents n t t' l l' now now' h, newest intents n t t' l l' now now')

  upsert_intent-lookup :
      (intents : List (I × NodeIntent)) (n j : I) (t : MessageType) (l now : ℕ)
      → lookup j (upsert_intent intents n t l now).0 ≡ (
          if n == j && (upsert_intent intents n t l now).1
          then some (record { ty = t; wall_time = now; ltime = l })
          else lookup j intents)
  unfolding upsert_intent
  upsert_intent-lookup intents n j t l now =
      let fresh : NodeIntent = record { ty = t; wall_time = now; ltime = l } in
      ground (arith, lookup-insert n j fresh intents)

  upsert_intent-changed :
      (intents : List (I × NodeIntent)) (n : I) (t : MessageType) (l now : ℕ)
      → (upsert_intent intents n t l now).1
        ≡ elim (lookup n intents) [ none ↦ true | some i ↦ ltb i.ltime l ]
  unfolding upsert_intent
  upsert_intent-changed intents n t l now = ground arith

module _ {I A : Type 0} ⦃e : Eq I⦄ where
  -- A time `t` of a node is known: its status has that time or a later one, or the node is not in
  -- the table and an intent of that time or a later one is buffered.
  abbrev pub Known : Option (MemberState I A) → Option NodeIntent → ℕ → Type 0
  Known (some x) o t = t ≤ x.status_time
  Known none (some i) t = t ≤ i.ltime
  Known none none t = ⊥

  abbrev pub Knows : I → ℕ → Members I A → Type 0
  Knows j t m = Known (lookup j m.states) (lookup j m.recent_intents) t

  Known-intent :
      (j : I) (t : ℕ) (m : Members I A) (n : I) (ty : MessageType) (l now : ℕ)
      → Knows j t m
      → Known (lookup j m.states) (lookup j (upsert_intent m.recent_intents n ty l now).0) t
  Known-intent j t m n ty l now k = ground (
    arith,
    upsert_intent-lookup m.recent_intents n j ty l now,
    upsert_intent-changed m.recent_intents n ty l now,
    e.beq_iff n j,
  )

  Known-insert :
      (j : I) (t : ℕ) (m : Members I A) (n : I) (x : MemberState I A)
      → Knows j t m
      → ((n == j) ≡ true → t ≤ x.status_time)
      → Known (lookup j (insert n x m.states)) (lookup j m.recent_intents) t
  Known-insert j t m n x k h = ground (arith, lookup-insert n j x m.states, h)

  pub handle_node_join_intent-Knows :
      (msg : JoinMessage I) (now : ℕ) (s : Serf I A) (j : I) (t : ℕ)
      → Knows j t s.members
      → Knows j t (handle_node_join_intent msg now s).0.members
  unfolding handle_node_join_intent
  handle_node_join_intent-Knows msg now s j t k =
      elim (Option-cases (lookup msg.id s.members.states)) [
        | inl absent ↦
            rw (absent, handle_node_join_intent)
              (Known-intent j t s.members msg.id MessageType.join msg.ltime now k)
        | inr (x, found) ↦ elim (Bool-cases (leb msg.ltime x.status_time)) [
          | inl old ↦ rw (found, handle_node_join_intent) (rw (old, handle_node_join_intent) k)
          | inr newer ↦
              rw (found, handle_node_join_intent)
                (rw (newer, handle_node_join_intent)
                  (Known-insert j t s.members msg.id _ k (λ q. ground (arith, e.beq_iff msg.id j))))
        ]
      ]

  intend_as-Knows :
      (st : MemberStatus) (id : I) (x y : MemberState I A) (s : Serf I A) (j : I) (t : ℕ)
      → lookup id s.members.states ≡ some y
      → y.status_time ≤ x.status_time
      → Knows j t s.members
      → Knows j t (intend_as st id x false s).0.members
  unfolding intend_as
  intend_as-Knows st id x y s j t found newer k = go st
    where
      later : (id == j) ≡ true → t ≤ x.status_time
      later q = ground (arith, e.beq_iff id j)

      go : (st' : MemberStatus) → Knows j t (intend_as st' id x false s).0.members
      go MemberStatus.none = Known-insert j t s.members id x k later
      go MemberStatus.alive =
          Known-insert j t s.members id (with_status MemberStatus.leaving x) k later
      go MemberStatus.leaving = Known-insert j t s.members id x k later
      go MemberStatus.left = Known-insert j t s.members id x k later
      go MemberStatus.failed =
          Known-insert j t s.members id (with_status MemberStatus.left x) k later

  pub handle_node_leave_intent-Knows :
      (msg : LeaveMessage I) (now : ℕ) (s : Serf I A) (j : I) (t : ℕ)
      → msg.prune ≡ false
      → Knows j t s.members
      → Knows j t (handle_node_leave_intent msg now s).0.members
  unfolding handle_node_leave_intent
  handle_node_leave_intent-Knows msg now s j t keep k =
      elim (Option-cases (lookup msg.id s.members.states)) [
        | inl absent ↦
            rw (absent, handle_node_leave_intent)
              (Known-intent j t s.members msg.id MessageType.leave msg.ltime now k)
        | inr (x, found) ↦ elim (Bool-cases (leb msg.ltime x.status_time)) [
          | inl old ↦ rw (found, handle_node_leave_intent) (rw (old, handle_node_leave_intent) k)
          | inr newer ↦ elim (Bool-cases (msg.id == s.local_node.id && is_serf_alive s.state)) [
            | inl refute ↦
                rw (found, handle_node_leave_intent)
                  (rw (newer, refute, handle_node_leave_intent) k)
            | inr go ↦
                rw (found, handle_node_leave_intent)
                  (rw (newer, go, keep, handle_node_leave_intent)
                    (intend_as-Knows (status_of x) msg.id _ x _ j t found (ground arith) k))
          ]
        ]
      ]

  Known-not_sent :
      (o : Option (MemberState I A)) (i : Option NodeIntent) (t : ℕ)
      → Known o i t
      → (elim o [
        | some x ↦ leb t x.status_time
        | none ↦ elim i [ none ↦ false | some i' ↦ leb t i'.ltime ]
      ])
        ≡ true
  Known-not_sent (some x) i t k = ground arith
  Known-not_sent none (some i) t k = ground arith
  Known-not_sent none none t k = absurd k

  pub handle_node_join_intent_known :
      (msg : JoinMessage I) (now : ℕ) (s : Serf I A)
      → Knows msg.id msg.ltime s.members
      → (handle_node_join_intent msg now s).1 ≡ false
  unfolding handle_node_join_intent
  handle_node_join_intent_known msg now s k = ground (
    arith,
    Known-not_sent (lookup msg.id s.members.states) (lookup msg.id s.members.recent_intents)
        msg.ltime k,
    upsert_intent-changed s.members.recent_intents msg.id MessageType.join msg.ltime now,
  )

  pub handle_node_leave_intent_known :
      (msg : LeaveMessage I) (now : ℕ) (s : Serf I A)
      → Knows msg.id msg.ltime s.members
      → (handle_node_leave_intent msg now s).1 ≡ false
  unfolding handle_node_leave_intent
  handle_node_leave_intent_known msg now s k = ground (
    arith,
    Known-not_sent (lookup msg.id s.members.states) (lookup msg.id s.members.recent_intents)
        msg.ltime k,
    upsert_intent-changed s.members.recent_intents msg.id MessageType.leave msg.ltime now,
  )

  Known-fresh :
      (m : Members I A) (n : I) (ty : MessageType) (l now : ℕ)
      → lookup n m.states ≡ none
      → (upsert_intent m.recent_intents n ty l now).1 ≡ true
      → Known (lookup n m.states) (lookup n (upsert_intent m.recent_intents n ty l now).0) l
  Known-fresh m n ty l now absent h =
      ground (arith, upsert_intent-lookup m.recent_intents n n ty l now, e.beq_iff n n)

  Known-insert_self :
      (m : Members I A) (n : I) (x : MemberState I A)
      → Known (lookup n (insert n x m.states)) (lookup n m.recent_intents) x.status_time
  Known-insert_self m n x = ground (arith, lookup-insert n n x m.states, e.beq_iff n n)

  pub handle_node_join_intent_learns :
      (msg : JoinMessage I) (now : ℕ) (s : Serf I A)
      → (handle_node_join_intent msg now s).1 ≡ true
      → Knows msg.id msg.ltime (handle_node_join_intent msg now s).0.members
  unfolding handle_node_join_intent
  handle_node_join_intent_learns msg now s = elim (Option-cases (lookup msg.id s.members.states)) [
    | inl absent ↦
        rw (absent, handle_node_join_intent)
          (Known-fresh s.members msg.id MessageType.join msg.ltime now absent)
    | inr (x, found) ↦ elim (Bool-cases (leb msg.ltime x.status_time)) [
      | inl old ↦ rw (found, handle_node_join_intent) (rw (old, handle_node_join_intent) (λ h. cc))
      | inr newer ↦
          rw (found, handle_node_join_intent)
            (rw (newer, handle_node_join_intent) (λ h. Known-insert_self s.members msg.id _))
    ]
  ]

  intend_as_learns :
      (st : MemberStatus) (id : I) (x : MemberState I A) (s : Serf I A)
      → Knows id x.status_time (intend_as st id x false s).0.members
  unfolding intend_as
  intend_as_learns MemberStatus.none id x s = Known-insert_self s.members id x
  intend_as_learns MemberStatus.alive id x s =
      Known-insert_self s.members id (with_status MemberStatus.leaving x)
  intend_as_learns MemberStatus.leaving id x s = Known-insert_self s.members id x
  intend_as_learns MemberStatus.left id x s = Known-insert_self s.members id x
  intend_as_learns MemberStatus.failed id x s =
      Known-insert_self s.members id (with_status MemberStatus.left x)

  pub handle_node_leave_intent_learns :
      (msg : LeaveMessage I) (now : ℕ) (s : Serf I A)
      → msg.prune ≡ false
      → (handle_node_leave_intent msg now s).1 ≡ true
      → Knows msg.id msg.ltime (handle_node_leave_intent msg now s).0.members
  unfolding handle_node_leave_intent
  handle_node_leave_intent_learns msg now s keep =
      elim (Option-cases (lookup msg.id s.members.states)) [
        | inl absent ↦
            rw (absent, handle_node_leave_intent)
              (Known-fresh s.members msg.id MessageType.leave msg.ltime now absent)
        | inr (x, found) ↦ elim (Bool-cases (leb msg.ltime x.status_time)) [
          | inl old ↦
              rw (found, handle_node_leave_intent) (rw (old, handle_node_leave_intent) (λ h. cc))
          | inr newer ↦ elim (Bool-cases (msg.id == s.local_node.id && is_serf_alive s.state)) [
            | inl refute ↦
                rw (found, handle_node_leave_intent)
                  (rw (newer, refute, handle_node_leave_intent) (λ h. cc))
            | inr go ↦
                rw (found, handle_node_leave_intent)
                  (rw (newer, go, keep, handle_node_leave_intent)
                    (λ h. intend_as_learns (status_of x) msg.id _ _))
          ]
        ]
      ]

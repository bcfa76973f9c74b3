-- ===== src/Snapshot/Stream.antt =====
-- The snapshot's stream of events, leaves and ticks (core/src/snapshot.rs, `stream`): whatever comes,
-- the file mirrors the writer.
use ruserf.Prelude.{
  ℕ, ◌-◌, ◌<◌, ◌^◌, ◌≡◌, refl, ap, Bool, true, false, not, List, [], ◌∷◌, arith, Eq, ◌==◌, ltb, leb,
  contains, All, All-append, All-retain, if◌then◌else◌, Bool-cases, inl, inr, IsDistinct,
}
use ruserf.Types.{Node, Member, MemberEvent, MemberEventType, UserEventMessage, CrateEvent, node_eq}
use ruserf.Serf.{Codec}
use ruserf.Snapshot.Record.{SnapshotRecord, encode}
use ruserf.Snapshot.Replay.{ReplayResult, set_insert, set_remove, apply}
use ruserf.Snapshot.Writer.{
  Snapshot, try_append, update_clock, process_user_event, process_query_event, add_members,
  drop_members, record_members, process_member_event, handle_leave, process_event,
}
use ruserf.Snapshot.Read.{NodeCodec}
use ruserf.Snapshot.Nodes.{
  IsShort, alive-Encodes, not_alive-Encodes, set_insert-IsDistinct, set_remove-IsDistinct,
}
use ruserf.Snapshot.Compaction.{state_of}
use ruserf.Snapshot.Mirror.{Mirrors, try_append-Mirrors}

module _ {I A : Type 0} (codec : Codec I A) where
  -- An event's times are u64, and its members have records.
  abbrev pub IsRecordable : CrateEvent I A → Type 0
  IsRecordable (CrateEvent.member ev) = All (λ m. IsShort codec m.node) ev.members
  IsRecordable (CrateEvent.user ev) = ev.ltime < 256 ^ 8
  IsRecordable (CrateEvent.query q) = q.ltime < 256 ^ 8
  IsRecordable (CrateEvent.internal_query ty q) = q.ltime < 256 ^ 8

module _ {I A : Type 0} ⦃e : Eq I⦄ ⦃a : Eq A⦄ (codec : Codec I A) (laws : NodeCodec codec) where
  pub update_clock-Mirrors :
      (now time : ℕ) (w : Snapshot I A)
      → time < 256 ^ 8
      → Mirrors codec w
      → Mirrors codec (update_clock codec now time w)
  unfolding update_clock encode
  update_clock-Mirrors now time w small m = elim (Bool-cases (ltb w.last_clock (time - 1))) [
    | inr old ↦
        let same : update_clock codec now time w ≡ w = rw (old, update_clock) refl in rw same m
    | inl new ↦
        let w' : Snapshot I A = record w { last_clock = time - 1 } in
        rw (new, update_clock)
          (try_append-Mirrors codec laws now (SnapshotRecord.clock (time - 1)) w' m.found
            record {
              distinct = m.valid.distinct;
              short = m.valid.short;
              clock_fits = omega arith;
              event_clock_fits = m.valid.event_clock_fits;
              query_clock_fits = m.valid.query_clock_fits;
            }
            (omega arith) (_, refl) m.replayed m.nodes
            (λ h. ap {A = ReplayResult I A} (λ r. record r { last_clock = time - 1 }) (m.exact h)))
  ]

  process_user_event-Mirrors :
      (now : ℕ) (ev : UserEventMessage) (w : Snapshot I A)
      → ev.ltime < 256 ^ 8
      → Mirrors codec w
      → Mirrors codec (process_user_event codec now ev w)
  unfolding process_user_event encode
  process_user_event-Mirrors now ev w small m =
      elim (Bool-cases (leb ev.ltime w.last_event_clock)) [
        | inl old ↦
            let same : process_user_event codec now ev w ≡ w = rw (old, process_user_event) refl in
            rw same m
        | inr new ↦
            let w' : Snapshot I A = record w { last_event_clock = ev.ltime } in
            rw (new, process_user_event)
              (try_append-Mirrors codec laws now (SnapshotRecord.event_clock ev.ltime) w' m.found
                record {
                  distinct = m.valid.distinct;
                  short = m.valid.short;
                  clock_fits = m.valid.clock_fits;
                  event_clock_fits = small;
                  query_clock_fits = m.valid.query_clock_fits;
                }
                small (_, refl) m.replayed m.nodes
                (λ h.
                  ap {A = ReplayResult I A} (λ r. record r { last_event_clock = ev.ltime })
                    (m.exact h)))
      ]

  process_query_event-Mirrors :
      (now ltime : ℕ) (w : Snapshot I A)
      → ltime < 256 ^ 8
      → Mirrors codec w
      → Mirrors codec (process_query_event codec now ltime w)
  unfolding process_query_event encode
  process_query_event-Mirrors now ltime w small m =
      elim (Bool-cases (leb ltime w.last_query_clock)) [
        | inl old ↦
            let same : process_query_event codec now ltime w ≡ w =
              rw (old, process_query_event) refl in
            rw same m
        | inr new ↦
            let w' : Snapshot I A = record w { last_query_clock = ltime } in
            rw (new, process_query_event)
              (try_append-Mirrors codec laws now (SnapshotRecord.query_clock ltime) w' m.found
                record {
                  distinct = m.valid.distinct;
                  short = m.valid.short;
                  clock_fits = m.valid.clock_fits;
                  event_clock_fits = m.valid.event_clock_fits;
                  query_clock_fits = small;
                }
                small (_, refl) m.replayed m.nodes
                (λ h.
                  ap {A = ReplayResult I A} (λ r. record r { last_query_clock = ltime })
                    (m.exact h)))
      ]

  set_insert-IsShort :
      (n : Node I A) (ns : List (Node I A))
      → IsShort codec n
      → All (IsShort codec) ns
      → All (IsShort codec) (set_insert n ns)
  set_insert-IsShort n ns k h = elim (Bool-cases (contains n ns)) [
    | inl there ↦ rw there h
    | inr new ↦ rw new (All-append (IsShort codec) ns (n ∷ []) h (k, tt))
  ]

  add_members-Mirrors :
      (now : ℕ) (ms : List (Member I A)) (w : Snapshot I A)
      → All (λ m. IsShort codec m.node) ms
      → Mirrors codec w
      → Mirrors codec (add_members codec now ms w)
  unfolding add_members
  add_members-Mirrors now [] w h m = m
  add_members-Mirrors now (x ∷ ms) w h m =
      let w' : Snapshot I A = record w { alive_nodes = set_insert x.node w.alive_nodes } in
      add_members-Mirrors now ms (try_append codec now (SnapshotRecord.alive x.node) w') h.1 (
        try_append-Mirrors codec laws now (SnapshotRecord.alive x.node) w' m.found
          record {
            distinct = set_insert-IsDistinct x.node w.alive_nodes m.valid.distinct;
            short = set_insert-IsShort x.node w.alive_nodes h.0 m.valid.short;
            clock_fits = m.valid.clock_fits;
            event_clock_fits = m.valid.event_clock_fits;
            query_clock_fits = m.valid.query_clock_fits;
          }
          tt (alive-Encodes codec laws x.node h.0) m.replayed (ap (set_insert x.node) m.nodes)
          (λ g.
            ap {A = ReplayResult I A}
              (λ r. record r { alive_nodes = set_insert x.node r.alive_nodes }) (m.exact g)))

  drop_members-Mirrors :
      (now : ℕ) (ms : List (Member I A)) (w : Snapshot I A)
      → All (λ m. IsShort codec m.node) ms
      → Mirrors codec w
      → Mirrors codec (drop_members codec now ms w)
  unfolding drop_members
  drop_members-Mirrors now [] w h m = m
  drop_members-Mirrors now (x ∷ ms) w h m =
      let w' : Snapshot I A = record w { alive_nodes = set_remove x.node w.alive_nodes } in
      drop_members-Mirrors now ms (try_append codec now (SnapshotRecord.not_alive x.node) w') h.1 (
        try_append-Mirrors codec laws now (SnapshotRecord.not_alive x.node) w' m.found
          record {
            distinct = set_remove-IsDistinct x.node w.alive_nodes m.valid.distinct;
            short = All-retain (IsShort codec) (λ y. not (y == x.node)) w.alive_nodes m.valid.short;
            clock_fits = m.valid.clock_fits;
            event_clock_fits = m.valid.event_clock_fits;
            query_clock_fits = m.valid.query_clock_fits;
          }
          tt (not_alive-Encodes codec laws x.node h.0) m.replayed (ap (set_remove x.node) m.nodes)
          (λ g.
            ap {A = ReplayResult I A}
              (λ r. record r { alive_nodes = set_remove x.node r.alive_nodes }) (m.exact g)))

  record_members-Mirrors :
      (now : ℕ) (ty : MemberEventType) (ms : List (Member I A)) (w : Snapshot I A)
      → All (λ m. IsShort codec m.node) ms
      → Mirrors codec w
      → Mirrors codec (record_members codec now (record { ty = ty; members = ms }) w)
  unfolding record_members
  record_members-Mirrors now MemberEventType.join ms w h m = add_members-Mirrors now ms w h m
  record_members-Mirrors now MemberEventType.leave ms w h m = drop_members-Mirrors now ms w h m
  record_members-Mirrors now MemberEventType.failed ms w h m = drop_members-Mirrors now ms w h m
  record_members-Mirrors now MemberEventType.update ms w h m = m
  record_members-Mirrors now MemberEventType.reap ms w h m = m

  process_member_event-Mirrors :
      (now time : ℕ) (ev : MemberEvent I A) (w : Snapshot I A)
      → time < 256 ^ 8
      → All (λ m. IsShort codec m.node) ev.members
      → Mirrors codec w
      → Mirrors codec (process_member_event codec now time ev w)
  unfolding process_member_event
  process_member_event-Mirrors now time ev w small h m =
      update_clock-Mirrors now time (record_members codec now ev w) small
        (record_members-Mirrors now ev.ty ev.members w h m)

  -- The nodes that a leave keeps.
  abbrev kept : Bool → List (Node I A) → List (Node I A)
  kept rejoin ns = if rejoin then ns else []

  kept-IsDistinct : (b : Bool) (ns : List (Node I A)) → IsDistinct ns → IsDistinct (kept b ns)
  kept-IsDistinct true ns h = h
  kept-IsDistinct false ns h = λ n. omega arith

  kept-IsShort :
      (b : Bool) (ns : List (Node I A)) → All (IsShort codec) ns → All (IsShort codec) (kept b ns)
  kept-IsShort true ns h = h
  kept-IsShort false ns h = tt

  left-nodes :
      (b : Bool) (r : ReplayResult I A) (ns : List (Node I A))
      → r.alive_nodes ≡ ns
      → (apply b SnapshotRecord.leave r).alive_nodes ≡ kept b ns
  left-nodes true r ns h = h
  left-nodes false r ns h = refl

  left-exact :
      (b : Bool) (r st : ReplayResult I A)
      → not b ≡ false
      → (b ≡ true → r ≡ st)
      → apply b SnapshotRecord.leave r ≡ record st { alive_nodes = kept b st.alive_nodes }
  left-exact true r st h same = same refl
  left-exact false r st h same = absurd (ground arith)

  pub handle_leave-Mirrors :
      (now : ℕ) (w : Snapshot I A) → Mirrors codec w → Mirrors codec (handle_leave codec now w)
  unfolding handle_leave encode
  handle_leave-Mirrors now w m =
      let b = w.rejoin_after_leave in
      let w' : Snapshot I A = record w { leaving = true; alive_nodes = kept b w.alive_nodes } in
      try_append-Mirrors codec laws now SnapshotRecord.leave w' m.found
        record {
          distinct = kept-IsDistinct b w.alive_nodes m.valid.distinct;
          short = kept-IsShort b w.alive_nodes m.valid.short;
          clock_fits = m.valid.clock_fits;
          event_clock_fits = m.valid.event_clock_fits;
          query_clock_fits = m.valid.query_clock_fits;
        }
        tt (_, refl) m.replayed (left-nodes b m.found w.alive_nodes m.nodes)
        (λ h. left-exact b m.found (state_of codec w) h (λ same. m.exact (ground arith)))

  pub process_event-Mirrors :
      (now time : ℕ) (ev : CrateEvent I A) (w : Snapshot I A)
      → time < 256 ^ 8
      → IsRecordable codec ev
      → Mirrors codec w
      → Mirrors codec (process_event codec now time ev w)
  unfolding process_event
  process_event-Mirrors now time (CrateEvent.member ev) w small h m =
      process_member_event-Mirrors now time ev w small h m
  process_event-Mirrors now time (CrateEvent.user ev) w small h m =
      process_user_event-Mirrors now ev w h m
  process_event-Mirrors now time (CrateEvent.query q) w small h m =
      process_query_event-Mirrors now q.ltime w h m
  process_event-Mirrors now time (CrateEvent.internal_query ty q) w small h m =
      process_query_event-Mirrors now q.ltime w h m

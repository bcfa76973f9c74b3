-- ===== src/Snapshot/Writer.antt =====
-- `Snapshot` of core/src/snapshot.rs: what the writer keeps, and how it appends to the file and
-- compacts it. The file is what was written to it, flushed or not; the operating system's file
-- operations succeed here, and an encoder may fail. `now` is the time in seconds of a call, and
-- `time` what the Lamport clock reads.
use ruserf.Prelude.{
  ℕ, ◌+◌, ◌-◌, ◌*◌, max, Bool, true, false, Option, none, some, List, [], ◌∷◌, ◌++◌, Eq, ltb, leb,
  length, if◌then◌else◌,
}
use ruserf.Types.{
  Bytes, Node, Member, MemberEvent, MemberEventType, UserEventMessage, CrateEvent, node_eq,
}
use ruserf.Serf.{Codec}
use ruserf.Snapshot.Record.{SnapshotRecord, encode, record_len}
use ruserf.Snapshot.Replay.{ReplayResult, set_insert, set_remove}

abbrev pub error_recovery_interval : ℕ
error_recovery_interval = 30

abbrev pub bytes_per_node : ℕ
bytes_per_node = 128

abbrev pub compaction_threshold : ℕ
compaction_threshold = 2

pub record Snapshot (I A : Type 0) : Type 0 where
  pub alive_nodes : List (Node I A)
  pub last_clock : ℕ
  pub last_event_clock : ℕ
  pub last_query_clock : ℕ
  pub leaving : Bool
  pub min_compact_size : ℕ
  pub file : Bytes
  pub offset : ℕ
  pub rejoin_after_leave : Bool
  pub last_attempted_compaction : ℕ

-- The part of `from_replay_result` that sets up the writer, on a file that was replayed.
abbrev pub from_replay_result :
    {I A : Type 0} → ReplayResult I A → Bytes → (min_compact_size now : ℕ) → Bool → Snapshot I A
from_replay_result r file min_compact_size now rejoin_after_leave = record {
  alive_nodes = r.alive_nodes;
  last_clock = r.last_clock;
  last_event_clock = r.last_event_clock;
  last_query_clock = r.last_query_clock;
  leaving = false;
  min_compact_size = min_compact_size;
  file = file;
  offset = length file;
  rejoin_after_leave = rejoin_after_leave;
  last_attempted_compaction = now;
}

abbrev pub snapshot_max_size : {I A : Type 0} → Snapshot I A → ℕ
snapshot_max_size w =
    let est_size = length w.alive_nodes * bytes_per_node in
    max (est_size * compaction_threshold) w.min_compact_size

module _ {I A : Type 0} (codec : Codec I A) where
  -- The records one after the other; `none` if one has no encoding.
  unfoldable pub encode_all : List (SnapshotRecord I A) → Option Bytes
  unfolding encode
  encode_all [] = some []
  encode_all (rec ∷ recs) = elim (encode codec rec) [
    | none ↦ none
    | some bytes ↦ elim (encode_all recs) [ none ↦ none | some rest ↦ some (bytes ++ rest) ]
  ]

  -- What a compaction writes: the live nodes, then the clocks.
  abbrev pub alive_records : List (Node I A) → List (SnapshotRecord I A) → List (SnapshotRecord I A)
  alive_records [] after = after
  alive_records (n ∷ ns) after = SnapshotRecord.alive n ∷ alive_records ns after

  abbrev pub compacted_records : Snapshot I A → List (SnapshotRecord I A)
  compacted_records w = alive_records w.alive_nodes (
      SnapshotRecord.clock w.last_clock
      ∷ SnapshotRecord.event_clock w.last_event_clock
      ∷ SnapshotRecord.query_clock w.last_query_clock
      ∷ [])

  abbrev pub records_len : List (SnapshotRecord I A) → ℕ
  records_len [] = 0
  records_len (rec ∷ recs) = record_len codec rec + records_len recs

  -- `compact`; the result says whether it is `Ok`. An encoder's error leaves the old file.
  unfoldable pub compact : Snapshot I A → Snapshot I A × Bool
  unfolding encode_all
  compact w = elim (encode_all (compacted_records w)) [
    | none ↦ (w, false)
    | some bytes ↦ (record w { file = bytes; offset = records_len (compacted_records w) }, true)
  ]

  unfoldable pub append_line : SnapshotRecord I A → Snapshot I A → Snapshot I A × Bool
  unfolding encode compact
  append_line rec w = elim (encode codec rec) [
    | none ↦ (w, false)
    | some bytes ↦
        let w' : Snapshot I A = record w {
          file = w.file ++ bytes;
          offset = w.offset + record_len codec rec;
        } in
        if ltb (snapshot_max_size w') w'.offset then compact w' else (w', true)
  ]

  unfoldable pub try_append : ℕ → SnapshotRecord I A → Snapshot I A → Snapshot I A
  unfolding append_line compact
  try_append now rec w =
      let r = append_line rec w in
      if r.1
      then r.0
      else if ltb error_recovery_interval (now - r.0.last_attempted_compaction)
      then (compact (record r.0 { last_attempted_compaction = now })).0
      else r.0

  unfoldable pub update_clock : (now time : ℕ) → Snapshot I A → Snapshot I A
  unfolding try_append
  update_clock now time w =
      let last_seen = time - 1 in
      if ltb w.last_clock last_seen
      then try_append now (SnapshotRecord.clock last_seen) (record w { last_clock = last_seen })
      else w

  unfoldable pub process_user_event : ℕ → UserEventMessage → Snapshot I A → Snapshot I A
  unfolding try_append
  process_user_event now ev w =
      if leb ev.ltime w.last_event_clock
      then w
      else try_append now (SnapshotRecord.event_clock ev.ltime)
          (record w { last_event_clock = ev.ltime })

  unfoldable pub process_query_event : (now ltime : ℕ) → Snapshot I A → Snapshot I A
  unfolding try_append
  process_query_event now ltime w =
      if leb ltime w.last_query_clock
      then w
      else try_append now (SnapshotRecord.query_clock ltime) (record w { last_query_clock = ltime })

  module _ ⦃e : Eq I⦄ ⦃a : Eq A⦄ where
    unfoldable pub add_members : ℕ → List (Member I A) → Snapshot I A → Snapshot I A
    unfolding try_append
    add_members now [] w = w
    add_members now (m ∷ ms) w = add_members now ms (
        try_append now (SnapshotRecord.alive m.node)
          (record w { alive_nodes = set_insert m.node w.alive_nodes }))

    unfoldable pub drop_members : ℕ → List (Member I A) → Snapshot I A → Snapshot I A
    unfolding try_append
    drop_members now [] w = w
    drop_members now (m ∷ ms) w = drop_members now ms (
        try_append now (SnapshotRecord.not_alive m.node)
          (record w { alive_nodes = set_remove m.node w.alive_nodes }))

    unfoldable pub record_members : ℕ → MemberEvent I A → Snapshot I A → Snapshot I A
    unfolding add_members drop_members
    record_members now ev w = elim ev.ty [
      | MemberEventType.join ↦ add_members now ev.members w
      | MemberEventType.leave ↦ drop_members now ev.members w
      | MemberEventType.failed ↦ drop_members now ev.members w
      | MemberEventType.update ↦ w
      | MemberEventType.reap ↦ w
    ]

    unfoldable pub process_member_event :
        (now time : ℕ) → MemberEvent I A → Snapshot I A → Snapshot I A
    unfolding record_members update_clock
    process_member_event now time ev w = update_clock now time (record_members now ev w)

    unfoldable pub handle_leave : ℕ → Snapshot I A → Snapshot I A
    unfolding try_append
    handle_leave now w = try_append now SnapshotRecord.leave (record w {
      leaving = true;
      alive_nodes = if w.rejoin_after_leave then w.alive_nodes else [];
    })

    -- One arm of `stream_flush_event!`.
    unfoldable pub process_event : (now time : ℕ) → CrateEvent I A → Snapshot I A → Snapshot I A
    unfolding process_member_event process_user_event process_query_event
    process_event now time (CrateEvent.member ev) w = process_member_event now time ev w
    process_event now time (CrateEvent.user ev) w = process_user_event now ev w
    process_event now time (CrateEvent.query q) w = process_query_event now q.ltime w
    process_event now time (CrateEvent.internal_query ty q) w = process_query_event now q.ltime w

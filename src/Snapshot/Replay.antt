-- ===== src/Snapshot/Replay.antt =====
-- `open_and_replay_snapshot` (core/src/snapshot.rs), on the bytes of the file; `none` is an error
-- (an unknown record type, a truncated record, or a node that does not decode). A hash set is a
-- list without repetition.
use ruserf.Prelude.{
  ℕ, zero, suc, Bool, not, Option, none, some, List, [], ◌∷◌, ◌++◌, Eq, ◌==◌, length, contains,
  retain, if◌then◌else◌,
}
use ruserf.Types.{Bytes, Node, node_eq}
use ruserf.Serf.{Codec}
use ruserf.Snapshot.Bytes.{of_le_bytes, read_exact}
use ruserf.Snapshot.Record.{SnapshotRecord, SnapshotRecordType, record_type}

module _ {T : Type 0} ⦃e : Eq T⦄ where
  abbrev pub set_insert : T → List T → List T
  set_insert x xs = if contains x xs then xs else xs ++ x ∷ []

  abbrev pub set_remove : T → List T → List T
  set_remove x xs = retain (λ y. not (y == x)) xs

pub record ReplayResult (I A : Type 0) : Type 0 where
  pub alive_nodes : List (Node I A)
  pub last_clock : ℕ
  pub last_event_clock : ℕ
  pub last_query_clock : ℕ

abbrev pub empty_replay : {I A : Type 0} → ReplayResult I A
empty_replay = record {
  alive_nodes = [];
  last_clock = 0;
  last_event_clock = 0;
  last_query_clock = 0;
}

module _ {I A : Type 0} ⦃e : Eq I⦄ ⦃a : Eq A⦄ (rejoin_after_leave : Bool) where
  -- The effect of a record that was read.
  abbrev pub apply : SnapshotRecord I A → ReplayResult I A → ReplayResult I A
  apply (SnapshotRecord.alive node) r = record r { alive_nodes = set_insert node r.alive_nodes }
  apply (SnapshotRecord.not_alive node) r = record r { alive_nodes = set_remove node r.alive_nodes }
  apply (SnapshotRecord.clock t) r = record r { last_clock = t }
  apply (SnapshotRecord.event_clock t) r = record r { last_event_clock = t }
  apply (SnapshotRecord.query_clock t) r = record r { last_query_clock = t }
  apply SnapshotRecord.coordinate r = r
  apply SnapshotRecord.leave r = if rejoin_after_leave then r else empty_replay
  apply SnapshotRecord.comment r = r

module _ {I A : Type 0} (codec : Codec I A) where
  unfoldable pub read_node :
      (Node I A → SnapshotRecord I A) → Bytes → Option (SnapshotRecord I A × Bytes)
  read_node make bytes = elim (read_exact 4 bytes) [
    | none ↦ none
    | some (len, rest) ↦ elim (read_exact (of_le_bytes len) rest) [
      | none ↦ none
      | some (buf, rest') ↦ elim (codec.decode_node buf) [
        | none ↦ none
        | some (_, node) ↦ some (make node, rest')
      ]
    ]
  ]

  unfoldable pub read_time : (ℕ → SnapshotRecord I A) → Bytes → Option (SnapshotRecord I A × Bytes)
  read_time make bytes = elim (read_exact 8 bytes) [
    | none ↦ none
    | some (t, rest) ↦ some (make (of_le_bytes t), rest)
  ]

  -- The rest of a record, once its type is read.
  unfoldable pub read_body : SnapshotRecordType → Bytes → Option (SnapshotRecord I A × Bytes)
  unfolding read_node read_time
  read_body SnapshotRecordType.alive bytes = read_node SnapshotRecord.alive bytes
  read_body SnapshotRecordType.not_alive bytes = read_node SnapshotRecord.not_alive bytes
  read_body SnapshotRecordType.clock bytes = read_time SnapshotRecord.clock bytes
  read_body SnapshotRecordType.event_clock bytes = read_time SnapshotRecord.event_clock bytes
  read_body SnapshotRecordType.query_clock bytes = read_time SnapshotRecord.query_clock bytes
  read_body SnapshotRecordType.coordinate bytes = some (SnapshotRecord.coordinate, bytes)
  read_body SnapshotRecordType.leave bytes = some (SnapshotRecord.leave, bytes)
  read_body SnapshotRecordType.comment bytes = some (SnapshotRecord.comment, bytes)

  -- One record, from its type byte on.
  unfoldable pub read_record : ℕ → Bytes → Option (SnapshotRecord I A × Bytes)
  unfolding record_type read_body
  read_record b bytes = elim (record_type b) [ none ↦ none | some kind ↦ read_body kind bytes ]

  module _ ⦃e : Eq I⦄ ⦃a : Eq A⦄ (rejoin_after_leave : Bool) where
    -- The loop; it reads at most `fuel` records.
    unfoldable pub replay_loop : ℕ → Bytes → ReplayResult I A → Option (ReplayResult I A)
    unfolding read_record
    replay_loop fuel [] r = some r
    replay_loop zero (b ∷ bytes) r = none
    replay_loop (suc fuel) (b ∷ bytes) r = elim (read_record b bytes) [
      | none ↦ none
      | some (rec, rest) ↦ replay_loop fuel rest (apply rejoin_after_leave rec r)
    ]

    -- Each record takes a byte at least, so the length of the file is fuel enough.
    abbrev pub replay : Bytes → Option (ReplayResult I A)
    unfolding replay_loop
    replay file = replay_loop (length file) file empty_replay

-- ===== src/Snapshot/Record.antt =====
-- `SnapshotRecordType`, `SnapshotRecord` and its `encode` (core/src/snapshot.rs). The encoder of nodes
-- gets a buffer; it fails where its bytes do not fit there (core/src/delegate/transform.rs).
use ruserf.Prelude.{
  ℕ, ◌+◌, ◌-◌, ◌%◌, ◌==◌, nat_eq, Option, none, some, [], ◌∷◌, ◌++◌, leb, length, take, replicate,
  if◌then◌else◌,
}
use ruserf.Types.{Bytes, Node}
use ruserf.Serf.{Codec}
use ruserf.Snapshot.Bytes.{le_bytes}

pub data SnapshotRecordType : Type 0 where
  alive not_alive clock event_clock query_clock coordinate leave comment : SnapshotRecordType

-- `try_from`; `none` is an unknown type.
unfoldable pub record_type : ℕ → Option SnapshotRecordType
record_type b =
    if b == 0
    then some SnapshotRecordType.alive
    else if b == 1
    then some SnapshotRecordType.not_alive
    else if b == 2
    then some SnapshotRecordType.clock
    else if b == 3
    then some SnapshotRecordType.event_clock
    else if b == 4
    then some SnapshotRecordType.query_clock
    else if b == 5
    then some SnapshotRecordType.coordinate
    else if b == 6
    then some SnapshotRecordType.leave
    else if b == 7
    then some SnapshotRecordType.comment
    else none

pub data SnapshotRecord (I A : Type 0) : Type 0 where
  alive not_alive : Node I A → SnapshotRecord I A
  clock event_clock query_clock : ℕ → SnapshotRecord I A
  coordinate leave comment : SnapshotRecord I A

abbrev pub max_inlined_bytes : ℕ
max_inlined_bytes = 64

-- A buffer of the size with the bytes written at its start.
abbrev pub write_into : ℕ → Bytes → Option Bytes
write_into room bytes =
    if leb (length bytes) room then some (bytes ++ replicate (room - length bytes) 0) else none

module _ {I A : Type 0} (codec : Codec I A) where
  -- `T::encode_node` into a buffer of the size; the buffer afterwards.
  unfoldable pub encode_node_into : ℕ → Node I A → Option Bytes
  encode_node_into room node = elim (codec.encode_node node) [
    | none ↦ none
    | some bytes ↦ write_into room bytes
  ]

  -- `encode!` of a node. The buffer of the second branch holds the five bytes of the header when the
  -- node is encoded into it, from its start.
  unfoldable pub encode_status : ℕ → Node I A → Option Bytes
  unfolding encode_node_into
  encode_status status node =
      let node_len = codec.node_encoded_len node in
      let encoded_len = 4 + 1 + node_len in
      let header = status ∷ le_bytes 4 (node_len % 4294967296) in
      if leb encoded_len max_inlined_bytes
      then (elim (encode_node_into (max_inlined_bytes - 5) node) [
        | none ↦ none
        | some buf ↦ some (take encoded_len (header ++ buf))
      ])
      else encode_node_into (length header) node

  unfoldable pub encode : SnapshotRecord I A → Option Bytes
  unfolding encode_status
  encode (SnapshotRecord.alive node) = encode_status 0 node
  encode (SnapshotRecord.not_alive node) = encode_status 1 node
  encode (SnapshotRecord.clock t) = some (2 ∷ le_bytes 8 t)
  encode (SnapshotRecord.event_clock t) = some (3 ∷ le_bytes 8 t)
  encode (SnapshotRecord.query_clock t) = some (4 ∷ le_bytes 8 t)
  encode SnapshotRecord.coordinate = some (5 ∷ [])
  encode SnapshotRecord.leave = some (6 ∷ [])
  encode SnapshotRecord.comment = some (7 ∷ [])

  -- The number of bytes that `encode` returns: that of the bytes written, or what was expected.
  abbrev pub record_len : SnapshotRecord I A → ℕ
  record_len (SnapshotRecord.alive node) = 4 + 1 + codec.node_encoded_len node
  record_len (SnapshotRecord.not_alive node) = 4 + 1 + codec.node_encoded_len node
  record_len (SnapshotRecord.clock t) = 9
  record_len (SnapshotRecord.event_clock t) = 9
  record_len (SnapshotRecord.query_clock t) = 9
  record_len SnapshotRecord.coordinate = 1
  record_len SnapshotRecord.leave = 1
  record_len SnapshotRecord.comment = 1

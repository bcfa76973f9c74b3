-- ===== src/Snapshot/RoundTrip.antt =====
-- The records of a snapshot (core/src/snapshot.rs): what is read back from an encoded record.
use ruserf.Prelude.{
  ℕ, ◌^◌, ◌<◌, ◌≡◌, refl, sym, ap, ◌∙◌, some, [], ◌∷◌, ◌++◌, arith, length, value_unique,
}
use mathlib.Core.List.{append_assoc}
use ruserf.Types.{Bytes, Node, node_eq}
use ruserf.Serf.{Codec}
use ruserf.Snapshot.Bytes.{
  le_bytes, of_le_bytes, read_exact, length-le_bytes, of_le_bytes-le_bytes, read_exact-append,
}
use ruserf.Snapshot.Record.{record_type, SnapshotRecord, encode}
use ruserf.Snapshot.Replay.{read_node, read_time, read_body, read_record}
use ruserf.Snapshot.Read.{NodeCodec, Fits, encode_status_inv}

module _ {I A : Type 0} (codec : Codec I A) where
  read_exact_at : (n : ℕ) (xs ys : Bytes) → length xs ≡ n → read_exact n (xs ++ ys) ≡ some (xs, ys)
  read_exact_at n xs ys h = rw (← h) (read_exact-append xs ys)

  -- A time is read back, and what follows is left.
  read_time-le_bytes :
      (make : ℕ → SnapshotRecord I A) (t : ℕ) (rest : Bytes)
      → t < 256 ^ 8
      → read_time codec make (le_bytes 8 t ++ rest) ≡ some (make t, rest)
  unfolding read_time
  read_time-le_bytes make t rest h =
      rw
        (
          read_exact_at 8 (le_bytes 8 t) rest (length-le_bytes 8 t),
          read_time,
          of_le_bytes-le_bytes 8 t h,
        )
        refl

  read_node_at :
      (make : Node I A → SnapshotRecord I A) (start body rest : Bytes) (k : ℕ) (node : Node I A)
      → length start ≡ 4
      → of_le_bytes start ≡ length body
      → codec.decode_node body ≡ some (k, node)
      → read_node codec make (start ++ body ++ rest) ≡ some (make node, rest)
  unfolding read_node
  read_node_at make start body rest k node four size back =
      let first : read_exact 4 (start ++ body ++ rest) ≡ some (start, body ++ rest) =
        ap (read_exact 4) (append_assoc start body rest)
        ∙ read_exact_at 4 start (body ++ rest) four in
      let second = read_exact_at (of_le_bytes start) body rest (sym size) in
      rw (first, read_node) (rw (second) (rw back refl))

  -- A record that was encoded is read back, and what follows is left.
  pub read_record-encode :
      (laws : NodeCodec codec) (rec : SnapshotRecord I A) (bytes rest : Bytes)
      → Fits rec
      → encode codec rec ≡ some bytes
      → (b : ℕ) × (tail : Bytes) × (bytes ≡ b ∷ tail)
        × (read_record codec b (tail ++ rest) ≡ some (rec, rest))
  unfolding encode read_record read_body
  read_record-encode laws (SnapshotRecord.alive node) bytes rest h e =
      let (body, good, small, same) = encode_status_inv codec laws 0 node bytes e in
      (
        0,
        le_bytes 4 (length body) ++ body,
        same,
        unfold record_type in
            read_node_at SnapshotRecord.alive (le_bytes 4 (length body)) body rest (length body)
              node (length-le_bytes 4 (length body))
              (of_le_bytes-le_bytes 4 (length body) (omega arith)) (laws.decoded node body good),
      )
  read_record-encode laws (SnapshotRecord.not_alive node) bytes rest h e =
      let (body, good, small, same) = encode_status_inv codec laws 1 node bytes e in
      (
        1,
        le_bytes 4 (length body) ++ body,
        same,
        unfold record_type in
            read_node_at SnapshotRecord.not_alive (le_bytes 4 (length body)) body rest (length body)
              node (length-le_bytes 4 (length body))
              (of_le_bytes-le_bytes 4 (length body) (omega arith)) (laws.decoded node body good),
      )
  read_record-encode laws (SnapshotRecord.clock t) bytes rest h e = (
    2,
    le_bytes 8 t,
    value_unique _ bytes _ e refl,
    unfold record_type in read_time-le_bytes SnapshotRecord.clock t rest h,
  )
  read_record-encode laws (SnapshotRecord.event_clock t) bytes rest h e = (
    3,
    le_bytes 8 t,
    value_unique _ bytes _ e refl,
    unfold record_type in read_time-le_bytes SnapshotRecord.event_clock t rest h,
  )
  read_record-encode laws (SnapshotRecord.query_clock t) bytes rest h e = (
    4,
    le_bytes 8 t,
    value_unique _ bytes _ e refl,
    unfold record_type in read_time-le_bytes SnapshotRecord.query_clock t rest h,
  )
  read_record-encode laws SnapshotRecord.coordinate bytes rest h e =
      (5, [], value_unique _ bytes _ e refl, unfold record_type in refl)
  read_record-encode laws SnapshotRecord.leave bytes rest h e =
      (6, [], value_unique _ bytes _ e refl, unfold record_type in refl)
  read_record-encode laws SnapshotRecord.comment bytes rest h e =
      (7, [], value_unique _ bytes _ e refl, unfold record_type in refl)

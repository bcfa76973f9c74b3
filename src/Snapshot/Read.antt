-- ===== src/Snapshot/Read.antt =====
-- Reading back what the snapshot writes (core/src/snapshot.rs): the records, the loop over a file,
-- and files put together. `NodeCodec` is what the code relies on of the user's node encoder.
use ruserf.Prelude.{
  ℕ, suc, ◌+◌, ◌-◌, ◌%◌, ◌^◌, ◌≤◌, ◌<◌, ◌≡◌, refl, sym, ap, true, false, none, some, ◌∷◌, ◌++◌,
  arith, leb, length, take, replicate, if◌then◌else◌, leb→le, not-leb→lt, value_unique, Bool-cases,
  Option-cases, inl, inr, length-append,
}
use mathlib.Core.List.{append_assoc}
use ruserf.Types.{Bytes, Node, node_eq}
use ruserf.Serf.{Codec}
use ruserf.Snapshot.Bytes.{le_bytes, take-append}
use ruserf.Snapshot.Record.{SnapshotRecord, max_inlined_bytes, encode_node_into, encode_status}

-- An encoded node is decoded to the node, and its length is what the encoder announces.
pub record NodeCodec {I A : Type 0} (codec : Codec I A) : Type 0 where
  pub decoded :
      (node : Node I A) (bytes : Bytes)
      → codec.encode_node node ≡ some bytes
      → codec.decode_node bytes ≡ some (length bytes, node)
  pub measured :
      (node : Node I A) (bytes : Bytes)
      → codec.encode_node node ≡ some bytes
      → codec.node_encoded_len node ≡ length bytes

module _ {I A : Type 0} where
  -- The times of a record are u64.
  abbrev pub Fits : SnapshotRecord I A → Type 0
  Fits (SnapshotRecord.clock t) = t < 256 ^ 8
  Fits (SnapshotRecord.event_clock t) = t < 256 ^ 8
  Fits (SnapshotRecord.query_clock t) = t < 256 ^ 8
  Fits _ = Unit

-- `take` of a header, a body of known length and padding.
take-header :
    (x : ℕ) (h b pad : Bytes) → take (suc (length h + length b)) (x ∷ h ++ (b ++ pad)) ≡ x ∷ h ++ b
take-header x h b pad =
    let same : length h + length b ≡ length (h ++ b) = sym (length-append h b) in
    rw (same, ← append_assoc h b pad, take-append (h ++ b) pad) refl

module _ {I A : Type 0} (codec : Codec I A) (laws : NodeCodec codec) where
  encode_node_into_lem :
      (room : ℕ) (node : Node I A) (body : Bytes)
      → codec.encode_node node ≡ some body
      → encode_node_into codec room node
        ≡ (if leb (length body) room then some (body ++ replicate (room - length body) 0) else none)
  unfolding encode_node_into
  encode_node_into_lem room node body good = rw (good, encode_node_into) refl

  -- A node of at most 59 encoded bytes is written as its status, its length and its bytes.
  pub encode_status_short :
      (status : ℕ) (node : Node I A) (body : Bytes)
      → codec.encode_node node ≡ some body
      → length body ≤ 59
      → encode_status codec status node ≡ some (status ∷ le_bytes 4 (length body) ++ body)
  unfolding encode_status
  encode_status_short status node body good small =
      let n = laws.measured node body good in
      let pad : Bytes = replicate (59 - length body) 0 in
      let fits : leb (4 + 1 + codec.node_encoded_len node) max_inlined_bytes ≡ true =
        ground arith in
      let room = encode_node_into_lem 59 node body good in
      let wide : leb (length body) 59 ≡ true = ground arith in
      let narrow : codec.node_encoded_len node % 4294967296 ≡ length body = omega arith in
      let size : 4 + 1 + codec.node_encoded_len node
          ≡ suc (length (le_bytes 4 (length body)) + length body) =
        omega arith in
      rw (fits, room, wide, encode_status)
        (rw (narrow, size) (ap some (take-header status (le_bytes 4 (length body)) body pad)))

  -- A node of more than 59 encoded bytes cannot be written to the snapshot: the buffer holds the header
  -- alone.
  pub encode_status_long :
      (status : ℕ) (node : Node I A) (body : Bytes)
      → codec.encode_node node ≡ some body
      → 59 < length body
      → encode_status codec status node ≡ none
  unfolding encode_status
  encode_status_long status node body good big =
      let n = laws.measured node body good in
      let over : leb (4 + 1 + codec.node_encoded_len node) max_inlined_bytes ≡ false =
        ground arith in
      let tight : leb (length body) 5 ≡ false = ground arith in
      rw (over, encode_node_into_lem 5 node body good, tight, encode_status) refl

  pub encode_status_inv :
      (status : ℕ) (node : Node I A) (bytes : Bytes)
      → encode_status codec status node ≡ some bytes
      → (body : Bytes) × (codec.encode_node node ≡ some body)
        × (length body ≤ 59)
        × (bytes ≡ status ∷ le_bytes 4 (length body) ++ body)
  unfolding encode_status encode_node_into
  encode_status_inv status node bytes h = elim (Option-cases (codec.encode_node node)) [
    | inl bad ↦ absurd (ground arith)
    | inr (body, good) ↦ elim (Bool-cases (leb (length body) 59)) [
      | inl small ↦
          let short =
            encode_status_short status node body good
              (omega (arith, leb→le (length body) 59 small)) in
          (body, good, leb→le (length body) 59 small, value_unique _ bytes _ h short)
      | inr big ↦
          let long = encode_status_long status node body good (not-leb→lt (length body) 59 big) in
          absurd (ground arith)
    ]
  ]

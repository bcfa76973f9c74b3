-- ===== src/Tests/Snapshots.antt =====
-- The snapshot's theorems at concrete inputs.
use ruserf.Prelude.{
  ℕ, ◌≡◌, refl, true, false, Option, none, some, List, [], ◌∷◌, ◌++◌, arith, nat_eq, value_unique,
  replicate,
}
use ruserf.Types.{Bytes, Node, MemberEventType, CrateEvent, node_eq, node_beq_iff}
use ruserf.Serf.{Codec}
use ruserf.Snapshot.Record.{SnapshotRecord, encode, encode_status}
use ruserf.Snapshot.Replay.{empty_replay, read_record, replay_loop, replay}
use ruserf.Snapshot.Writer.{Snapshot, compact, from_replay_result}
use ruserf.Snapshot.Read.{NodeCodec, encode_status_long}
use ruserf.Snapshot.RoundTrip.{read_record-encode}
use ruserf.Snapshot.Compaction.{IsValid, state_of, compact-replay}
use ruserf.Snapshot.Mirror.{Mirrors}
use ruserf.Snapshot.Run.{Input, stream, stream-Mirrors}
use ruserf.Tests.{plain, plain_laws, node_of}
use ruserf.Tests.Queries.{member}

read_record-encode_example :
    (b : ℕ) × (tail : Bytes) × (0 ∷ 2 ∷ 0 ∷ 0 ∷ 0 ∷ 3 ∷ 3 ∷ [] ≡ b ∷ tail)
    × (read_record plain b (tail ++ 6 ∷ []) ≡ some (SnapshotRecord.alive (node_of 3), 6 ∷ []))
read_record-encode_example =
    read_record-encode plain plain_laws (SnapshotRecord.alive (node_of 3))
      (0 ∷ 2 ∷ 0 ∷ 0 ∷ 0 ∷ 3 ∷ 3 ∷ []) (6 ∷ []) tt (unfold encode in refl)

-- Nodes of sixty bytes.
abbrev decode_wide : Bytes → Option (ℕ × Node ℕ ℕ)
decode_wide [] = none
decode_wide (x ∷ []) = none
decode_wide (x ∷ y ∷ rest) = some (60, record { id = x; address = y })

abbrev wide : Codec ℕ ℕ
wide = record plain {
  encode_node = λ n. some (n.id ∷ n.address ∷ replicate 58 0);
  node_encoded_len = λ n. 60;
  decode_node = decode_wide;
}

wide_laws : NodeCodec wide
wide_laws = record {
  decoded = λ n bytes h.
      let same = value_unique _ bytes (n.id ∷ n.address ∷ replicate 58 0) h refl in rw same refl;
  measured = λ n bytes h.
      let same = value_unique _ bytes (n.id ∷ n.address ∷ replicate 58 0) h refl in rw same refl;
}

encode_status_long_example : encode_status wide 0 (node_of 3) ≡ none
encode_status_long_example =
    encode_status_long wide wide_laws 0 (node_of 3) (3 ∷ 3 ∷ replicate 58 0) refl (omega arith)

abbrev early : Snapshot ℕ ℕ
early = from_replay_result empty_replay [] 100 0 false

early-IsValid : IsValid plain early
early-IsValid = record {
  distinct = λ n. omega arith;
  short = tt;
  clock_fits = omega arith;
  event_clock_fits = omega arith;
  query_clock_fits = omega arith;
}

abbrev days : List (Input ℕ ℕ)
days =
    Input.event 1 3
      (CrateEvent.member (record { ty = MemberEventType.join; members = member 2 ∷ member 3 ∷ [] }))
    ∷ Input.event 2 5
        (CrateEvent.member (record { ty = MemberEventType.failed; members = member 2 ∷ [] }))
    ∷ Input.tick 3 9
    ∷ Input.leave 4
    ∷ []

stream-Mirrors_example : Mirrors plain (stream plain days early)
stream-Mirrors_example =
    stream-Mirrors plain plain_laws [] empty_replay 100 0 false days (unfold replay_loop in refl)
      early-IsValid
      (
        ((omega arith), ((_, refl, omega arith), ((_, refl, omega arith), tt))),
        ((omega arith, ((_, refl, omega arith), tt)), (omega arith, (tt, tt))),
      )

abbrev written : Snapshot ℕ ℕ
written = record early {
  alive_nodes = node_of 2 ∷ node_of 3 ∷ [];
  last_clock = 8;
  last_event_clock = 2;
}

written-IsValid : IsValid plain written
written-IsValid = record {
  distinct = λ n. ground (arith, node_beq_iff (node_of 2) n, node_beq_iff (node_of 3) n);
  short = ((_, refl, omega arith), ((_, refl, omega arith), tt));
  clock_fits = omega arith;
  event_clock_fits = omega arith;
  query_clock_fits = omega arith;
}

compact-replay_example :
    (file : Bytes) × (offset : ℕ) × (compact plain written
      ≡ (record written { file = file; offset = offset }, true))
    × (replay plain false file ≡ some (state_of plain written))
compact-replay_example = compact-replay plain plain_laws written written-IsValid

-- ===== src/Snapshot/Files.antt =====
-- Files of snapshot records put one after the other (core/src/snapshot.rs,
-- `open_and_replay_snapshot`), and the loop's fuel.
use ruserf.Prelude.{
  ℕ, zero, suc, ◌≤◌, ◌≡◌, refl, sym, ap, ◌∙◌, Bool, false, Option, some, List, [], ◌∷◌, ◌++◌, arith,
  Eq, ltb, not-ltb→le, length, take, drop, All, value_unique, Bool-cases, Option-cases, inl, inr,
  length-append,
}
use mathlib.Core.List.{append-nil}
use ruserf.Types.{Bytes, Node, node_eq}
use ruserf.Serf.{Codec}
use ruserf.Snapshot.Bytes.{of_le_bytes, read_exact}
use ruserf.Snapshot.Record.{SnapshotRecordType, record_type, SnapshotRecord, encode}
use ruserf.Snapshot.Replay.{
  ReplayResult, empty_replay, apply, read_node, read_time, read_body, read_record, replay_loop,
  replay,
}
use ruserf.Snapshot.Writer.{encode_all}
use ruserf.Snapshot.Read.{NodeCodec, Fits}
use ruserf.Snapshot.RoundTrip.{read_record-encode}

take-more : (n : ℕ) (bytes more : Bytes) → n ≤ length bytes → take n (bytes ++ more) ≡ take n bytes
take-more zero bytes more h = refl
take-more (suc n) [] more h = absurd (omega arith)
take-more (suc n) (b ∷ bytes) more h = ap (λ l. b ∷ l) (take-more n bytes more (omega arith))

drop-more :
    (n : ℕ) (bytes more : Bytes)
    → n ≤ length bytes
    → (drop n (bytes ++ more) ≡ drop n bytes ++ more) × (length (drop n bytes) ≤ length bytes)
drop-more zero bytes more h = (refl, omega arith)
drop-more (suc n) [] more h = absurd (omega arith)
drop-more (suc n) (b ∷ bytes) more h =
    let (same, short) = drop-more n bytes more (omega arith) in (same, omega arith)

read_exact-more :
    (n : ℕ) (bytes more : Bytes) (r : Bytes × Bytes)
    → read_exact n bytes ≡ some r
    → (read_exact n (bytes ++ more) ≡ some (r.0, r.1 ++ more)) × (length r.1 ≤ length bytes)
read_exact-more n bytes more r h = elim (Bool-cases (ltb (length bytes) n)) [
  | inl short ↦ absurd (ground arith)
  | inr enough ↦
      let le = not-ltb→le (length bytes) n enough in
      let (dropped, small) = drop-more n bytes more le in
      let same =
        value_unique (read_exact n bytes) r (take n bytes, drop n bytes) h (rw enough refl) in
      let enough' : ltb (length (bytes ++ more)) n ≡ false =
        ground (arith, length-append bytes more) in
      rw same (rw (enough', take-more n bytes more le, dropped) refl, small)
]

module _ {I A : Type 0} where
  -- What a reader takes does not depend on what follows, and what is left is not longer.
  abbrev Reads : (Bytes → Option (SnapshotRecord I A × Bytes)) → Type 0
  Reads read =
      (bytes more : Bytes) (r : SnapshotRecord I A × Bytes)
      → read bytes ≡ some r
      → (read (bytes ++ more) ≡ some (r.0, r.1 ++ more)) × (length r.1 ≤ length bytes)

module _ {I A : Type 0} (codec : Codec I A) where
  constant-Reads : (rec : SnapshotRecord I A) → Reads (λ bytes. some (rec, bytes))
  constant-Reads rec bytes more r h =
      let same = value_unique _ r (rec, bytes) h refl in rw same (refl, omega arith)

  read_time-Reads : (make : ℕ → SnapshotRecord I A) → Reads (read_time codec make)
  unfolding read_time
  read_time-Reads make bytes more r h = elim (Option-cases (read_exact 8 bytes)) [
    | inl short ↦ absurd (ground arith)
    | inr ((t, rest), found) ↦
        let (again, small) = read_exact-more 8 bytes more (t, rest) found in
        let same =
          value_unique (read_time codec make bytes) r (make (of_le_bytes t), rest) h
            (rw (found, read_time) refl) in
        rw same (rw (again, read_time) refl, small)
  ]

  read_node-Reads : (make : Node I A → SnapshotRecord I A) → Reads (read_node codec make)
  unfolding read_node
  read_node-Reads make bytes more r h = elim (Option-cases (read_exact 4 bytes)) [
    | inl short ↦ absurd (ground arith)
    | inr ((len, rest), found) ↦ elim (Option-cases (read_exact (of_le_bytes len) rest)) [
      | inl short ↦ absurd (ground arith)
      | inr ((buf, rest'), found') ↦ elim (Option-cases (codec.decode_node buf)) [
        | inl bad ↦ absurd (ground arith)
        | inr ((k, node), good) ↦
            let (again, small) = read_exact-more 4 bytes more (len, rest) found in
            let (again', small') =
              read_exact-more (of_le_bytes len) rest more (buf, rest') found' in
            let same =
              value_unique (read_node codec make bytes) r (make node, rest') h
                (rw (found, read_node) (rw found' (rw good refl))) in
            rw same (rw (again, read_node) (rw again' (rw good refl)), omega arith)
      ]
    ]
  ]

  read_body-Reads : (kind : SnapshotRecordType) → Reads (read_body codec kind)
  unfolding read_body
  read_body-Reads SnapshotRecordType.alive = read_node-Reads SnapshotRecord.alive
  read_body-Reads SnapshotRecordType.not_alive = read_node-Reads SnapshotRecord.not_alive
  read_body-Reads SnapshotRecordType.clock = read_time-Reads SnapshotRecord.clock
  read_body-Reads SnapshotRecordType.event_clock = read_time-Reads SnapshotRecord.event_clock
  read_body-Reads SnapshotRecordType.query_clock = read_time-Reads SnapshotRecord.query_clock
  read_body-Reads SnapshotRecordType.coordinate = constant-Reads SnapshotRecord.coordinate
  read_body-Reads SnapshotRecordType.leave = constant-Reads SnapshotRecord.leave
  read_body-Reads SnapshotRecordType.comment = constant-Reads SnapshotRecord.comment

  read_record-Reads : (b : ℕ) → Reads (read_record codec b)
  unfolding read_record
  read_record-Reads b bytes more r h = elim (Option-cases (record_type b)) [
    | inl unknown ↦ absurd (ground arith)
    | inr (kind, known) ↦
        let body : read_record codec b bytes ≡ read_body codec kind bytes =
          rw (known, read_record) refl in
        rw (known, read_record) (read_body-Reads kind bytes more r (sym body ∙ h))
  ]

module _ {I A : Type 0} (codec : Codec I A) ⦃e : Eq I⦄ ⦃a : Eq A⦄ (rejoin : Bool) where
  -- Any fuel that is enough gives the same.
  replay_fuel :
      (f f' : ℕ) (bytes : Bytes) (r : ReplayResult I A)
      → length bytes ≤ f
      → length bytes ≤ f'
      → replay_loop codec rejoin f bytes r ≡ replay_loop codec rejoin f' bytes r
  unfolding replay_loop
  replay_fuel f f' [] r h h' = refl
  replay_fuel zero f' (b ∷ bytes) r h h' = absurd (omega arith)
  replay_fuel (suc f) zero (b ∷ bytes) r h h' = absurd (omega arith)
  replay_fuel (suc f) (suc f') (b ∷ bytes) r h h' =
      elim (Option-cases (read_record codec b bytes)) [
        | inl bad ↦ rw (bad, replay_loop) refl
        | inr ((rec, rest), good) ↦
            let (_, small) = read_record-Reads codec b bytes [] (rec, rest) good in
            rw (good, replay_loop)
              (replay_fuel f f' rest (apply rejoin rec r) (omega arith) (omega arith))
      ]

  -- A file that replays, followed by more, replays as the rest does from there.
  pub replay-append :
      (f f' : ℕ) (xs ys : Bytes) (r r' : ReplayResult I A)
      → replay_loop codec rejoin f xs r ≡ some r'
      → length (xs ++ ys) ≤ f'
      → replay_loop codec rejoin f' (xs ++ ys) r ≡ replay_loop codec rejoin (length ys) ys r'
  unfolding replay_loop
  replay-append f f' [] ys r r' h enough =
      let same = value_unique _ r r' (refl) h in
      rw (← same) (replay_fuel f' (length ys) ys r enough (omega arith))
  replay-append zero f' (b ∷ xs) ys r r' h enough = absurd (ground arith)
  replay-append (suc f) zero (b ∷ xs) ys r r' h enough = absurd (omega arith)
  replay-append (suc f) (suc f') (b ∷ xs) ys r r' h enough =
      elim (Option-cases (read_record codec b xs)) [
        | inl bad ↦ absurd (ground arith)
        | inr ((rec, rest), good) ↦
            let (again, small) = read_record-Reads codec b xs ys (rec, rest) good in
            let unrolled : replay_loop codec rejoin (suc f) (b ∷ xs) r
                ≡ replay_loop codec rejoin f rest (apply rejoin rec r) =
              rw (good, replay_loop) refl in
            rw (again, replay_loop)
              (replay-append f f' rest ys (apply rejoin rec r) r' (sym unrolled ∙ h)
                (omega (arith, length-append xs ys, length-append rest ys)))
      ]

  -- An encoded record replays as its effect, before any rest.
  replay-encode :
      (laws : NodeCodec codec) (rec : SnapshotRecord I A) (bytes rest : Bytes)
      (r : ReplayResult I A)
      → Fits rec
      → encode codec rec ≡ some bytes
      → replay_loop codec rejoin (length (bytes ++ rest)) (bytes ++ rest) r
        ≡ replay_loop codec rejoin (length rest) rest (apply rejoin rec r)
  unfolding replay_loop
  replay-encode laws rec bytes rest r h e =
      let (b, tail, same, back) = read_record-encode codec laws rec bytes rest h e in
      rw same (
        rw (back, replay_loop)
          (replay_fuel (length (tail ++ rest)) (length rest) rest (apply rejoin rec r)
            (omega (arith, length-append tail rest)) (omega arith)))

  abbrev pub apply_all : List (SnapshotRecord I A) → ReplayResult I A → ReplayResult I A
  apply_all [] r = r
  apply_all (rec ∷ recs) r = apply_all recs (apply rejoin rec r)

  -- Records encoded one after the other replay as their effects, in order.
  pub replay-encode_all :
      (laws : NodeCodec codec) (recs : List (SnapshotRecord I A)) (bytes : Bytes)
      (r : ReplayResult I A)
      → All Fits recs
      → encode_all codec recs ≡ some bytes
      → replay_loop codec rejoin (length bytes) bytes r ≡ some (apply_all recs r)
  unfolding replay_loop encode_all
  replay-encode_all laws [] bytes r h e = let same = value_unique _ bytes [] e refl in rw same refl
  replay-encode_all laws (rec ∷ recs) bytes r h e = elim (Option-cases (encode codec rec)) [
    | inl bad ↦ absurd (ground arith)
    | inr (first, good) ↦ elim (Option-cases (encode_all codec recs)) [
      | inl bad ↦ absurd (ground arith)
      | inr (rest, good') ↦
          let whole : encode_all codec (rec ∷ recs) ≡ some (first ++ rest) =
            rw (good, good', encode_all) refl in
          let same = value_unique (encode_all codec (rec ∷ recs)) bytes (first ++ rest) e whole in
          rw same (
            replay-encode laws rec first rest r h.0 good
            ∙ replay-encode_all laws recs rest (apply rejoin rec r) h.1 good')
    ]
  ]

  -- A record appended to a file that replays adds its effect.
  pub replay-append_record :
      (laws : NodeCodec codec) (file bytes : Bytes) (rec : SnapshotRecord I A)
      (r : ReplayResult I A)
      → replay codec rejoin file ≡ some r
      → Fits rec
      → encode codec rec ≡ some bytes
      → replay codec rejoin (file ++ bytes) ≡ some (apply rejoin rec r)
  unfolding replay_loop
  replay-append_record laws file bytes rec r h fits e =
      let one = replay-encode laws rec bytes [] r fits e in
      replay-append (length file) (length (file ++ bytes)) file bytes empty_replay r h (omega arith)
      ∙ rw (← append-nil bytes) one

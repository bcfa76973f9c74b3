-- ===== src/Snapshot/Mirror.antt =====
-- The snapshot file mirrors what its writer keeps (core/src/snapshot.rs): every operation.
use ruserf.Prelude.{
  ℕ, ◌+◌, ◌≡◌, refl, Bool, true, false, not, ◌&&◌, some, ◌++◌, Eq, ltb, Bool-cases, inl, inr,
}
use ruserf.Types.{node_eq}
use ruserf.Serf.{Codec}
use ruserf.Snapshot.Record.{SnapshotRecord, record_len}
use ruserf.Snapshot.Replay.{ReplayResult, apply, replay}
use ruserf.Snapshot.Writer.{Snapshot, snapshot_max_size, compact, append_line, try_append}
use ruserf.Snapshot.Read.{NodeCodec, Fits}
use ruserf.Snapshot.Files.{replay-append_record}
use ruserf.Snapshot.Nodes.{Encodes}
use ruserf.Snapshot.Compaction.{IsValid, state_of, compact-replay}

module _ {I A : Type 0} ⦃e : Eq I⦄ ⦃a : Eq A⦄ (codec : Codec I A) where
  -- The node has left, and its leave counts at the next start.
  abbrev pub is_gone : Snapshot I A → Bool
  is_gone w = w.leaving && not w.rejoin_after_leave

  -- The file replays, to the live nodes that the writer keeps; and to its clocks, unless the node has
  -- left for good.
  pub record Mirrors (w : Snapshot I A) : Type 0 where
    pub valid : IsValid codec w
    pub found : ReplayResult I A
    pub replayed : replay codec w.rejoin_after_leave w.file ≡ some found
    pub nodes : found.alive_nodes ≡ w.alive_nodes
    pub exact : is_gone w ≡ false → found ≡ state_of codec w

  compacted-Mirrors :
      (laws : NodeCodec codec) (w : Snapshot I A)
      → IsValid codec w
      → Mirrors (compact codec w).0 × ((compact codec w).1 ≡ true)
  compacted-Mirrors laws w k =
      let (file, offset, same, back) = compact-replay codec laws w k in
      rw same (
        record {
          valid = record {
            distinct = k.distinct;
            short = k.short;
            clock_fits = k.clock_fits;
            event_clock_fits = k.event_clock_fits;
            query_clock_fits = k.query_clock_fits;
          };
          found = state_of codec w;
          replayed = back;
          nodes = refl;
          exact = λ h. refl;
        },
        refl,
      )

  -- Appending a record to the file of a writer whose state has the record's effect already.
  pub append_line-Mirrors :
      (laws : NodeCodec codec) (rec : SnapshotRecord I A) (w : Snapshot I A) (r : ReplayResult I A)
      → IsValid codec w
      → Fits rec
      → Encodes codec rec
      → replay codec w.rejoin_after_leave w.file ≡ some r
      → (apply w.rejoin_after_leave rec r).alive_nodes ≡ w.alive_nodes
      → (is_gone w ≡ false → apply w.rejoin_after_leave rec r ≡ state_of codec w)
      → Mirrors (append_line codec rec w).0 × ((append_line codec rec w).1 ≡ true)
  unfolding append_line
  append_line-Mirrors laws rec w r k fits (bytes, good) back nodes exact =
      let w' : Snapshot I A = record w {
        file = w.file ++ bytes;
        offset = w.offset + record_len codec rec;
      } in
      let k' : IsValid codec w' = record {
        distinct = k.distinct;
        short = k.short;
        clock_fits = k.clock_fits;
        event_clock_fits = k.event_clock_fits;
        query_clock_fits = k.query_clock_fits;
      } in
      elim (Bool-cases (ltb (snapshot_max_size w') w'.offset)) [
        | inl large ↦ rw (good, large, append_line) (compacted-Mirrors laws w' k')
        | inr small ↦
            rw (good, small, append_line)
              (
                record {
                  valid = k';
                  found = apply w.rejoin_after_leave rec r;
                  replayed =
                      replay-append_record codec w.rejoin_after_leave laws w.file bytes rec r back
                        fits good;
                  nodes = nodes;
                  exact = exact;
                },
                refl,
              )
      ]

  pub try_append-Mirrors :
      (laws : NodeCodec codec) (now : ℕ) (rec : SnapshotRecord I A) (w : Snapshot I A)
      (r : ReplayResult I A)
      → IsValid codec w
      → Fits rec
      → Encodes codec rec
      → replay codec w.rejoin_after_leave w.file ≡ some r
      → (apply w.rejoin_after_leave rec r).alive_nodes ≡ w.alive_nodes
      → (is_gone w ≡ false → apply w.rejoin_after_leave rec r ≡ state_of codec w)
      → Mirrors (try_append codec now rec w)
  unfolding try_append
  try_append-Mirrors laws now rec w r k fits enc back nodes exact =
      let (m, ok) = append_line-Mirrors laws rec w r k fits enc back nodes exact in
      rw (ok, try_append) m

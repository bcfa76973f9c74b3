-- ===== src/Snapshot/Compaction.antt =====
-- Compaction of the snapshot (core/src/snapshot.rs, `compact`): its file replays to what the writer
-- keeps.
use ruserf.Prelude.{
  ℕ, ◌<◌, ◌^◌, ◌≡◌, refl, ap, ◌∙◌, Bool, true, some, List, [], ◌∷◌, ◌++◌, Eq, All, IsDistinct,
}
use mathlib.Core.List.{append_assoc, append-nil}
use ruserf.Types.{Node, node_eq}
use ruserf.Serf.{Codec}
use ruserf.Snapshot.Record.{SnapshotRecord, encode}
use ruserf.Snapshot.Replay.{ReplayResult, empty_replay, apply, replay_loop, replay}
use ruserf.Snapshot.Writer.{Snapshot, alive_records, compacted_records, records_len, compact}
use ruserf.Snapshot.Read.{NodeCodec}
use ruserf.Snapshot.Files.{apply_all, replay-encode_all}
use ruserf.Snapshot.Nodes.{
  IsShort, Encodes, distinct-new, encode_all-some, alive_records-Encodes, alive_records-Fits,
}

module _ {I A : Type 0} ⦃e : Eq I⦄ ⦃a : Eq A⦄ (codec : Codec I A) where
  apply_all-alive_records :
      (rejoin : Bool) (ns : List (Node I A)) (after : List (SnapshotRecord I A))
      (r : ReplayResult I A)
      → IsDistinct (r.alive_nodes ++ ns)
      → apply_all codec rejoin (alive_records codec ns after) r
        ≡ apply_all codec rejoin after (record r { alive_nodes = r.alive_nodes ++ ns })
  apply_all-alive_records rejoin [] after r h = rw (append-nil r.alive_nodes) refl
  apply_all-alive_records rejoin (n ∷ ns) after r h =
      let new = distinct-new n r.alive_nodes ns h in
      let inserted : apply rejoin (SnapshotRecord.alive n) r
          ≡ record r { alive_nodes = r.alive_nodes ++ n ∷ [] } =
        rw new refl in
      ap (apply_all codec rejoin (alive_records codec ns after)) inserted
      ∙ apply_all-alive_records rejoin ns after (record r { alive_nodes = r.alive_nodes ++ n ∷ [] })
          (rw (append_assoc r.alive_nodes (n ∷ []) ns) h)
      ∙ ap (λ l. apply_all codec rejoin after (record r { alive_nodes = l }))
          (append_assoc r.alive_nodes (n ∷ []) ns)

  -- What the writer keeps, as a replay would find it.
  abbrev pub state_of : Snapshot I A → ReplayResult I A
  state_of w = record {
    alive_nodes = w.alive_nodes;
    last_clock = w.last_clock;
    last_event_clock = w.last_event_clock;
    last_query_clock = w.last_query_clock;
  }

  -- The writer's state is one that it can save: distinct nodes with records, and u64 times.
  pub record IsValid (w : Snapshot I A) : Type 0 where
    pub distinct : IsDistinct w.alive_nodes
    pub short : All (IsShort codec) w.alive_nodes
    pub clock_fits : w.last_clock < 256 ^ 8
    pub event_clock_fits : w.last_event_clock < 256 ^ 8
    pub query_clock_fits : w.last_query_clock < 256 ^ 8

  -- The file of a compacted snapshot replays to the writer's state exactly, and a compaction of a
  -- valid state succeeds and changes nothing but the file and its length.
  pub compact-replay :
      (laws : NodeCodec codec) (w : Snapshot I A)
      → IsValid w
      → (file : List ℕ) × (offset : ℕ) × (compact codec w
          ≡ (record w { file = file; offset = offset }, true))
        × (replay codec w.rejoin_after_leave file ≡ some (state_of w))
  unfolding compact replay_loop
  compact-replay laws w k =
      let times : List (SnapshotRecord I A) =
        SnapshotRecord.clock w.last_clock
        ∷ SnapshotRecord.event_clock w.last_event_clock
        ∷ SnapshotRecord.query_clock w.last_query_clock
        ∷ [] in
      let clocks : All (Encodes codec) times =
        unfold encode in ((_, refl), ((_, refl), ((_, refl), tt))) in
      let (bytes, good) =
        encode_all-some codec (compacted_records codec w)
          (alive_records-Encodes codec laws w.alive_nodes times k.short clocks) in
      let back =
        replay-encode_all codec w.rejoin_after_leave laws (compacted_records codec w) bytes
          empty_replay
          (alive_records-Fits codec w.alive_nodes times
            (k.clock_fits, (k.event_clock_fits, (k.query_clock_fits, tt))))
          good in
      (
        bytes,
        records_len codec (compacted_records codec w),
        rw (good, compact) refl,
        back
            ∙ ap some (
                apply_all-alive_records w.rejoin_after_leave w.alive_nodes times empty_replay
                  k.distinct),
      )

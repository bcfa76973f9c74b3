-- ===== src/Snapshot/Run.antt =====
-- The loop of the snapshot's stream (core/src/snapshot.rs, `stream`), on a sequence of what it
-- receives. An event after a leave ends the loop.
use ruserf.Prelude.{
  ℕ, ◌<◌, ◌^◌, ◌≡◌, refl, Bool, some, List, [], ◌∷◌, arith, Eq, All, if◌then◌else◌, Bool-cases, inl,
  inr,
}
use ruserf.Types.{Bytes, CrateEvent, node_eq}
use ruserf.Serf.{Codec}
use ruserf.Snapshot.Replay.{ReplayResult, replay}
use ruserf.Snapshot.Writer.{Snapshot, from_replay_result, update_clock, handle_leave, process_event}
use ruserf.Snapshot.Read.{NodeCodec}
use ruserf.Snapshot.Compaction.{IsValid}
use ruserf.Snapshot.Mirror.{Mirrors}
use ruserf.Snapshot.Stream.{
  update_clock-Mirrors, handle_leave-Mirrors, IsRecordable, process_event-Mirrors,
}

-- What the loop receives: each with the time of the receipt, and what the Lamport clock reads.
pub data Input (I A : Type 0) : Type 0 where
  leave : (now : ℕ) → Input I A
  event : (now time : ℕ) → CrateEvent I A → Input I A
  tick : (now time : ℕ) → Input I A

module _ {I A : Type 0} ⦃e : Eq I⦄ ⦃a : Eq A⦄ (codec : Codec I A) where
  unfoldable pub stream : List (Input I A) → Snapshot I A → Snapshot I A
  unfolding update_clock handle_leave process_event
  stream [] w = w
  stream (leave now ∷ inputs) w = stream inputs (handle_leave codec now w)
  stream (event now time ev ∷ inputs) w =
      let rest = stream inputs (process_event codec now time ev w) in if w.leaving then w else rest
  stream (tick now time ∷ inputs) w = stream inputs (update_clock codec now time w)

  -- An input's times are u64, and its members have records.
  abbrev pub IsFine : Input I A → Type 0
  IsFine (leave now) = Unit
  IsFine (event now time ev) = (time < 256 ^ 8) × IsRecordable codec ev
  IsFine (tick now time) = time < 256 ^ 8

  inputs-Mirrors :
      (laws : NodeCodec codec) (inputs : List (Input I A)) (w : Snapshot I A)
      → All IsFine inputs
      → Mirrors codec w
      → Mirrors codec (stream inputs w)
  unfolding stream
  inputs-Mirrors laws [] w h m = m
  inputs-Mirrors laws (leave now ∷ inputs) w h m =
      inputs-Mirrors laws inputs (handle_leave codec now w) h.1
        (handle_leave-Mirrors codec laws now w m)
  inputs-Mirrors laws (tick now time ∷ inputs) w h m =
      inputs-Mirrors laws inputs (update_clock codec now time w) h.1
        (update_clock-Mirrors codec laws now time w h.0 m)
  inputs-Mirrors laws (event now time ev ∷ inputs) w h m = elim (Bool-cases w.leaving) [
    | inl over ↦ let same : stream (event now time ev ∷ inputs) w ≡ w = ground arith in rw same m
    | inr on ↦
        let same : stream (event now time ev ∷ inputs) w
            ≡ stream inputs (process_event codec now time ev w) =
          ground arith in
        rw same (
          inputs-Mirrors laws inputs (process_event codec now time ev w) h.1
            (process_event-Mirrors codec laws now time ev w h.0.0 h.0.1 m))
  ]

  -- A snapshot that starts from a file that replays, to a state that can be saved, and receives any
  -- events, ticks and leaves: the file, appended to and compacted on the way, replays to the live
  -- nodes that the writer keeps, and to its clocks too unless the node has left for good. Provided:
  -- the encoder's laws, times within u64, and nodes of at most 59 encoded bytes.
  pub stream-Mirrors :
      (laws : NodeCodec codec) (file : Bytes) (r : ReplayResult I A) (min_size now : ℕ)
      (rejoin : Bool) (inputs : List (Input I A))
      → replay codec rejoin file ≡ some r
      → IsValid codec (from_replay_result r file min_size now rejoin)
      → All IsFine inputs
      → Mirrors codec (stream inputs (from_replay_result r file min_size now rejoin))
  stream-Mirrors laws file r min_size now rejoin inputs back k h =
      inputs-Mirrors laws inputs (from_replay_result r file min_size now rejoin) h
        record { valid = k; found = r; replayed = back; nodes = refl; exact = λ g. refl }

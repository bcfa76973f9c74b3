-- ===== src/Delegate/Merge.antt =====
-- `merge_remote_state` of core/src/serf/delegate.rs. `none` is a panic. The addition of 1 to a time
-- wraps at 2^64, as in a release build.
use ruserf.Prelude.{
  ℕ, ◌+◌, ◌-◌, ◌%◌, Bool, false, ◌&&◌, Option, none, some, List, [], ◌∷◌, ◌++◌, Eq, ltb, contains,
  lookup, if◌then◌else◌,
}
use ruserf.Types.{Bytes, MessageType, UserEvent, UserEvents, UserEventMessage, PushPullMessage}
use ruserf.Serf.{Serf, SerfMessage, Codec}
use ruserf.Clock.{u64_mod, witness}
use ruserf.Members.Join.{handle_node_join_intent}
use ruserf.Members.Leave.{handle_node_leave_intent}
use ruserf.Events.Once.{run}
use ruserf.Queries.Wire.{message_type}

-- A clock of the remote node is witnessed as one less, as no message has that time yet.
unfoldable pub witness_remote : ℕ → ℕ → ℕ
unfolding witness
witness_remote clock t = if ltb 0 t then witness clock (t - 1) else clock

-- The user events of the remote buffer, as messages.
abbrev event_messages : ℕ → List UserEvent → List UserEventMessage
event_messages ltime [] = []
event_messages ltime (ev ∷ evs) =
    record { ltime = ltime; name = ev.name; payload = ev.payload; cc = false }
    ∷ event_messages ltime evs

abbrev pub remote_events : List (Option UserEvents) → List UserEventMessage
remote_events [] = []
remote_events (none ∷ buffer) = remote_events buffer
remote_events (some slot ∷ buffer) = event_messages slot.ltime slot.events ++ remote_events buffer

module _ {I A : Type 0} where
  unfoldable pub witness_clocks : PushPullMessage I → Serf I A → Serf I A
  unfolding witness_remote
  witness_clocks pp s = record s {
    clock = witness_remote s.clock pp.ltime;
    event_clock = witness_remote s.event_clock pp.event_ltime;
    query_clock = witness_remote s.query_clock pp.query_ltime;
  }

  -- With `event_join_ignore`, a join raises the minimal time of user events.
  unfoldable pub ignore_older_events : ℕ → Bool → Serf I A → Serf I A
  ignore_older_events event_ltime is_join s =
      if is_join && s.event_join_ignore && ltb s.event_core.min_time event_ltime
      then record s { event_core = record s.event_core { min_time = event_ltime } }
      else s

module _ {I A : Type 0} ⦃e : Eq I⦄ (now : ℕ) where
  -- The nodes that have left, each one time unit past its status time.
  unfoldable pub merge_left : List I → List (I × ℕ) → Serf I A → Serf I A
  unfolding handle_node_leave_intent
  merge_left [] times s = s
  merge_left (id ∷ ids) times s = elim (lookup id times) [
    | none ↦ merge_left ids times s
    | some ltime ↦
        merge_left ids times
          (handle_node_leave_intent
            (record { ltime = (ltime + 1) % u64_mod; id = id; prune = false }) now s).0
  ]

  unfoldable pub merge_statuses : List I → List (I × ℕ) → Serf I A → Serf I A
  unfolding handle_node_join_intent
  merge_statuses left [] s = s
  merge_statuses left (x ∷ times) s =
      let skipped = merge_statuses left times s in
      let joined =
        merge_statuses left times
          (handle_node_join_intent (record { ltime = x.1; id = x.0 }) now s).0 in
      if contains x.0 left then skipped else joined

  -- What is done before the events are handled.
  unfoldable pub merge_members : PushPullMessage I → Bool → Serf I A → Serf I A
  unfolding witness_clocks merge_left merge_statuses ignore_older_events
  merge_members pp is_join s = ignore_older_events pp.event_ltime is_join (
      merge_statuses pp.left_members pp.status_ltimes
        (merge_left pp.left_members pp.status_ltimes (witness_clocks pp s)))

  unfoldable pub merge_push_pull : PushPullMessage I → Bool → Serf I A → Option (Serf I A)
  unfolding merge_members run
  merge_push_pull pp is_join s = run (remote_events pp.events) (merge_members pp is_join s)

  -- What the buffer decodes to; anything but a push/pull message is dropped.
  unfoldable pub merge_decoded : Bool → Option (SerfMessage I A) → Serf I A → Option (Serf I A)
  unfolding merge_push_pull
  merge_decoded is_join (some (SerfMessage.push_pull pp)) s = merge_push_pull pp is_join s
  merge_decoded is_join _ s = some s

  unfoldable pub merge_typed :
      Codec I A → Option MessageType → Bytes → Bool → Serf I A → Option (Serf I A)
  unfolding merge_decoded
  merge_typed codec (some MessageType.push_pull) body is_join s =
      if codec.message_panics MessageType.push_pull body
      then none
      else merge_decoded is_join (codec.decode_message MessageType.push_pull body) s
  merge_typed codec _ body is_join s = some s

  unfoldable pub merge_remote_state : Codec I A → Bytes → Bool → Serf I A → Option (Serf I A)
  unfolding message_type merge_typed
  merge_remote_state codec [] is_join s = some s
  merge_remote_state codec (b ∷ body) is_join s = merge_typed codec (message_type b) body is_join s

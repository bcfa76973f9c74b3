-- ===== src/Events/Handler.antt =====
-- `handle_user_event` of core/src/serf/base.rs. `none` is a panic: the remainder by an empty buffer's
-- length, or an index out of bounds. The result says whether to rebroadcast.
use ruserf.Prelude.{
  ℕ, ◌-◌, ◌%◌, Bool, true, false, ◌&&◌, Option, none, some, [], ◌∷◌, ◌++◌, ltb, length, get_elem?,
  set, contains, if◌then◌else◌,
}
use ruserf.Types.{UserEvent, UserEvents, UserEventMessage, CrateEvent, user_event_eq}
use ruserf.Serf.{Serf}
use ruserf.Clock.{witness}

abbrev pub to_user_event : UserEventMessage → UserEvent
to_user_event msg = record { name = msg.name; payload = msg.payload }

-- The time is more than the buffer's length behind the clock.
abbrev pub is_too_old : (cur_time bltime ltime : ℕ) → Bool
is_too_old cur_time bltime ltime = ltb bltime cur_time && ltb ltime (cur_time - bltime)

-- The slot with the event recorded in it; `none` if the event is there already.
unfoldable pub record_event : Option UserEvents → UserEventMessage → Option UserEvents
record_event none msg = some (record { ltime = msg.ltime; events = to_user_event msg ∷ [] })
record_event (some seen) msg =
    if contains (to_user_event msg) seen.events
    then none
    else some (record seen { events = seen.events ++ to_user_event msg ∷ [] })

module _ {I A : Type 0} where
  unfoldable pub handle_user_event : UserEventMessage → Serf I A → Option (Serf I A × Bool)
  unfolding witness record_event
  handle_user_event msg s0 =
      let s = record s0 { event_clock = witness s0.event_clock msg.ltime } in
      let el = s.event_core in
      let bltime = length el.buffer in
      if ltb msg.ltime el.min_time
      then some (s, false)
      else if is_too_old s.event_clock bltime msg.ltime
      then some (s, false)
      else elim (get_elem? el.buffer (msg.ltime % bltime)) [
        | none ↦ none
        | some seen ↦ elim (record_event seen msg) [
          | none ↦ some (s, false)
          | some slot ↦ some (
            record s {
              event_core = record el { buffer = set el.buffer (msg.ltime % bltime) (some slot) };
              events = s.events ++ CrateEvent.user msg ∷ [];
            },
            true,
          )
        ]
      ]

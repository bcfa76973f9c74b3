-- ===== src/Events/Slots.antt =====
-- The buffer of recent user events (core/src/serf/base.rs, `handle_user_event`): one step.
use ruserf.Prelude.{
  ℕ, ◌%◌, ◌<◌, ◌≡◌, refl, Bool, true, false, Option, none, some, List, [], ◌∷◌, ◌++◌, ltb, length,
  get_elem?, set, contains, arith, Bool-cases, inl, inr, get_elem?-some,
}
use ruserf.Types.{
  UserEvent, UserEvents, UserEventMessage, CrateEvent, user_event_eq, user_event_beq_iff,
}
use ruserf.Serf.{Serf}
use ruserf.Clock.{witness}
use ruserf.Events.Handler.{to_user_event, is_too_old, record_event, handle_user_event}

-- The event stands in the slot at the index.
abbrev pub IsSeen : UserEvent → ℕ → List (Option UserEvents) → Type 0
IsSeen ev idx buffer =
    (slot : UserEvents) × (get_elem? buffer idx ≡ some (some slot))
    × (contains ev slot.events ≡ true)

contains-append :
    (x : UserEvent) (xs ys : List UserEvent) → contains x xs ≡ true → contains x (xs ++ ys) ≡ true
contains-append x [] ys h = cc
contains-append x (y ∷ xs) ys h = ground (arith, contains-append x xs ys)

contains-push : (x : UserEvent) (xs : List UserEvent) → contains x (xs ++ x ∷ []) ≡ true
contains-push x [] = ground (arith, user_event_beq_iff x x)
contains-push x (y ∷ xs) = ground (arith, contains-push x xs)

-- Recording an event keeps what the slot holds, and adds the event.
pub record_event-contains :
    (seen : UserEvents) (msg : UserEventMessage) (slot : UserEvents) (ev : UserEvent)
    → record_event (some seen) msg ≡ some slot
    → contains ev seen.events ≡ true
    → contains ev slot.events ≡ true
unfolding record_event
record_event-contains seen msg slot ev h c =
    ground (arith, contains-append ev seen.events (to_user_event msg ∷ []) c)

pub record_event-contains_self :
    (seen : Option UserEvents) (msg : UserEventMessage) (slot : UserEvents)
    → record_event seen msg ≡ some slot
    → contains (to_user_event msg) slot.events ≡ true
unfolding record_event
record_event-contains_self none msg slot h =
    ground (arith, user_event_beq_iff (to_user_event msg) (to_user_event msg))
record_event-contains_self (some seen) msg slot h =
    ground (arith, contains-push (to_user_event msg) seen.events)

module _ {I A : Type 0} (msg : UserEventMessage) (s : Serf I A) where
  abbrev slot_of : ℕ
  slot_of = msg.ltime % length s.event_core.buffer

  abbrev witnessed : Serf I A
  witnessed = record s { event_clock = witness s.event_clock msg.ltime }

  abbrev stored : UserEvents → Serf I A
  stored slot = record witnessed {
    event_core = record s.event_core { buffer = set s.event_core.buffer slot_of (some slot) };
    events = s.events ++ CrateEvent.user msg ∷ [];
  }

  -- What a call can return: nothing but the clock has changed, or the event is recorded in its slot
  -- and delivered.
  pub data Outcome (r : Serf I A × Bool) : Type 0 where
    dropped : r ≡ (witnessed, false) → Outcome r
    delivered :
        (seen : Option UserEvents) (slot : UserEvents)
        → get_elem? s.event_core.buffer slot_of ≡ some seen
        → record_event seen msg ≡ some slot
        → r ≡ (stored slot, true)
        → Outcome r

  stored-Outcome :
      (seen : Option UserEvents) (o : Option UserEvents)
      → get_elem? s.event_core.buffer slot_of ≡ some seen
      → record_event seen msg ≡ o
      → Outcome (elim o [ none ↦ (witnessed, false) | some slot ↦ (stored slot, true) ])
  stored-Outcome seen none found e = dropped refl
  stored-Outcome seen (some slot) found e = delivered seen slot found e refl

  -- On a buffer with slots a call returns, with one of the outcomes.
  pub handle_user_event-Outcome :
      0 < length s.event_core.buffer
      → (r : Serf I A × Bool) × (handle_user_event msg s ≡ some r) × Outcome r
  unfolding handle_user_event
  handle_user_event-Outcome h =
      let (seen, found) = get_elem?-some s.event_core.buffer slot_of (omega arith) in
      elim (Bool-cases (ltb msg.ltime s.event_core.min_time)) [
        | inl early ↦ ((witnessed, false), rw (early, handle_user_event) refl, dropped refl)
        | inr timely ↦
            elim (Bool-cases (
              is_too_old (witness s.event_clock msg.ltime) (length s.event_core.buffer)
                msg.ltime)) [
                  | inl old ↦
                      ((witnessed, false), rw (timely, old, handle_user_event) refl, dropped refl)
                  | inr recent ↦ (
                    elim (record_event seen msg) [
                      | none ↦ (witnessed, false)
                      | some slot ↦ (stored slot, true)
                    ],
                    ground arith,
                    stored-Outcome seen (record_event seen msg) found refl,
                  )
                ]
      ]

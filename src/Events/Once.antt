-- ===== src/Events/Once.antt =====
-- Deduplication of user events (core/src/serf/base.rs, `handle_user_event`) over any sequence of
-- messages. A slot of the buffer is never emptied, and the times of what it holds are not compared.
use ruserf.Prelude.{
  ℕ, ◌%◌, ◌<◌, ◌≡◌, refl, Bool, true, false, Option, none, some, List, [], ◌∷◌, length, arith,
  get_elem?-set_self, get_elem?-set_ne, get_elem?_lt, length-set, ◌∙◌,
}
use native.Mathlib.Decide.{ℕ_discrete}
use ruserf.Types.{UserEvent, UserEventMessage, user_event_eq}
use ruserf.Serf.{Serf}
use ruserf.Events.Handler.{to_user_event, record_event, handle_user_event}
use ruserf.Events.Slots.{
  IsSeen, Outcome, dropped, delivered, handle_user_event-Outcome, record_event-contains,
  record_event-contains_self,
}

module _ {I A : Type 0} where
  handle_user_event-inv :
      (msg : UserEventMessage) (s : Serf I A) (r : Serf I A × Bool)
      → 0 < length s.event_core.buffer
      → handle_user_event msg s ≡ some r
      → Outcome msg s r
  handle_user_event-inv msg s r h e =
      let (r', e', o) = handle_user_event-Outcome msg s h in let same : r' ≡ r = cc in rw same at o

  Outcome-length :
      (msg : UserEventMessage) (s : Serf I A) (r : Serf I A × Bool)
      → Outcome msg s r
      → length r.0.event_core.buffer ≡ length s.event_core.buffer
  Outcome-length msg s r (dropped e) = rw e
  Outcome-length msg s r (delivered seen slot found new e) =
      rw e (length-set s.event_core.buffer (msg.ltime % length s.event_core.buffer) (some slot))

  Outcome-IsSeen :
      (msg : UserEventMessage) (s : Serf I A) (r : Serf I A × Bool) (ev : UserEvent) (idx : ℕ)
      → Outcome msg s r
      → IsSeen ev idx s.event_core.buffer
      → IsSeen ev idx r.0.event_core.buffer
  Outcome-IsSeen msg s r ev idx (dropped e) k = rw e k
  Outcome-IsSeen msg s r ev idx (delivered seen slot found new e) (old, here, has) =
      let i = msg.ltime % length s.event_core.buffer in
      rw e (elim (ℕ_discrete i idx) [
        | yes same ↦ (
          slot,
          rw (← same) (
              get_elem?-set_self s.event_core.buffer i (some slot)
                (get_elem?_lt s.event_core.buffer i seen found)),
          record_event-contains old msg slot ev (cc) has,
        )
        | no other ↦ (old, get_elem?-set_ne s.event_core.buffer i idx (some slot) other ∙ here, has)
      ])

  Outcome-learns :
      (msg : UserEventMessage) (s : Serf I A) (r : Serf I A × Bool)
      → Outcome msg s r
      → r.1 ≡ true
      → IsSeen (to_user_event msg) (msg.ltime % length s.event_core.buffer) r.0.event_core.buffer
  Outcome-learns msg s r (dropped e) h = absurd (ground arith)
  Outcome-learns msg s r (delivered seen slot found new e) h =
      let i = msg.ltime % length s.event_core.buffer in
      rw e (
        slot,
        get_elem?-set_self s.event_core.buffer i (some slot)
            (get_elem?_lt s.event_core.buffer i seen found),
        record_event-contains_self seen msg slot new,
      )

  Outcome-known :
      (msg : UserEventMessage) (s : Serf I A) (r : Serf I A × Bool)
      → Outcome msg s r
      → IsSeen (to_user_event msg) (msg.ltime % length s.event_core.buffer) s.event_core.buffer
      → (r.1 ≡ false) × (r.0.events ≡ s.events)
  Outcome-known msg s r (dropped e) k = rw e (refl, refl)
  Outcome-known msg s r (delivered seen slot found new e) (old, here, has) =
      absurd (unfold record_event in ground arith)

  -- Messages handled one after the other; `none` is a panic.
  unfoldable pub run : List UserEventMessage → Serf I A → Option (Serf I A)
  run [] s = some s
  run (msg ∷ msgs) s = elim (handle_user_event msg s) [ none ↦ none | some r ↦ run msgs r.0 ]

  run-IsSeen :
      (msgs : List UserEventMessage) (s s' : Serf I A) (ev : UserEvent) (idx : ℕ)
      → 0 < length s.event_core.buffer
      → run msgs s ≡ some s'
      → IsSeen ev idx s.event_core.buffer
      → (length s'.event_core.buffer ≡ length s.event_core.buffer)
        × IsSeen ev idx s'.event_core.buffer
  unfolding run
  run-IsSeen [] s s' ev idx h e k = let same : s ≡ s' = cc in rw (← same) (refl, k)
  run-IsSeen (msg ∷ msgs) s s' ev idx h e k =
      let (r, e', o) = handle_user_event-Outcome msg s h in
      let n = Outcome-length msg s r o in
      let rest =
        run-IsSeen msgs r.0 s' ev idx (omega arith) (ground arith)
          (Outcome-IsSeen msg s r ev idx o k) in
      (rest.0 ∙ n, rest.1)

  -- Messages never make a node with an event buffer panic.
  pub run_total :
      (msgs : List UserEventMessage) (s : Serf I A)
      → 0 < length s.event_core.buffer
      → (s' : Serf I A) × (run msgs s ≡ some s')
        × (length s'.event_core.buffer ≡ length s.event_core.buffer)
  unfolding run
  run_total [] s h = (s, refl, refl)
  run_total (msg ∷ msgs) s h =
      let (r, e, o) = handle_user_event-Outcome msg s h in
      let n = Outcome-length msg s r o in
      let (s', e', n') = run_total msgs r.0 (omega arith) in (s', rw (e, run) e', n' ∙ n)

  -- After a message was delivered, and whatever messages come in between, a message with the same
  -- name and payload whose time falls into the same slot is not delivered and not rebroadcast. So the
  -- same message is delivered at most once; and so a newer event with the name and payload of an
  -- older one is lost if their times differ by a multiple of the buffer's length.
  pub handle_user_event_once :
      (msg again : UserEventMessage) (msgs : List UserEventMessage) (s s1 s2 : Serf I A)
      (r : Serf I A × Bool)
      → 0 < length s.event_core.buffer
      → handle_user_event msg s ≡ some (s1, true)
      → run msgs s1 ≡ some s2
      → to_user_event again ≡ to_user_event msg
      → again.ltime % length s.event_core.buffer ≡ msg.ltime % length s.event_core.buffer
      → handle_user_event again s2 ≡ some r
      → (r.1 ≡ false) × (r.0.events ≡ s2.events)
  handle_user_event_once msg again msgs s s1 s2 r h first between same slot last =
      let o = handle_user_event-inv msg s (s1, true) h first in
      let n = Outcome-length msg s (s1, true) o in
      let (n', k) =
        run-IsSeen msgs s1 s2 (to_user_event msg) (msg.ltime % length s.event_core.buffer)
          (omega arith) between (Outcome-learns msg s (s1, true) o refl) in
      let m : length s2.event_core.buffer ≡ length s.event_core.buffer = n' ∙ n in
      Outcome-known again s2 r (handle_user_event-inv again s2 r (omega arith) last)
        (rw (same, m, slot) k)

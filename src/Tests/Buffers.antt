-- ===== src/Tests/Buffers.antt =====
-- The theorems on the buffers of user events and queries at concrete inputs.
use ruserf.Prelude.{
  ◌++◌, ℕ, ◌≡◌, refl, Bool, true, false, Option, none, some, [], ◌∷◌, nat_eq, arith,
}
use ruserf.Types.{UserEventMessage}
use ruserf.Serf.{Serf}
use ruserf.Clock.{witness}
use ruserf.Events.Handler.{handle_user_event}
use ruserf.Events.Once as EventOnce
use ruserf.Queries.Handler.{handle_query, query_crate_event}
use ruserf.Queries.Once as QueryOnce
use ruserf.Tests.{plain, probe, started}

abbrev deploy : UserEventMessage
deploy = record { ltime = 2; name = 100 ∷ []; payload = []; cc = false }

-- The same event, a round of the buffer later.
abbrev deploy_again : UserEventMessage
deploy_again = record deploy { ltime = 6 }

abbrev draws : ℕ → ℕ
draws i = 3

-- The state after the call.
abbrev after : Option (Serf ℕ ℕ × Bool) → Serf ℕ ℕ
after none = started
after (some r) = r.0

-- Whether to rebroadcast after it.
abbrev told : Option (Serf ℕ ℕ × Bool) → Bool
told none = false
told (some r) = r.1

abbrev after_deploy : Serf ℕ ℕ
unfolding handle_user_event
after_deploy = after (handle_user_event deploy started)

abbrev after_both : Serf ℕ ℕ
unfolding handle_user_event
after_both = after (handle_user_event deploy_again after_deploy)

handle_user_event_once_example :
    (told (handle_user_event deploy_again after_deploy) ≡ false)
    × (after_both.events ≡ after_deploy.events)
unfolding handle_user_event EventOnce.run
handle_user_event_once_example =
    EventOnce.handle_user_event_once deploy deploy_again [] started after_deploy after_deploy
      (after_both, false) (omega arith) refl refl refl refl refl

abbrev after_probe : Serf ℕ ℕ
unfolding handle_query
after_probe = after (handle_query plain draws probe none started)

abbrev after_seen : Serf ℕ ℕ × Bool
unfolding handle_query
after_seen = (after (handle_query plain draws probe none after_probe), false)

handle_query_once_example :
    after_seen ≡ (record after_probe { query_clock = witness after_probe.query_clock 4 }, false)
unfolding handle_query QueryOnce.run
handle_query_once_example =
    QueryOnce.handle_query_once plain draws probe probe none none started after_probe
      (after_probe, true) after_seen [] (omega arith) (λ seen h. absurd (ground arith)) refl refl
      refl refl refl refl

-- A node whose query clock is past two rounds of its buffer.
abbrev late : Serf ℕ ℕ
late = record started { query_clock = 9 }

run_deaf_example :
    (clock : ℕ) × (QueryOnce.run plain draws ((probe, none) ∷ []) late
      ≡ some (record late { query_clock = clock }))
run_deaf_example =
    QueryOnce.run_deaf plain draws ((probe, none) ∷ []) late (omega arith) (omega arith, tt)

-- A node that has seen a query of time 0 in the probe's slot.
abbrev occupied : Serf ℕ ℕ
occupied = record started {
  query_clock = 5;
  query_core = record started.query_core {
    buffer = some (record { ltime = 0; query_ids = 1 ∷ [] }) ∷ none ∷ none ∷ none ∷ [];
  };
}

handle_query_repeats_example :
    (s1 : Serf ℕ ℕ) × (s2 : Serf ℕ ℕ) × (handle_query plain draws probe none occupied
      ≡ some (s1, true))
    × (s1.events ≡ occupied.events ++ query_crate_event none probe ∷ [])
    × (handle_query plain draws probe none s1 ≡ some (s2, true))
    × (s2.events ≡ s1.events ++ query_crate_event none probe ∷ [])
unfolding ruserf.Queries.Wire.should_process_query
handle_query_repeats_example =
    QueryOnce.handle_query_repeats plain draws probe none none occupied
      (record { ltime = 0; query_ids = 1 ∷ [] }) refl (λ h. omega arith) (omega arith) (omega arith)
      refl refl tt

-- ===== src/Tests/Operations.antt =====
-- The theorems on the public operations at concrete inputs.
use ruserf.Prelude.{
  ℕ, ◌+◌, ◌%◌, ◌≡◌, ◌⊎◌, refl, true, false, none, some, List, [], ◌∷◌, ◌++◌, arith, nat_eq,
}
use ruserf.Types.{Bytes, SerfState, Node, MessageType, CrateEvent, user_event_eq}
use ruserf.Serf.{Serf, QueryResponse}
use ruserf.Clock.{witness}
use ruserf.Events.Handler.{handle_user_event}
use ruserf.Events.Slots.{IsSeen}
use ruserf.Queries.Handler.{handle_query}
use ruserf.Snapshot.Replay.{ReplayResult}
use ruserf.Delegate.Safe.{IsHealthy}
use ruserf.Api.{Error, Result, ok, err}
use ruserf.Api.Broadcast.{raw_message}
use ruserf.Api.UserEvent.{new_user_event, user_event}
use ruserf.Api.Delivered.{IsSendable, user_event_delivers, user_event_refused}
use ruserf.Api.Join.{Contacted, join, join_many}
use ruserf.Api.Joined.{join_resets}
use ruserf.Api.Leave.{announce_leave, leave, shutdown}
use ruserf.Api.Lifecycle.{LeftFrom, leave_cases, shutdown_absorbs}
use ruserf.Api.Query.{query_in}
use ruserf.Api.Registered as Registered
use ruserf.Api.Registered.{query_in_cases}
use ruserf.Api.Start.{StartOptions, new_in}
use ruserf.Api.Restart.{new_in_restores}
use ruserf.Tests.{probe, plain, plain_options, node_of, reported, started}

-- memberlist's errors are numbers.
abbrev Errors : Type 0
Errors = ℕ

abbrev title : Bytes
title = 100 ∷ []

title-IsSendable : IsSendable plain title [] true started (7 ∷ [])
title-IsSendable = record {
  limit = omega arith;
  sane = omega arith;
  raw_limit = omega arith;
  raw_sane = omega arith;
  encoded = refl;
}

title_unseen : ¬ IsSeen (record { name = title; payload = [] }) (1 % 4) started.event_core.buffer
title_unseen (slot, found, there) = ground arith

user_event_delivers_example :
    (s' : Serf ℕ ℕ) × (user_event {M = Errors} plain title [] true started ≡ some (s', ok tt))
    × (s'.events ≡ [] ++ CrateEvent.user (new_user_event title [] true started) ∷ [])
    × (s'.event_clock ≡ 1 + 1)
    × (s'.event_broadcasts ≡ [] ++ raw_message MessageType.user_event 1 (7 ∷ []) ∷ [])
user_event_delivers_example =
    user_event_delivers plain title [] true started Errors (7 ∷ []) title-IsSendable (omega arith)
      (omega arith) (omega arith) title_unseen

abbrev small_limit : Serf ℕ ℕ
small_limit = record started { opts = record plain_options { max_user_event_size = 0 } }

user_event_refused_example :
    (small_limit ≡ small_limit)
    × ((bytes : Bytes) → ¬ IsSendable plain title [] true small_limit bytes)
unfolding user_event
user_event_refused_example =
    user_event_refused plain title [] true small_limit Errors small_limit
      (Error.user_event_limit_too_large 0) refl

-- memberlist contacts node 2, and the node's own event clock moves on meanwhile.
abbrev contact : Serf ℕ ℕ → Serf ℕ ℕ × Result Errors (Node ℕ ℕ)
contact s = (record s { event_clock = 9 }, ok (node_of 2))

abbrev contact_many : List ℕ → Serf ℕ ℕ → Serf ℕ ℕ × Contacted ℕ ℕ ℕ Errors
contact_many existing s = (s, record { joined = node_of 2 ∷ []; errors = some ((3, 1) ∷ []) })

join_resets_example :
    ((join plain contact true 5 started).0.event_join_ignore ≡ false)
    × ((join_many plain contact_many (2 ∷ 3 ∷ []) true 5 started).0.event_join_ignore ≡ false)
join_resets_example =
    join_resets plain contact contact_many (2 ∷ 3 ∷ []) true 5 started (λ t. refl) refl

abbrev wait : Serf ℕ ℕ → Serf ℕ ℕ
wait s = record s { clock = 9 }

leave_cases_example :
    ((leave {M = Errors} plain wait 5 started).1 ≡ ok tt)
      × LeftFrom plain
          (wait
            (announce_leave {M = Errors} plain 5 (record started { state = SerfState.leaving })).0)
          (leave {M = Errors} plain wait 5 started).0
    ⊎ ((x : Error Errors) × ((leave {M = Errors} plain wait 5 started).1 ≡ err x)
        × ((leave {M = Errors} plain wait 5 started).0.state ≡ SerfState.leaving))
leave_cases_example = leave_cases plain Errors wait 5 started

abbrev stop : Serf ℕ ℕ → Serf ℕ ℕ × Result Errors (Unit {0})
stop s = (s, err (Error.memberlist 1))

abbrev down : Serf ℕ ℕ
unfolding shutdown
down = (shutdown stop wait started).0

shutdown_absorbs_example :
    (down.state ≡ SerfState.shutdown)
    × (shutdown stop wait down ≡ (down, ok tt))
    × (leave {M = Errors} plain wait 5 down
        ≡ (down, err (Error.bad_leave_status SerfState.shutdown)))
    × (join plain contact true 5 down ≡ (down, err (Error.bad_join_status SerfState.shutdown)))
unfolding shutdown
shutdown_absorbs_example =
    shutdown_absorbs plain stop contact wait true 5 started (λ t. refl) (λ t. refl)

abbrev dice : ℕ → ℕ
dice i = 3

query_in_cases_example :
    (r : Serf ℕ ℕ × Result Errors (QueryResponse ℕ ℕ)) × (query_in plain dice 20 9 1 5 title [] none
        none started
      ≡ some r)
    × Registered.Outcome plain dice 20 9 1 5 title [] none started Errors r
query_in_cases_example =
    query_in_cases plain dice 20 9 1 5 title [] none started Errors none (λ f b h. refl)
      (omega arith) (omega arith)

abbrev start_options : StartOptions
start_options = record {
  opts = plain_options;
  event_buffer_size = 2;
  query_buffer_size = 2;
  disable_coordinates = true;
}

abbrev old_times : ReplayResult ℕ ℕ
old_times = record { alive_nodes = []; last_clock = 5; last_event_clock = 6; last_query_clock = 7 }

abbrev started_or : Result Errors (Serf ℕ ℕ) → Serf ℕ ℕ
started_or (ok s) = s
started_or (err x) = started

abbrev back : Serf ℕ ℕ
unfolding new_in
back =
    started_or (new_in plain 512 start_options (some old_times) (ok (node_of 1, some (reported 1))))

new_in_restores_example :
    IsHealthy back
    × (back.clock ≡ 5 + 1)
    × (back.event_clock ≡ 6 + 1)
    × (back.query_clock ≡ 7 + 1)
    × (handle_user_event (new_user_event title [] true started) back
        ≡ some (record back { event_clock = witness back.event_clock started.event_clock }, false))
    × (handle_query plain dice probe none back
        ≡ some (record back { query_clock = witness back.query_clock 4 }, false))
unfolding new_in new_user_event
new_in_restores_example =
    new_in_restores plain dice Errors 512 start_options old_times
      (ok (node_of 1, some (reported 1))) back (new_user_event title [] true started) probe none
      (omega arith) (omega arith) (omega arith) (omega arith) (omega arith) (omega arith)
      (omega arith) refl

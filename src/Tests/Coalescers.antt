-- ===== src/Tests/Coalescers.antt =====
-- The theorems on the coalescers and their loop at concrete inputs.
use ruserf.Prelude.{
  ℕ, ◌≡◌, refl, true, false, none, some, List, [], ◌∷◌, ◌++◌, nat_eq, list_eq, map, retain, inr,
  lookup, insert,
}
use ruserf.Types.{
  Bytes, UserEventMessage, CrateEvent, Member, MemberStatus, MemberEvent, MemberEventType, Node,
  node_eq,
}
use ruserf.Coalesce.{OutTx, Coalescer}
use ruserf.Coalesce.User as User
use ruserf.Coalesce.User.{UserEventCoalescer}
use ruserf.Coalesce.Newest.{newest, is_named}
use ruserf.Coalesce.Delivered as Delivered
use ruserf.Coalesce.Delivered.{taken, takes_all, flush_newest}
use ruserf.Coalesce.Member as Member
use ruserf.Coalesce.Member.{MemberEventCoalescer, freeze}
use ruserf.Coalesce.Changes.{told, change, last_after}
use ruserf.Coalesce.Reported as Reported
use ruserf.Coalesce.Reported.{latest_event, flush_changes}
use ruserf.Coalesce.Loop.{Arm, Poll, CoalesceLoop, Turn, select}
use ruserf.Coalesce.Instances.{user_event_coalescer}
use ruserf.Coalesce.Batches.{concat, coalesce_batch, flush_batches}
use ruserf.Coalesce.Batched.{unhandled}
use ruserf.Coalesce.Runs.{Run, spawned, loop_batches}
use ruserf.Coalesce.Starved.{waited, feed, timers_dropped}

abbrev deploy_at : ℕ → UserEventMessage
deploy_at t = record { ltime = t; name = 100 ∷ []; payload = t ∷ []; cc = true }

abbrev restart : UserEventMessage
restart = record { ltime = 4; name = 114 ∷ []; payload = []; cc = true }

abbrev history : List UserEventMessage
history = deploy_at 2 ∷ restart ∷ deploy_at 3 ∷ deploy_at 1 ∷ []

-- A channel that closes after two sends.
abbrev narrow : OutTx (CrateEvent ℕ ℕ)
narrow = record { sent = []; closes_after = some 2 }

flush_newest_example :
    (evs : List UserEventMessage) × ((User.flush (Delivered.coalesce_all history []) narrow).0 ≡ [])
    × ((User.flush (Delivered.coalesce_all history []) narrow).1.0.sent
        ≡ [] ++ taken (some 2) (map CrateEvent.user evs))
    × ((User.flush (Delivered.coalesce_all history []) narrow).1.1
        ≡ takes_all {E = CrateEvent ℕ ℕ} (some 2) (map CrateEvent.user evs))
    × ((name : Bytes) → retain (is_named name) evs ≡ newest name history)
flush_newest_example = flush_newest history narrow

abbrev member_two : Member ℕ ℕ
member_two = record {
  node = record { id = 2; address = 2 };
  tags = [];
  status = MemberStatus.alive;
  memberlist_protocol_version = 1;
  memberlist_delegate_version = 1;
  protocol_version = 1;
  delegate_version = 1;
}

abbrev flapping : List (MemberEvent ℕ ℕ)
flapping =
    record { ty = MemberEventType.failed; members = member_two ∷ [] }
    ∷ record { ty = MemberEventType.join; members = member_two ∷ [] }
    ∷ []

abbrev joined : List (Node ℕ ℕ × MemberEventType)
joined = (member_two.node, MemberEventType.join) ∷ []

flush_changes_example :
    (c : MemberEventCoalescer ℕ ℕ) × (Reported.coalesce_all flapping
        (record { last_events = joined; latest_events = [] })
      ≡ some c)
    × (groups : List (MemberEventType × List (Member ℕ ℕ))) × ((Member.flush c
          narrow).0.latest_events
        ≡ [])
    × ((Member.flush c narrow).1.0.sent ≡ [] ++ taken (some 2) (map freeze groups))
    × ((Member.flush c narrow).1.1 ≡ takes_all {E = CrateEvent ℕ ℕ} (some 2) (map freeze groups))
    × ((id : Node ℕ ℕ) (ty : MemberEventType)
        → (told id ty groups ≡ change (latest_event id flapping none) (lookup id joined) ty)
          × (lookup id (Member.flush c narrow).0.last_events
              ≡ last_after (latest_event id flapping none) (lookup id joined)))
flush_changes_example = flush_changes flapping joined narrow

abbrev quiet_deploy : CrateEvent ℕ ℕ
quiet_deploy = CrateEvent.user (deploy_at 2)

abbrev loud_deploy : CrateEvent ℕ ℕ
loud_deploy = CrateEvent.user (record { ltime = 5; name = 100 ∷ []; payload = []; cc = false })

abbrev UserLoop : Type 0
UserLoop = CoalesceLoop UserEventCoalescer (CrateEvent ℕ ℕ)

abbrev users : Coalescer UserEventCoalescer (CrateEvent ℕ ℕ)
users = user_event_coalescer

abbrev idle : UserLoop
idle = spawned users 10 3 []

-- The state after the turn, or else the one before it.
abbrev after : UserLoop → Turn UserEventCoalescer (CrateEvent ℕ ℕ) → UserLoop
after s (Turn.running next) = next
after s _ = s

-- The timer was polled first.
abbrev eager : Poll
eager = record { now = 8; quantum = false; quiescent = true }

abbrev busy : UserLoop
unfolding select user_event_coalescer User.handle User.coalesce User.flush lookup insert
busy = after idle (select users 10 3 (waited 5) (Arm.received quiet_deploy) idle)

abbrev flushed : UserLoop
unfolding select user_event_coalescer User.handle User.coalesce User.flush lookup insert
flushed = after busy (select users 10 3 eager Arm.quiescent busy)

one_flush : Run users 10 3 idle (quiet_deploy ∷ []) flushed
unfolding select user_event_coalescer User.handle User.coalesce User.flush lookup insert
one_flush =
    Run.elapses eager Arm.quiescent (inr refl)
      (Run.receives (waited 5) quiet_deploy Run.begins refl) refl

loop_batches_example :
    ((batches : List (List (CrateEvent ℕ ℕ))) × (rest : List (CrateEvent ℕ ℕ))
      × (left : UserEventCoalescer) × (sent : List (CrateEvent ℕ ℕ)) × (concat batches ++ rest
          ≡ retain users.handle (quiet_deploy ∷ []))
      × (flush_batches users batches [] ≡ some (left, sent))
      × (coalesce_batch users rest left ≡ some flushed.coalescer)
      × (retain users.handle flushed.out_tx.sent ≡ sent)
      × (unhandled users flushed.out_tx.sent ≡ unhandled users (quiet_deploy ∷ [])))
    × ((p : Poll) (e : CrateEvent ℕ ℕ)
        → (next : UserLoop) × (select users 10 3 p (Arm.received e) flushed ≡ Turn.running next))
unfolding user_event_coalescer
loop_batches_example = loop_batches users 10 3 [] (quiet_deploy ∷ []) flushed tt one_flush

abbrev stream : List (ℕ × CrateEvent ℕ ℕ)
stream =
    (7, quiet_deploy)
    ∷ (9, quiet_deploy)
    ∷ (11, quiet_deploy)
    ∷ (13, quiet_deploy)
    ∷ (15, quiet_deploy)
    ∷ []

abbrev starved : UserLoop
unfolding feed user_event_coalescer User.handle User.coalesce User.flush lookup insert
starved = after idle (feed users 10 3 ((5, quiet_deploy) ∷ stream) idle)

abbrev late : Poll
late = record { now = 17; quantum = true; quiescent = true }

abbrev passed : UserLoop
unfolding select user_event_coalescer User.handle User.coalesce User.flush lookup insert
passed = after busy (select users 10 3 (waited 6) (Arm.received loud_deploy) busy)

timers_dropped_example :
    (passed.coalescer ≡ busy.coalescer)
    × (select users 10 3 late Arm.quantum passed ≡ Turn.not_ready)
    × (select users 10 3 late Arm.quiescent passed ≡ Turn.not_ready)
unfolding select user_event_coalescer User.handle User.coalesce User.flush lookup insert
timers_dropped_example =
    timers_dropped users 10 3 6 (Arm.received loud_deploy) busy passed late
      (inr (loud_deploy, refl, refl)) refl

-- ===== src/Tests/Members.antt =====
-- The members' theorems at concrete inputs.
use ruserf.Prelude.{
  ◌⊎◌, ℕ, ◌-◌, max, ◌≡◌, refl, Bool, false, some, List, [], ◌∷◌, length, nat_eq, nat_beq, ◌==◌,
  ◌&&◌, not, none, if◌then◌else◌, lookup, ◌+◌, arith,
}
use ruserf.Types.{MessageType, Member, NodeIntent, MemberState, MemberStatus}
use ruserf.Serf.{Serf}
use ruserf.Members.Leave.{handle_node_leave_intent}
use ruserf.Members.Base.{id_of, upsert_intent}
use ruserf.Members.Reap.{expired, reap_failed}
use ruserf.Members.Tally.{tally}
use ruserf.Members.Reaping.{reap_failed_exact}
use ruserf.Members.Bounds.{num_alive}
use ruserf.Members.Invariant.{IsValid}
use ruserf.Members.History.{Call, run, run-IsValid, num_alive-run}
use ruserf.Members.Gossip.{time_of, buffered, upsert_intent_order}
use ruserf.Members.Rebroadcast as Rebroadcast
use ruserf.Tests.{plain, node_of, reported, started, started-IsValid}

abbrev no_override : Member ℕ ℕ → ℕ → ℕ
no_override m t = t

-- Two nodes join; one of them fails and is reaped, the other says that it leaves, and does.
abbrev story : List (Call ℕ ℕ)
story =
    Call.join (reported 1)
    ∷ Call.join (reported 2)
    ∷ Call.join (reported 3)
    ∷ Call.leave (reported 2) 10
    ∷ Call.leave_intent (record { ltime = 5; id = 3; prune = false }) 11
    ∷ Call.leave (reported 3) 12
    ∷ Call.reap 100 50 1000 5
    ∷ []

run-IsValid_example : IsValid (run plain no_override story started).members
run-IsValid_example = run-IsValid plain no_override story started started-IsValid

num_alive-run_example :
    num_alive (run plain no_override story started).members
    ≡ some (
        max
          (length (run plain no_override story started).members.states
            - (length (run plain no_override story started).members.failed_members
                + length (run plain no_override story started).members.left_members))
          1)
num_alive-run_example = num_alive-run plain no_override story started refl

abbrev intents : List (ℕ × NodeIntent)
intents = []

abbrev buffer_after : List (ℕ × NodeIntent)
unfolding upsert_intent
buffer_after =
    (upsert_intent (upsert_intent intents 7 MessageType.join 3 0).0 7 MessageType.leave 4 1).0

upsert_intent_order_example :
    (buffered 7 buffer_after
      ≡ buffered 7
          (upsert_intent
            (upsert_intent intents 7 MessageType.leave 4 1).0
            7
            MessageType.join
            3
            0).0)
    × ((i : MessageType × ℕ) × (buffered 7 buffer_after ≡ some i)
        × ((i ≡ (MessageType.join, 3))
            ⊎ (i ≡ (MessageType.leave, 4))
            ⊎ (buffered 7 intents ≡ some i))
        × (i.1 ≡ max (time_of (buffered 7 intents)) (max 3 4)))
unfolding upsert_intent
upsert_intent_order_example =
    upsert_intent_order intents 7 MessageType.join MessageType.leave 3 4 0 1 (λ h. omega arith)

abbrev leaves : Rebroadcast.Intent ℕ
leaves = Rebroadcast.leave (record { ltime = 8; id = 2; prune = false })

abbrev between : List (Rebroadcast.Intent ℕ)
between = Rebroadcast.join (record { ltime = 9; id = 4 }) ∷ []

rebroadcast_once_example :
    (Rebroadcast.handle leaves 3
      (Rebroadcast.run 2 between (Rebroadcast.handle leaves 1 started).0)).1
    ≡ false
unfolding Rebroadcast.handle handle_node_leave_intent lookup
rebroadcast_once_example =
    Rebroadcast.rebroadcast_once leaves between 1 2 3 started refl (tt, tt) refl

abbrev failed_at : ℕ → ℕ → MemberState ℕ ℕ
failed_at n t = record {
  member = record {
    node = node_of n;
    tags = [];
    status = MemberStatus.failed;
    memberlist_protocol_version = 1;
    memberlist_delegate_version = 1;
    protocol_version = 1;
    delegate_version = 1;
  };
  status_time = 0;
  leave_time = some t;
}

-- Node 2 is due at time 100, and node 3 is not.
abbrev two_failed : Serf ℕ ℕ
two_failed = record started {
  members = record started.members {
    states = (2, failed_at 2 10) ∷ (3, failed_at 3 90) ∷ [];
    failed_members = failed_at 2 10 ∷ failed_at 3 90 ∷ [];
  };
}

abbrev fifty : Member ℕ ℕ → ℕ
fifty m = 50

reap_failed_exact_example :
    ((p : MemberState ℕ ℕ → Bool)
      → tally p (reap_failed fifty 100 two_failed).members.failed_members
        ≡ tally (λ m. not (expired fifty 100 m) && p m) two_failed.members.failed_members)
    × ((j : ℕ)
        → lookup j (reap_failed fifty 100 two_failed).members.states ≡ (
            if nat_beq
              (tally (λ m. expired fifty 100 m && id_of m == j) two_failed.members.failed_members)
              0
            then lookup j two_failed.members.states
            else none))
reap_failed_exact_example = reap_failed_exact fifty 100 two_failed

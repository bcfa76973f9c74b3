-- ===== src/Tests/Queries.antt =====
-- The theorems on relays and answers of queries at concrete inputs.
use ruserf.Prelude.{ℕ, refl, true, false, some, none, List, [], ◌∷◌, nat_eq}
use ruserf.Types.{QueryResponseMessage, Member, MemberState, MemberStatus}
use ruserf.Serf.{Serf, QueryResponse}
use ruserf.Queries.Response.{bounded, new_response}
use ruserf.Queries.Shuffled.{Relay}
use ruserf.Queries.Delivered.{view, Step, run, IsValid, answered_once}
use ruserf.Tests.{node_of, started}

abbrev rolls : ℕ → ℕ
rolls i = 5

abbrev names : List ℕ
names = 4 ∷ 5 ∷ 6 ∷ []

abbrev pub member : ℕ → Member ℕ ℕ
member n = record {
  node = node_of n;
  tags = [];
  status = MemberStatus.alive;
  memberlist_protocol_version = 1;
  memberlist_delegate_version = 1;
  protocol_version = 1;
  delegate_version = 1;
}

abbrev entry : ℕ → ℕ × MemberState ℕ ℕ
entry n = (n, record { member = member n; status_time = 0; leave_time = none })

abbrev trio : Serf ℕ ℕ
trio = record started {
  members = record started.members { states = entry 1 ∷ entry 2 ∷ entry 3 ∷ [] };
}

abbrev answer : ℕ → QueryResponseMessage ℕ ℕ
answer n = record {
  ltime = 4;
  id = 9;
  from = node_of n;
  flags = record { ack = false; no_broadcast = false };
  payload = 1 ∷ [];
}

abbrev asked : QueryResponse ℕ ℕ
asked = record {
  deadline = 20;
  id = 9;
  ltime = 4;
  closed = false;
  acks = [];
  responses = [];
  ack_ch = some (bounded 2);
  resp_ch = bounded 2;
}

abbrev exchange : List (Step ℕ ℕ)
exchange =
    Step.respond (answer 2) 5
    ∷ Step.respond (answer 2) 6
    ∷ Step.read
    ∷ Step.respond (answer 3) 7
    ∷ Step.respond (record (answer 3) { flags = record { ack = true; no_broadcast = false } }) 7
    ∷ Step.read_ack
    ∷ Step.shut
    ∷ Step.respond (answer 1) 8
    ∷ []

answered_once_example : IsValid (run exchange (view asked))
answered_once_example = answered_once 9 4 2 20 true asked exchange (unfold new_response in refl)

-- ===== src/Tests/Conflicts.antt =====
-- The theorems on conflicts of ids and on the answers to queries at concrete inputs.
use ruserf.Prelude.{
  ℕ, ◌-◌, ◌*◌, ◌≤◌, ◌<◌, ◌≡◌, ◌≢◌, ◌⊎◌, refl, true, Option, none, some, List, [], ◌∷◌, ◌++◌, nat_eq,
  length, count,
}
use ruserf.Types.{Bytes, MessageType, SerfState, Member, MemberStatus, MemberState, QueryEvent}
use ruserf.Serf.{Serf, SerfMessage, NodeResponse, Codec}
use ruserf.Api.Broadcast.{raw_message}
use ruserf.Api.{Error, Result, err}
use ruserf.Queries.Respond.Once.{respond_once}
use ruserf.Queries.Respond.{respond, responded}
use ruserf.Conflict.{after_vote}
use ruserf.Conflict.Vote.{votes, after_vote_cases}
use ruserf.Tests.{plain, node_of, started}

-- A member is its address in a byte, and no other message is encoded.
abbrev member_at : ℕ → Member ℕ ℕ
member_at n = record {
  node = node_of n;
  tags = [];
  status = MemberStatus.alive;
  memberlist_protocol_version = 1;
  memberlist_delegate_version = 1;
  protocol_version = 1;
  delegate_version = 1;
}

abbrev decode_votes : MessageType → Bytes → Option (SerfMessage ℕ ℕ)
decode_votes MessageType.conflict_response (n ∷ rest) =
    some (SerfMessage.conflict_response (member_at n))
decode_votes _ bytes = none

abbrev encode_vote : SerfMessage ℕ ℕ → Option Bytes
encode_vote (SerfMessage.conflict_response m) = some (m.node.id ∷ [])
encode_vote m = some (7 ∷ [])

abbrev voting : Codec ℕ ℕ
voting = record plain { encode_message = encode_vote; decode_message = decode_votes }

abbrev response : Bytes → NodeResponse ℕ ℕ
response payload = record { from = node_of 2; payload = payload }

-- Two votes, one of them for the local address 1, and two responses that do not count.
abbrev ballot : List (NodeResponse ℕ ℕ)
ballot = response [] ∷ response (6 ∷ 1 ∷ []) ∷ response (5 ∷ 1 ∷ []) ∷ response (6 ∷ 4 ∷ []) ∷ []

abbrev stop : Serf ℕ ℕ → Serf ℕ ℕ × Result ℕ (Unit {0})
stop s = (s, err (Error.memberlist 1))

abbrev same : Serf ℕ ℕ → Serf ℕ ℕ
same s = s

after_vote_cases_example :
    ((length (votes voting ballot) < 2 * count 1 (votes voting ballot))
      × (after_vote voting stop same ballot started ≡ started))
    ⊎ ((2 * count 1 (votes voting ballot) ≤ length (votes voting ballot))
        × ((after_vote voting stop same ballot started).state ≡ SerfState.shutdown))
after_vote_cases_example = after_vote_cases voting stop same ballot started (λ t. refl) (λ t. refl)

abbrev asked : QueryEvent ℕ ℕ
asked = record {
  ltime = 4;
  name = 1 ∷ [];
  payload = [];
  query_timeout = 5;
  id = 9;
  from = node_of 2;
  relay_factor = 1;
}

abbrev answered : Option ℕ × Serf ℕ ℕ
unfolding respond
answered = (respond plain (λ i. i) 12 true asked (3 ∷ []) (some 10, started)).0

respond_once_example :
    (12 - 10 ≤ 5)
    × ((bytes : Bytes) × (more : List (ℕ × Bytes)) × (some (7 ∷ []) ≡ some bytes)
        × (answered.1 ≡ record started {
          sends = started.sends ++ (2, raw_message MessageType.query_response 1 bytes) ∷ more;
        }))
    × (answered.0 ≡ none)
    × ((respond plain (λ i. i) 13 true asked [] answered).0 ≡ answered)
    × ((respond plain (λ i. i) 13 true asked [] answered).1 ≢ responded)
unfolding respond
respond_once_example =
    respond_once plain (λ i. i) 10 12 13 true true asked (3 ∷ []) [] started answered.0 answered.1
      refl

abbrev two : ℕ
two = 2

abbrev entry : MemberState ℕ ℕ
entry = record { member = member_at 2; status_time = 3; leave_time = none }

abbrev knowing : Serf ℕ ℕ
knowing = record started { members = record started.members { states = (2, entry) ∷ [] } }

-- ===== src/Members/Rebroadcast.antt =====
-- Gossip of intents ends at each node: `handle_node_join_intent` and `handle_node_leave_intent` of
-- core/src/serf/base.rs over any sequence of intents.
use ruserf.Prelude.{ℕ, ◌≡◌, Bool, true, false, List, [], ◌∷◌, Eq, All}
use ruserf.Types.{JoinMessage, LeaveMessage}
use ruserf.Serf.{Serf}
use ruserf.Members.Join.{handle_node_join_intent}
use ruserf.Members.Leave.{handle_node_leave_intent}
use ruserf.Members.Gossip.{
  Knows, handle_node_join_intent-Knows, handle_node_leave_intent-Knows,
  handle_node_join_intent_known, handle_node_leave_intent_known, handle_node_join_intent_learns,
  handle_node_leave_intent_learns,
}

pub data Intent (I : Type 0) : Type 0 where
  join : JoinMessage I → Intent I
  leave : LeaveMessage I → Intent I

-- An intent that does not ask to prune the node.
abbrev pub Keeps : {I : Type 0} → Intent I → Type 0
Keeps (join msg) = Unit
Keeps (leave msg) = msg.prune ≡ false

abbrev node_of : {I : Type 0} → Intent I → I
node_of (join msg) = msg.id
node_of (leave msg) = msg.id

abbrev time_of : {I : Type 0} → Intent I → ℕ
time_of (join msg) = msg.ltime
time_of (leave msg) = msg.ltime

module _ {I A : Type 0} ⦃e : Eq I⦄ where
  unfoldable pub handle : Intent I → ℕ → Serf I A → Serf I A × Bool
  handle (join msg) now s = handle_node_join_intent msg now s
  handle (leave msg) now s = handle_node_leave_intent msg now s

  unfoldable pub run : ℕ → List (Intent I) → Serf I A → Serf I A
  unfolding handle
  run now [] s = s
  run now (i ∷ is) s = run now is (handle i now s).0

  handle-Knows :
      (i : Intent I) (now : ℕ) (s : Serf I A) (j : I) (t : ℕ)
      → Keeps i
      → Knows j t s.members
      → Knows j t (handle i now s).0.members
  unfolding handle
  handle-Knows (join msg) now s j t keep k = handle_node_join_intent-Knows msg now s j t k
  handle-Knows (leave msg) now s j t keep k = handle_node_leave_intent-Knows msg now s j t keep k

  run-Knows :
      (now : ℕ) (is : List (Intent I)) (s : Serf I A) (j : I) (t : ℕ)
      → All Keeps is
      → Knows j t s.members
      → Knows j t (run now is s).members
  unfolding run
  run-Knows now [] s j t keep k = k
  run-Knows now (i ∷ is) s j t keep k =
      run-Knows now is (handle i now s).0 j t keep.1 (handle-Knows i now s j t keep.0 k)

  handle_learns :
      (i : Intent I) (now : ℕ) (s : Serf I A)
      → Keeps i
      → (handle i now s).1 ≡ true
      → Knows (node_of i) (time_of i) (handle i now s).0.members
  unfolding handle
  handle_learns (join msg) now s keep h = handle_node_join_intent_learns msg now s h
  handle_learns (leave msg) now s keep h = handle_node_leave_intent_learns msg now s keep h

  handle_known :
      (i : Intent I) (now : ℕ) (s : Serf I A)
      → Knows (node_of i) (time_of i) s.members
      → (handle i now s).1 ≡ false
  unfolding handle
  handle_known (join msg) now s k = handle_node_join_intent_known msg now s k
  handle_known (leave msg) now s k = handle_node_leave_intent_known msg now s k

  -- No intent is rebroadcast for ever: where none of the intents asks to prune a node, an intent that
  -- was rebroadcast once is not rebroadcast when it comes back, whatever intents came in between.
  pub rebroadcast_once :
      (i : Intent I) (is : List (Intent I)) (now later back : ℕ) (s : Serf I A)
      → Keeps i
      → All Keeps is
      → (handle i now s).1 ≡ true
      → (handle i back (run later is (handle i now s).0)).1 ≡ false
  rebroadcast_once i is now later back s keep keeps sent =
      handle_known i back (run later is (handle i now s).0) (
        run-Knows later is (handle i now s).0 (node_of i) (time_of i) keeps
          (handle_learns i now s keep sent))

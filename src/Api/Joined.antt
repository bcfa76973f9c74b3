-- ===== src/Api/Joined.antt =====
-- What `join` and `join_many` of core/src/serf/api.rs leave behind, whatever memberlist does.
use ruserf.Prelude.{
  ℕ, ◌≡◌, refl, ◌∙◌, Bool, true, false, Option, none, some, List, [], ◌∷◌, Eq, arith, Bool-cases,
  Option-cases, inl, inr, if◌then◌else◌,
}
use ruserf.Types.{Node}
use ruserf.Serf.{Serf, SerfMessage, Codec}
use ruserf.Clock.{witness}
use ruserf.Members.Base.{is_serf_alive}
use ruserf.Types.{JoinMessage}
use ruserf.Members.Join.{handle_node_join_intent}
use ruserf.Api.{Error, Result, ok, err, Result-cases}
use ruserf.Api.Broadcast.{broadcast, broadcast_join}
use ruserf.Api.Join.{
  JoinedMany, Contacted, ignore_events, join_contacted, join, announce_join, join_many_contacted,
  join_many,
}

module _ {I A : Type 0} ⦃e : Eq I⦄ where
  -- An intent changes neither the flag nor the state of the node nor what is queued.
  record SameFlags (s s' : Serf I A) : Type 0 where
    ignore : s'.event_join_ignore ≡ s.event_join_ignore
    state : s'.state ≡ s.state
    broadcasts : s'.broadcasts ≡ s.broadcasts
    local : s'.local_node ≡ s.local_node

  handle_node_join_intent-SameFlags :
      (msg : JoinMessage I) (now : ℕ) (s : Serf I A)
      → SameFlags s (handle_node_join_intent msg now s).0
  unfolding handle_node_join_intent
  handle_node_join_intent-SameFlags msg now s = record {
    ignore = ground arith;
    state = ground arith;
    broadcasts = ground arith;
    local = ground arith;
  }

module _ {I A : Type 0} ⦃e : Eq I⦄ (codec : Codec I A) where
  broadcast_join-flags :
      (M : Type 0) (ltime now : ℕ) (s : Serf I A)
      → ((broadcast_join {M = M} codec ltime now s).0.event_join_ignore ≡ s.event_join_ignore)
        × ((broadcast_join {M = M} codec ltime now s).0.state ≡ s.state)
  unfolding broadcast_join broadcast
  broadcast_join-flags M ltime now s =
      let msg : JoinMessage I = record { ltime = ltime; id = s.local_node.id } in
      let same =
        handle_node_join_intent-SameFlags msg now (record s { clock = witness s.clock ltime }) in
      elim (Option-cases (codec.encode_message (SerfMessage.join msg))) [
        | inl fails ↦ rw (fails, broadcast) (same.ignore, same.state)
        | inr (bytes, encoded) ↦ rw (encoded, broadcast) (same.ignore, same.state)
      ]

module _ {I A M : Type 0} ⦃e : Eq I⦄ (codec : Codec I A) where
  join_contacted-resets :
      (ignore_old : Bool) (now : ℕ) (r : Result M (Node I A)) (s : Serf I A)
      → s.event_join_ignore ≡ ignore_old
      → (join_contacted codec ignore_old now r s).0.event_join_ignore ≡ false
  unfolding join_contacted
  join_contacted-resets true now (err x) s h = refl
  join_contacted-resets false now (err x) s h = h
  join_contacted-resets true now (ok node) s h =
      elim (Result-cases (broadcast_join {M = M} codec s.clock now s).1) [
        | inl (t, fine) ↦ rw (fine, join_contacted) refl
        | inr (x, fails) ↦ rw (fails, join_contacted) refl
      ]
  join_contacted-resets false now (ok node) s h =
      let kept = (broadcast_join-flags codec M s.clock now s).0 ∙ h in
      elim (Result-cases (broadcast_join {M = M} codec s.clock now s).1) [
        | inl (t, fine) ↦ rw (fine, join_contacted) kept
        | inr (x, fails) ↦ rw (fails, join_contacted) kept
      ]

  announce_join-resets :
      {K : Type 0} (joined : List (Node I A)) (errors : List (K × Error M))
      (otherwise : JoinedMany K I A M) (now : ℕ) (s : Serf I A)
      → (announce_join codec joined errors otherwise now s).0.event_join_ignore ≡ false
  unfolding announce_join
  announce_join-resets joined errors otherwise now s =
      elim (Result-cases (broadcast_join {M = M} codec s.clock now s).1) [
        | inl (t, fine) ↦ rw (fine, announce_join) refl
        | inr (x, fails) ↦ rw (fails, announce_join) refl
      ]

  join_many_contacted-resets :
      {K : Type 0} (joined : List (Node I A)) (errors : Option (List (K × M))) (now : ℕ)
      (s : Serf I A)
      → (join_many_contacted codec joined errors now s).0.event_join_ignore ≡ false
  unfolding join_many_contacted
  join_many_contacted-resets joined none now s = announce_join-resets joined [] _ now s
  join_many_contacted-resets [] (some errors) now s = refl
  join_many_contacted-resets (n ∷ joined) (some errors) now s =
      announce_join-resets (n ∷ joined) _ _ now s

  -- After `join` and after `join_many` the node takes the events of later joins again, whether the
  -- call succeeds or fails, and whatever its argument, provided that it took them before and that
  -- memberlist leaves the flag alone.
  pub join_resets :
      {K : Type 0} (memberlist_join : Serf I A → Serf I A × Result M (Node I A))
      (memberlist_join_many : List K → Serf I A → Serf I A × Contacted K I A M) (existing : List K)
      (ignore_old : Bool) (now : ℕ) (s : Serf I A)
      → ((t : Serf I A) → (memberlist_join t).0.event_join_ignore ≡ t.event_join_ignore)
      → s.event_join_ignore ≡ false
      → ((join codec memberlist_join ignore_old now s).0.event_join_ignore ≡ false)
        × ((join_many codec memberlist_join_many existing ignore_old now s).0.event_join_ignore
            ≡ false)
  unfolding join join_many join_contacted join_many_contacted announce_join
  join_resets memberlist_join memberlist_join_many existing ignore_old now s keeps before =
      elim (Bool-cases (is_serf_alive s.state)) [
        | inl alive ↦
            rw (alive, join, join_many)
              (
                join_contacted-resets ignore_old now _ _ (flagged ignore_old),
                join_many_contacted-resets _ _ now _,
              )
        | inr other ↦ rw (other, join, join_many) (before, before)
      ]
    where
      flagged :
          (ignore : Bool)
          → (memberlist_join (if ignore then ignore_events true s else s)).0.event_join_ignore
            ≡ ignore
      flagged true = keeps (ignore_events true s)
      flagged false = keeps s ∙ before

-- ===== src/Api/Join.antt =====
-- `join` and `join_many` of core/src/serf/api.rs. What memberlist does while it joins, which includes
-- calls of the delegate, is a parameter.
use ruserf.Prelude.{ℕ, Bool, true, false, not, Option, none, some, List, [], ◌∷◌, Eq, if◌then◌else◌}
use ruserf.Types.{Node}
use ruserf.Serf.{Serf, Codec}
use ruserf.Members.Base.{is_serf_alive}
use ruserf.Api.{Error, Result, ok, err}
use ruserf.Api.Broadcast.{broadcast_join}

-- `JoinError`, with the nodes by the names `K` that the caller gave.
pub record JoinError (K I A M : Type 0) : Type 0 where
  pub joined : List (Node I A)
  pub errors : List (K × Error M)
  pub broadcast_error : Option (Error M)

pub data JoinedMany (K I A M : Type 0) : Type 0 where
  all_joined : List (Node I A) → JoinedMany K I A M
  failed : JoinError K I A M → JoinedMany K I A M

-- memberlist's own result: the nodes that joined, and the errors if any.
pub record Contacted (K I A M : Type 0) : Type 0 where
  pub joined : List (Node I A)
  pub errors : Option (List (K × M))

module _ {I A : Type 0} where
  abbrev pub ignore_events : Bool → Serf I A → Serf I A
  ignore_events ignore s = record s { event_join_ignore = ignore }

module _ {I A M : Type 0} ⦃e : Eq I⦄ (codec : Codec I A) where
  -- The end of `join`, with memberlist's result.
  unfoldable pub join_contacted :
      Bool → ℕ → Result M (Node I A) → Serf I A → Serf I A × Result M (Node I A)
  unfolding broadcast_join
  join_contacted ignore_old now (ok node) s =
      let (queued, r) = broadcast_join {M = M} codec s.clock now s in
      let reset = if ignore_old then ignore_events false queued else queued in
      elim r [ ok _ ↦ (reset, ok node) | err x ↦ (reset, err x) ]
  join_contacted ignore_old now (err x) s = (if ignore_old then ignore_events false s else s, err x)

  unfoldable pub join :
      (Serf I A → Serf I A × Result M (Node I A))
      → Bool
      → ℕ
      → Serf I A
      → Serf I A × Result M (Node I A)
  unfolding join_contacted
  join memberlist_join ignore_old now s =
      if not (is_serf_alive s.state)
      then (s, err (Error.bad_join_status s.state))
      else let (contacted, r) = memberlist_join (if ignore_old then ignore_events true s else s) in
        join_contacted ignore_old now r contacted

  module _ {K : Type 0} where
    abbrev wrap_errors : List (K × M) → List (K × Error M)
    wrap_errors [] = []
    wrap_errors (x ∷ xs) = (x.0, Error.memberlist x.1) ∷ wrap_errors xs

    abbrev status_errors : Error M → List K → List (K × Error M)
    status_errors x [] = []
    status_errors x (k ∷ ks) = (k, x) ∷ status_errors x ks

    -- The broadcast once some node has joined, and the flag's reset.
    unfoldable pub announce_join :
        List (Node I A)
        → List (K × Error M)
        → JoinedMany K I A M
        → ℕ
        → Serf I A
        → Serf I A × JoinedMany K I A M
    unfolding broadcast_join
    announce_join joined errors otherwise now s =
        let (queued, r) = broadcast_join {M = M} codec s.clock now s in
        elim r [
          | ok _ ↦ (ignore_events false queued, otherwise)
          | err x ↦ (
            ignore_events false queued,
            failed (record { joined = joined; errors = errors; broadcast_error = some x }),
          )
        ]

    -- The end of `join_many`, with memberlist's result.
    unfoldable pub join_many_contacted :
        List (Node I A) → Option (List (K × M)) → ℕ → Serf I A → Serf I A × JoinedMany K I A M
    unfolding announce_join
    join_many_contacted joined none now s = announce_join joined [] (all_joined joined) now s
    join_many_contacted [] (some errors) now s = (
      ignore_events false s,
      failed (record { joined = []; errors = wrap_errors errors; broadcast_error = none }),
    )
    join_many_contacted (n ∷ joined) (some errors) now s =
        announce_join (n ∷ joined) (wrap_errors errors)
          (failed
            (record { joined = n ∷ joined; errors = wrap_errors errors; broadcast_error = none }))
          now s

    unfoldable pub join_many :
        (List K → Serf I A → Serf I A × Contacted K I A M)
        → List K
        → Bool
        → ℕ
        → Serf I A
        → Serf I A × JoinedMany K I A M
    unfolding join_many_contacted
    join_many memberlist_join_many existing ignore_old now s =
        if not (is_serf_alive s.state)
        then (
          s,
          failed (record {
            joined = [];
            errors = status_errors (Error.bad_join_status s.state) existing;
            broadcast_error = none;
          }),
        )
        else let (contacted, r) =
            memberlist_join_many existing (if ignore_old then ignore_events true s else s) in
          join_many_contacted r.joined r.errors now contacted

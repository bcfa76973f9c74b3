-- ===== src/Coalesce/User.antt =====
-- `UserEventCoalescer` of core/src/coalesce/user.rs. The `IndexMap` keeps the order of insertion,
-- as the association list does.
use ruserf.Prelude.{
  Bool, false, Option, none, some, List, [], ◌∷◌, ◌++◌, ℕ, ltb, nat_eq, list_eq, ◌==◌, lookup,
  insert, map, if◌then◌else◌,
}
use ruserf.Types.{Bytes, UserEventMessage, CrateEvent}
use ruserf.Coalesce.{OutTx, send_all}

pub record LatestUserEvents : Type 0 where
  pub ltime : ℕ
  pub events : List UserEventMessage

abbrev pub UserEventCoalescer : Type 0
UserEventCoalescer = List (Bytes × LatestUserEvents)

-- `coalesce` once the event is known to be a user event.
unfoldable pub coalesce_user : UserEventMessage → UserEventCoalescer → UserEventCoalescer
coalesce_user event c = elim (lookup event.name c) [
  | none ↦ insert event.name (record { ltime = event.ltime; events = event ∷ [] }) c
  | some latest ↦
      if ltb latest.ltime event.ltime
      then insert event.name (record { ltime = event.ltime; events = [] ++ event ∷ [] }) c
      else if latest.ltime == event.ltime
      then insert event.name (record latest { events = latest.events ++ event ∷ [] }) c
      else c
]

-- What a drain yields.
unfoldable pub drained : UserEventCoalescer → List UserEventMessage
drained [] = []
drained ((name, latest) ∷ rest) = latest.events ++ drained rest

module _ {I A : Type 0} where
  unfoldable pub handle : CrateEvent I A → Bool
  handle (CrateEvent.user e) = e.cc
  handle _ = false

  -- `none` is the `unreachable!()`.
  unfoldable pub coalesce : CrateEvent I A → UserEventCoalescer → Option UserEventCoalescer
  unfolding coalesce_user
  coalesce (CrateEvent.user event) c = some (coalesce_user event c)
  coalesce _ c = none

  -- The drain empties the map, also when a send fails.
  unfoldable pub flush :
      UserEventCoalescer
      → OutTx (CrateEvent I A)
      → UserEventCoalescer × (OutTx (CrateEvent I A) × Bool)
  unfolding drained send_all
  flush c out = ([], send_all (map CrateEvent.user (drained c)) out)

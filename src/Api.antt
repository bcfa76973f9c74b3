-- ===== src/Api.antt =====
-- The public operations of core/src/serf/api.rs, and what of core/src/serf/base.rs and
-- core/src/error.rs they share. An operation returns the state and its result, since an error does
-- not undo what was done before it. memberlist's errors are values of a type `M`.
pub mod Broadcast
pub mod UserEvent
pub mod Delivered
pub mod Join
pub mod Joined
pub mod Leave
pub mod Lifecycle
pub mod Query
pub mod Registered
pub mod Start
pub mod Restart
use ruserf.Prelude.{ℕ, ◌≡◌, ◌⊎◌, refl, inl, inr}
use ruserf.Types.{SerfState}

-- `Error` with the `SerfError`s that these operations return.
pub data Error (M : Type 0) : Type 0 where
  memberlist : M → Error M
  transform_delegate : Error M
  user_event_limit_too_large user_event_too_large raw_user_event_too_large : ℕ → Error M
  bad_join_status bad_leave_status : SerfState → Error M
  query_too_large tags_too_large : ℕ → Error M
  coordinates_disabled removal_broadcast_timeout broadcast_channel_closed : Error M

pub data Result (M T : Type 0) : Type 0 where
  ok : T → Result M T
  err : Error M → Result M T

pub Result-cases :
    {M T : Type 0} (r : Result M T) → ((t : T) × (r ≡ ok t)) ⊎ ((x : Error M) × (r ≡ err x))
Result-cases (ok t) = inl (t, refl)
Result-cases (err x) = inr (x, refl)

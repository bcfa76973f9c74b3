-- ===== src/Coalesce/Loop.antt =====
-- `coalesce_loop` of core/src/coalesce.rs. A timer is the time at which it runs out. One turn of the
-- loop is one `select!`: its arm that is ready, and which of the two timers it polled before that. A
-- polled timer is taken out of its variable (`take`), and is dropped with the `select!` if another arm
-- wins. Arms are polled in a random order, and all of them before the `select!` waits.
use ruserf.Prelude.{ℕ, ◌+◌, Bool, true, false, not, Option, none, some, leb, if◌then◌else◌}
use ruserf.Coalesce.{OutTx, send, Coalescer}

pub data Arm (E : Type 0) : Type 0 where
  received : E → Arm E
  hung_up quantum quiescent shutdown : Arm E

-- When the arm won, and which timers had been polled.
pub record Poll : Type 0 where
  pub now : ℕ
  pub quantum : Bool
  pub quiescent : Bool

pub record CoalesceLoop (C E : Type 0) : Type 0 where
  pub quiescent : Option ℕ
  pub quantum : Option ℕ
  pub shutdown : Bool
  pub coalescer : C
  pub out_tx : OutTx E

-- The loop goes on, or returns; the arm was not ready; or the coalescer panicked.
pub data Turn (C E : Type 0) : Type 0 where
  running returned : CoalesceLoop C E → Turn C E
  not_ready panicked : Turn C E

-- What `take` leaves of a timer.
abbrev pub take_timer : Bool → Option ℕ → Option ℕ
take_timer polled timer = if polled then none else timer

abbrev pub has_elapsed : ℕ → Option ℕ → Bool
has_elapsed now none = false
has_elapsed now (some deadline) = leb deadline now

-- A new quantum is started only if there is none.
abbrev pub start_if_none : ℕ → Option ℕ → Option ℕ
start_if_none deadline none = some deadline
start_if_none deadline (some timer) = some timer

module _ {C E : Type 0} (co : Coalescer C E) where
  -- The arm of a timer.
  unfoldable pub on_timer : CoalesceLoop C E → Turn C E
  on_timer s =
      let (c, sent) = co.flush s.coalescer s.out_tx in
      let flushed : CoalesceLoop C E = record s { coalescer = c; out_tx = sent.0 } in
      if not sent.1
      then returned flushed
      else if not s.shutdown
      then running (record flushed { quiescent = none; quantum = none })
      else returned flushed

module _ {C E : Type 0} (co : Coalescer C E) (coalesce_period quiescent_period : ℕ) where
  -- The arm of a received event, after the timers were taken.
  unfoldable pub on_event : ℕ → E → CoalesceLoop C E → Turn C E
  unfolding send
  on_event now ev s =
      if not (co.handle ev)
      then elim (send ev s.out_tx) [
        | none ↦ returned s
        | some out ↦ running (record s { out_tx = out })
      ]
      else elim (co.coalesce ev s.coalescer) [
        | none ↦ panicked
        | some c ↦ running (record s {
          quantum = start_if_none (now + coalesce_period) s.quantum;
          quiescent = some (now + quiescent_period);
          coalescer = c;
        })
      ]

  unfoldable pub select : Poll → Arm E → CoalesceLoop C E → Turn C E
  unfolding on_event on_timer
  select p arm s =
      let polled : CoalesceLoop C E = record s {
        quantum = take_timer p.quantum s.quantum;
        quiescent = take_timer p.quiescent s.quiescent;
      } in
      elim arm [
        | received ev ↦ on_event p.now ev polled
        | hung_up ↦ returned polled
        | quantum ↦ if has_elapsed p.now s.quantum then on_timer co polled else not_ready
        | quiescent ↦ if has_elapsed p.now s.quiescent then on_timer co polled else not_ready
        | shutdown ↦ running (record polled { shutdown = true })
      ]

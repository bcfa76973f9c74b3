-- ===== src/Coalesce/Starved.antt =====
-- The timers of `coalesce_loop` (core/src/coalesce.rs): what an arm that wins does to the timers that
-- its `select!` had taken.
use ruserf.Prelude.{
  ℕ, ◌+◌, true, false, none, some, List, [], ◌∷◌, ◌≡◌, ◌⊎◌, refl, ap, inl, inr, Option-cases,
}
use ruserf.Coalesce.{send, Coalescer}
use ruserf.Coalesce.Loop.{Arm, Poll, CoalesceLoop, Turn, on_event, select}

-- All arms were polled, as they are before a `select!` waits.
abbrev pub waited : ℕ → Poll
waited now = record { now = now; quantum = true; quiescent = true }

module _ {C E : Type 0} (co : Coalescer C E) (coalesce_period quiescent_period : ℕ) where
  abbrev on_arm : Poll → Arm E → CoalesceLoop C E → Turn C E
  on_arm = select co coalesce_period quiescent_period

  -- Events that come one by one, at their times, while the loop waits.
  unfoldable pub feed : List (ℕ × E) → CoalesceLoop C E → Turn C E
  unfolding select
  feed [] s = Turn.running s
  feed (x ∷ xs) s = elim (on_arm (waited x.0) (Arm.received x.1) s) [
    | Turn.running next ↦ feed xs next
    | Turn.returned last ↦ Turn.returned last
    | Turn.not_ready ↦ Turn.not_ready
    | Turn.panicked ↦ Turn.panicked
  ]

  -- The time of the last event.
  abbrev pub last_time : ℕ → List (ℕ × E) → ℕ
  last_time t [] = t
  last_time t (x ∷ xs) = last_time x.0 xs

  record Restarted (t : ℕ) (s next : CoalesceLoop C E) : Type 0 where
    unsent : next.out_tx ≡ s.out_tx
    quantum : next.quantum ≡ some (t + coalesce_period)
    quiescent : next.quiescent ≡ some (t + quiescent_period)

  abbrev next_or : CoalesceLoop C E → Turn C E → CoalesceLoop C E
  next_or s (Turn.running next) = next
  next_or s _ = s

  -- An event that is not handled, or the shutdown, drops both timers if it comes while the loop waits:
  -- the loop goes on, and neither timer flushes what the coalescer holds, at any later time.
  pub timers_dropped :
      (now : ℕ) (arm : Arm E) (s next : CoalesceLoop C E) (p : Poll)
      → (arm ≡ Arm.shutdown) ⊎ ((e : E) × (arm ≡ Arm.received e) × (co.handle e ≡ false))
      → select co coalesce_period quiescent_period (waited now) arm s ≡ Turn.running next
      → (next.coalescer ≡ s.coalescer)
        × (select co coalesce_period quiescent_period p Arm.quantum next ≡ Turn.not_ready)
        × (select co coalesce_period quiescent_period p Arm.quiescent next ≡ Turn.not_ready)
  unfolding select on_event
  timers_dropped now arm s next p which h = elim which [
    | inl down ↦
        let on : Turn.running (record s { quantum = none; quiescent = none; shutdown = true })
            ≡ Turn.running next =
          rw (down, select) at h in
        let at : record s { quantum = none; quiescent = none; shutdown = true } ≡ next =
          ap (next_or s) on in
        rw (← at) (refl, refl, refl)
    | inr (e, got, other) ↦ elim (Option-cases (send e s.out_tx)) [
      | inl closed ↦ cc (rw (got, other, closed, select, on_event) at h)
      | inr (out, sent) ↦
          let on : Turn.running (record s { quantum = none; quiescent = none; out_tx = out })
              ≡ Turn.running next =
            rw (got, other, sent, select, on_event) at h in
          let at : record s { quantum = none; quiescent = none; out_tx = out } ≡ next =
            ap (next_or s) on in
          rw (← at) (refl, refl, refl)
    ]
  ]

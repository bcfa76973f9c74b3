-- ===== src/Clock/Order.antt =====
-- The order that the clock keeps: `increment` and `witness` (types/src/clock.rs) over any history.
use ruserf.Prelude.{ℕ, ◌+◌, ◌≤◌, ◌<◌, ◌≡◌, List, [], ◌∷◌, length, arith, max, All}
use ruserf.Clock.{u64_mod, increment, witness}

-- `witness` sets the clock to the maximum of its value and the time after `t`, wrapped. At the
-- greatest u64 the wrap sets the clock back to 0.
pub witness-max :
    (clock t : ℕ)
    → (t + 1 < u64_mod → witness clock t ≡ max clock (t + 1))
      × (clock < u64_mod → t + 1 ≡ u64_mod → witness clock t ≡ 0)
unfolding witness
witness-max clock t = (λ h. ground arith, λ h e. ground arith)

-- An event of a node: it stamps a message of its own, or receives one with a stamp.
pub data Tick : Type 0 where
  stamp : Tick
  receive : ℕ → Tick

unfoldable pub advance : ℕ → Tick → ℕ
unfolding increment witness
advance clock stamp = (increment clock).0
advance clock (receive t) = witness clock t

unfoldable pub run : ℕ → List Tick → ℕ
run clock [] = clock
run clock (e ∷ es) = run (advance clock e) es

abbrev pub IsBelow : ℕ → Tick → Type 0
IsBelow b stamp = Unit
IsBelow b (receive t) = t < b

advance-le :
    (clock b : ℕ) (e : Tick)
    → clock ≤ b
    → b + 1 < u64_mod
    → IsBelow b e
    → (clock ≤ advance clock e) × (advance clock e ≤ b + 1)
unfolding advance
advance-le clock b stamp h k i = ground arith
advance-le clock b (receive t) h k i = ground arith

IsBelow-suc : (b : ℕ) (e : Tick) → IsBelow b e → IsBelow (b + 1) e
IsBelow-suc b stamp h = tt
IsBelow-suc b (receive t) h = omega arith

All-IsBelow-suc : (b : ℕ) (es : List Tick) → All (IsBelow b) es → All (IsBelow (b + 1)) es
All-IsBelow-suc b [] h = tt
All-IsBelow-suc b (e ∷ es) h = (IsBelow-suc b e h.0, All-IsBelow-suc b es h.1)

run_bounds :
    (clock b : ℕ) (es : List Tick)
    → clock ≤ b
    → b + length es < u64_mod
    → All (IsBelow b) es
    → (clock ≤ run clock es) × (run clock es ≤ b + length es)
unfolding run
run_bounds clock b [] h k i = omega arith
run_bounds clock b (e ∷ es) h k i =
    let step = advance-le clock b e h (omega arith) i.0 in
    let rest =
      run_bounds (advance clock e) (b + 1) es step.1 (omega arith) (All-IsBelow-suc b es i.1) in
    omega arith

stamped : (clock : ℕ) → clock + 1 < u64_mod → increment clock ≡ (clock + 1, clock + 1)
unfolding increment
stamped clock h = ground arith

-- The clock condition, while the clock stays below 2^64: a time that is read off the clock before an
-- increment is earlier than every time that is read after it, and a time that an increment returns is
-- earlier than each that one returns later, whatever is incremented and witnessed in between.
pub stamp-lt-stamp :
    (clock b : ℕ) (es : List Tick)
    → clock < b
    → b + length es + 1 < u64_mod
    → All (IsBelow b) es
    → (clock < run (increment clock).0 es)
      × ((increment clock).1 < (increment (run (increment clock).0 es)).1)
stamp-lt-stamp clock b es h k i =
    let bounds = run_bounds (clock + 1) b es (omega arith) (omega arith) i in
    rw (stamped clock (omega arith))
      (omega arith, rw (stamped (run (clock + 1) es) (omega arith)) (omega arith))

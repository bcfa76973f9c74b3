-- ===== src/Clock/Concurrent.antt =====
-- The loop of `LamportClock::witness` (types/src/clock.rs) under interference: a load, then a weak
-- compare-and-exchange, which may fail at any time and fails when the value has changed, while
-- other threads complete calls on the same atomic. A schedule is a list of actions.
use ruserf.Prelude.{
  ℕ, ◌+◌, ◌%◌, ◌≤◌, ◌<◌, ◌≡◌, refl, Bool, true, ◌&&◌, List, [], ◌∷◌, All, length, arith, ltb,
  nat_beq, if◌then◌else◌,
}
use ruserf.Clock.{u64_mod, increment, witness}

-- Where the watched call stands.
pub data Pc : Type 0 where
  start : Pc
  loaded : ℕ → Pc
  done : Pc

pub data Action : Type 0 where
  load : Action
  attempt : Bool → Action
  others_increment : Action
  others_witness : ℕ → Action

pub record World : Type 0 where
  pub value : ℕ
  pub pc : Pc

-- One action, where the watched call is `witness t`. `attempt ok` is the rest of the loop's body,
-- and `ok` says that the exchange does not fail spuriously.
unfoldable pub advance : ℕ → Action → Pc → ℕ → World
unfolding increment witness
advance t load start v = record { value = v; pc = loaded v }
advance t (attempt ok) (loaded c) v =
    if ltb t c
    then record { value = v; pc = done }
    else if ok && nat_beq v c
    then record { value = (t + 1) % u64_mod; pc = done }
    else record { value = v; pc = start }
advance t others_increment pc v = record { value = (increment v).0; pc = pc }
advance t (others_witness u) pc v = record { value = witness v u; pc = pc }
advance t _ pc v = record { value = v; pc = pc }

unfoldable pub run : ℕ → List Action → World → World
run t [] w = w
run t (a ∷ acts) w = run t acts (advance t a w.pc w.value)

-- What is known of the value at each point of the call.
abbrev Holds : ℕ → Pc → ℕ → Type 0
Holds t start v = Unit
Holds t (loaded c) v = c ≤ v
Holds t done v = t < v

-- Other threads witness times below `b`.
abbrev pub IsBelow : ℕ → Action → Type 0
IsBelow b (others_witness u) = u < b
IsBelow b load = Unit
IsBelow b (attempt ok) = Unit
IsBelow b others_increment = Unit

advance_keeps :
    (t b : ℕ) (a : Action) (pc : Pc) (v : ℕ)
    → t < b
    → v ≤ b
    → b + 1 < u64_mod
    → IsBelow b a
    → Holds t pc v
    → let w = advance t a pc v in (v ≤ w.value) × (w.value ≤ b + 1) × Holds t w.pc w.value
unfolding advance
advance_keeps t b load start v ht hv hb ha h = ground arith
advance_keeps t b load (loaded c) v ht hv hb ha h = ground arith
advance_keeps t b load done v ht hv hb ha h = ground arith
advance_keeps t b (attempt ok) start v ht hv hb ha h = ground arith
advance_keeps t b (attempt ok) (loaded c) v ht hv hb ha h = ground arith
advance_keeps t b (attempt ok) done v ht hv hb ha h = ground arith
advance_keeps t b others_increment start v ht hv hb ha h = ground arith
advance_keeps t b others_increment (loaded c) v ht hv hb ha h = ground arith
advance_keeps t b others_increment done v ht hv hb ha h = ground arith
advance_keeps t b (others_witness u) start v ht hv hb ha h = ground arith
advance_keeps t b (others_witness u) (loaded c) v ht hv hb ha h = ground arith
advance_keeps t b (others_witness u) done v ht hv hb ha h = ground arith

IsBelow-suc : (b : ℕ) (a : Action) → IsBelow b a → IsBelow (b + 1) a
IsBelow-suc b load h = tt
IsBelow-suc b (attempt ok) h = tt
IsBelow-suc b others_increment h = tt
IsBelow-suc b (others_witness u) h = omega arith

All-IsBelow-suc : (b : ℕ) (acts : List Action) → All (IsBelow b) acts → All (IsBelow (b + 1)) acts
All-IsBelow-suc b [] h = tt
All-IsBelow-suc b (a ∷ acts) h = (IsBelow-suc b a h.0, All-IsBelow-suc b acts h.1)

run_keeps :
    (t b : ℕ) (acts : List Action) (w : World)
    → t < b
    → w.value ≤ b
    → b + length acts < u64_mod
    → All (IsBelow b) acts
    → Holds t w.pc w.value
    → (w.value ≤ (run t acts w).value) × Holds t (run t acts w).pc (run t acts w).value
unfolding run
run_keeps t b [] w ht hv hb ha h = (omega arith, h)
run_keeps t b (a ∷ acts) w ht hv hb ha h =
    let kept = advance_keeps t b a w.pc w.value ht hv (omega arith) ha.0 h in
    let rest =
      run_keeps t (b + 1) acts (advance t a w.pc w.value) (omega arith) kept.1 (omega arith)
        (All-IsBelow-suc b acts ha.1) kept.2 in
    (omega arith, rest.1)

Holds-done : (t : ℕ) (pc : Pc) (v : ℕ) → pc ≡ done → Holds t pc v → t < v
Holds-done t start v e h = absurd (ground arith)
Holds-done t (loaded c) v e h = absurd (ground arith)
Holds-done t done v e h = h

-- Under any interleaving with other calls, as long as the clock stays below 2^64: the clock never
-- goes back, and if the call of `witness t` has returned, the clock is past `t`.
pub witness_interleaved :
    (t b v : ℕ) (acts : List Action)
    → t < b
    → v ≤ b
    → b + length acts < u64_mod
    → All (IsBelow b) acts
    → let w = run t acts (record { value = v; pc = start }) in
      (v ≤ w.value) × (w.pc ≡ done → t < w.value)
witness_interleaved t b v acts ht hv hb ha =
    let kept = run_keeps t b acts (record { value = v; pc = start }) ht hv hb ha tt in
    (kept.0, λ e. Holds-done t _ _ e kept.1)

-- From any point of the call, a round that nobody disturbs returns, whatever the clock holds.
pub witness_returns :
    (t : ℕ) (w : World) → (run t (attempt true ∷ load ∷ attempt true ∷ []) w).pc ≡ done
unfolding run advance
witness_returns t w = go w.pc w.value
  where
    go :
        (pc : Pc) (v : ℕ)
        → (run t (attempt true ∷ load ∷ attempt true ∷ []) (record { value = v; pc = pc })).pc
          ≡ done
    go start v = ground arith
    go (loaded c) v = ground arith
    go done v = refl

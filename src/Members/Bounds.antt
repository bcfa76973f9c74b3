-- ===== src/Members/Bounds.antt =====
-- The sizes of the tables: `num_alive` of the reconnector and `get_queue_max` of the queue checker
-- (core/src/serf/base.rs), and why the subtraction of the former is exact.
use ruserf.Prelude.{
  ℕ, ◌+◌, ◌-◌, ◌*◌, ◌≤◌, ◌≡◌, refl, Option, none, some, List, [], ◌∷◌, ◌++◌, Eq, length, count,
  count-append, length-append, length-le_of_count, keys, length-keys, max, ltb, lookup,
  found-le-occurs, is_some, to_ℕ, arith, if◌then◌else◌,
}
use ruserf.Types.{MemberState, Members}
use ruserf.Members.Base.{id_of}
use ruserf.Members.Invariant.{listed, Fits, IsValid}

module _ {I A : Type 0} where
  -- `(states.len() - num_failed - left_members.len()).max(1)`; `none` where the usize subtraction
  -- would underflow.
  unfoldable pub num_alive : Members I A → Option ℕ
  num_alive m =
      let states = length m.states in
      let failed = length m.failed_members in
      let left = length m.left_members in
      if ltb states failed
      then none
      else if ltb (states - failed) left
      then none
      else some (max (states - failed - left) 1)

  unfoldable pub get_queue_max : (max_queue_depth min_queue_depth : ℕ) → Members I A → ℕ
  get_queue_max max_queue_depth min_queue_depth m =
      if ltb 0 min_queue_depth
      then (let twice = length m.states * 2 in
          if ltb twice min_queue_depth then min_queue_depth else twice)
      else max_queue_depth

  ids : List (MemberState I A) → List I
  ids [] = []
  ids (m ∷ ms) = id_of m ∷ ids ms

  length-ids : (l : List (MemberState I A)) → length (ids l) ≡ length l
  unfolding ids
  length-ids [] = refl
  length-ids (m ∷ l) = omega (arith, length-ids l)

module _ {I A : Type 0} ⦃e : Eq I⦄ where
  count-ids : (j : I) (l : List (MemberState I A)) → count j (ids l) ≡ listed j l
  unfolding ids
  count-ids j [] = refl
  count-ids j (m ∷ l) = omega (arith, count-ids j l)

  Fits-le :
      (j : I) (o : Option (MemberState I A)) (f l : ℕ) → Fits j o f l → f + l ≤ to_ℕ (is_some o)
  Fits-le j none f l h = omega arith
  Fits-le j (some m) f l h = ground arith

  -- In well-formed members the two lists together hold at most as many entries as the table.
  pub length_failed_left :
      (m : Members I A)
      → IsValid m
      → length m.failed_members + length m.left_members ≤ length m.states
  length_failed_left m v = omega (
    arith,
    length-le_of_count (ids m.failed_members ++ ids m.left_members) (keys m.states) (λ j. omega (
      arith,
      count-append j (ids m.failed_members) (ids m.left_members),
      count-ids j m.failed_members,
      count-ids j m.left_members,
      Fits-le j (lookup j m.states) (listed j m.failed_members) (listed j m.left_members)
          (v.fits j),
      found-le-occurs j m.states,
    )),
    length-append (ids m.failed_members) (ids m.left_members),
    length-ids m.failed_members,
    length-ids m.left_members,
    length-keys m.states,
  )

  -- On well-formed members the subtraction in `num_alive` never underflows, and its result is at
  -- least 1.
  pub num_alive_exact :
      (m : Members I A)
      → IsValid m
      → (n : ℕ) × (num_alive m ≡ some n)
        × (1 ≤ n)
        × (n ≡ max (length m.states - (length m.failed_members + length m.left_members)) 1)
  unfolding num_alive
  num_alive_exact m v =
      let low = length_failed_left m v in
      (
        max (length m.states - length m.failed_members - length m.left_members) 1,
        ground arith,
        omega arith,
        omega arith,
      )

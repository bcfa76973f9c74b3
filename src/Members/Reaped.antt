-- ===== src/Members/Reaped.antt =====
-- What a pass of `reap!` (core/src/serf/base.rs) does to a list of old members and to the table.
use ruserf.Prelude.{
  ℕ, zero, suc, ◌+◌, ◌≤◌, ◌≡◌, refl, Bool, true, not, ◌&&◌, none, some, List, [], ◌∷◌, Eq, ◌==◌,
  length, get_elem?, take, to_ℕ, arith, nat_beq, lookup, occurs, lookup-remove, occurs-remove,
  if◌then◌else◌, Bool-cases, Option-cases, inl, inr, get_elem?-some,
}
use ruserf.Types.{Member, MemberState}
use ruserf.Serf.{Serf}
use ruserf.Members.Base.{id_of, erase_node}
use ruserf.Members.Reap.{swap_remove, expired, reap_loop}
use ruserf.Members.Tally.{
  tally, tally_split, tally_mono, tally-swap_remove, take-swap_remove, length-swap_remove,
}

take_all {ℓ} : {X : Type ℓ} (l : List X) → take (length l) l ≡ l
take_all [] = refl
take_all (x ∷ l) = rw (take_all l)

tally-take_next {ℓ} :
    {X : Type ℓ} (p : X → Bool) (l : List X) (i : ℕ) (m : X)
    → get_elem? l i ≡ some m
    → tally p (take (suc i) l) ≡ tally p (take i l) + to_ℕ (p m)
tally-take_next p [] i m h = absurd (ground arith)
tally-take_next p (x ∷ l) zero m h = ground arith
tally-take_next p (x ∷ l) (suc i) m h = omega (arith, tally-take_next p l i m h)

module _ {I A : Type 0} ⦃e : Eq I⦄ (timeout_of : Member I A → ℕ) (now : ℕ) where
  abbrev pub is_expired : MemberState I A → Bool
  is_expired m = expired timeout_of now m

  -- An entry of node `j` whose timeout has passed.
  abbrev pub gone : I → MemberState I A → Bool
  gone j m = is_expired m && id_of m == j

  -- A relation between what a pass starts from and what it ends with holds if it holds of a pass
  -- that removes nothing, and is kept by one removal in front.
  reap_loop_rule {κ} :
      (R : List (MemberState I A) → Serf I A → List (MemberState I A) → Serf I A → Type κ)
      → ((old : List (MemberState I A)) (s : Serf I A) → R old s old s)
      → ((i : ℕ) (old : List (MemberState I A)) (m : MemberState I A) (s : Serf I A)
            (kept : List (MemberState I A)) (s' : Serf I A)
          → get_elem? old i ≡ some m
          → is_expired m ≡ true
          → R (swap_remove old i) (erase_node (id_of m) m s) kept s'
          → R old s kept s')
      → (rounds i : ℕ) (old : List (MemberState I A)) (s : Serf I A)
      → R old s
          (reap_loop timeout_of now rounds i old s).0
          (reap_loop timeout_of now rounds i old s).1
  unfolding reap_loop
  reap_loop_rule R stop drop zero i old s = stop old s
  reap_loop_rule R stop drop (suc rounds) i old s = elim (Option-cases (get_elem? old i)) [
    | inl out ↦ rw (out, reap_loop) (stop old s)
    | inr (m, here) ↦ elim (Bool-cases (is_expired m)) [
      | inl due ↦
          rw (here, reap_loop)
            (rw (due, reap_loop)
              (drop i old m s _ _ here due (
                reap_loop_rule R stop drop rounds i (swap_remove old i)
                  (erase_node (id_of m) m s))))
      | inr fresh ↦
          rw (here, reap_loop)
            (rw (fresh, reap_loop) (reap_loop_rule R stop drop rounds (i + 1) old s))
    ]
  ]

  -- A pass keeps each entry that is not due, as often as it was there.
  pub reap_loop-fresh :
      (p : MemberState I A → Bool) (rounds i : ℕ) (old : List (MemberState I A)) (s : Serf I A)
      → tally (λ m. not (is_expired m) && p m) (reap_loop timeout_of now rounds i old s).0
        ≡ tally (λ m. not (is_expired m) && p m) old
  reap_loop-fresh p =
      reap_loop_rule
        (λ old s kept s'.
          tally (λ m. not (is_expired m) && p m) kept ≡ tally (λ m. not (is_expired m) && p m) old)
        (λ old s. refl)
        (λ i old m s kept s' here due rest.
          ground (arith, tally-swap_remove (λ m. not (is_expired m) && p m) old i m here))

  -- A pass takes exactly the nodes of the removed entries out of the table.
  pub reap_loop-lookup :
      (j : I) (rounds i : ℕ) (old : List (MemberState I A)) (s : Serf I A)
      → let (kept, s') = reap_loop timeout_of now rounds i old s in
        (tally (gone j) kept ≤ tally (gone j) old)
        × (lookup j s'.members.states ≡ (
            if nat_beq (tally (gone j) kept) (tally (gone j) old)
            then lookup j s.members.states
            else none))
  reap_loop-lookup j =
      reap_loop_rule
        (λ old s kept s'.
          (tally (gone j) kept ≤ tally (gone j) old)
          × (lookup j s'.members.states ≡ (
              if nat_beq (tally (gone j) kept) (tally (gone j) old)
              then lookup j s.members.states
              else none)))
        (λ old s. ground arith)
        (λ i old m s kept s' here due rest.
          unfold erase_node in
          ground (
            arith,
            tally-swap_remove (gone j) old i m here,
            lookup-remove (id_of m) j s.members.states,
          ))

  pub reap_loop-frame :
      (rounds i : ℕ) (old : List (MemberState I A)) (s : Serf I A)
      → let s' = (reap_loop timeout_of now rounds i old s).1 in
        s'.members ≡ record s.members { states = s'.members.states }
  reap_loop-frame =
      reap_loop_rule (λ old s kept s'. s'.members ≡ record s.members { states = s'.members.states })
        (λ old s. refl) (λ i old m s kept s' here due rest. unfold erase_node in rest)

  pub reap_loop-occurs :
      (j : I) (rounds i : ℕ) (old : List (MemberState I A)) (s : Serf I A)
      → occurs j (reap_loop timeout_of now rounds i old s).1.members.states
        ≤ occurs j s.members.states
  reap_loop-occurs j =
      reap_loop_rule (λ old s kept s'. occurs j s'.members.states ≤ occurs j s.members.states)
        (λ old s. omega arith)
        (λ i old m s kept s' here due rest.
          unfold erase_node in ground (arith, occurs-remove (id_of m) j s.members.states))

  -- With as many rounds as there are entries left, and no due entry before the index, a pass leaves
  -- no due entry.
  reap_loop_finishes :
      (rounds i : ℕ) (old : List (MemberState I A)) (s : Serf I A)
      → rounds + i ≡ length old
      → tally is_expired (take i old) ≡ 0
      → tally is_expired (reap_loop timeout_of now rounds i old s).0 ≡ 0
  unfolding reap_loop
  reap_loop_finishes zero i old s n clean =
      let e : i ≡ length old = omega arith in rw (← take_all old) (rw (← e) clean)
  reap_loop_finishes (suc rounds) i old s n clean =
      let (m, here) = get_elem?-some old i (omega arith) in
      elim (Bool-cases (is_expired m)) [
        | inl due ↦
            rw (here, reap_loop)
              (rw (due, reap_loop)
                (reap_loop_finishes rounds i (swap_remove old i) _
                  (omega (arith, length-swap_remove old i m here))
                  (rw (take-swap_remove old i (omega arith)) clean)))
        | inr fresh ↦
            rw (here, reap_loop)
              (rw (fresh, reap_loop)
                (reap_loop_finishes rounds (i + 1) old s (omega arith) (
                  let next : i + 1 ≡ suc i = omega arith in
                  rw next (ground (arith, tally-take_next is_expired old i m here)))))
      ]

  module _ (old : List (MemberState I A)) (s : Serf I A) where
    -- The whole pass, as `reap!` runs it.
    abbrev pub pass : List (MemberState I A) × Serf I A
    pass = reap_loop timeout_of now (length old) 0 old s

    pub pass-clean : tally is_expired pass.0 ≡ 0
    pass-clean = reap_loop_finishes (length old) 0 old s (omega arith) refl

    -- What is left in the list is what was not due.
    pub tally-pass :
        (p : MemberState I A → Bool) → tally p pass.0 ≡ tally (λ m. not (is_expired m) && p m) old
    tally-pass p = omega (
      arith,
      tally_split p is_expired pass.0,
      tally_mono (λ m. is_expired m && p m) is_expired pass.0 (λ m h. ground arith),
      pass-clean,
      reap_loop-fresh p (length old) 0 old s,
    )

    -- A node stays in the table exactly if no entry of it was due.
    pub lookup-pass :
        (j : I)
        → lookup j pass.1.members.states
          ≡ (if nat_beq (tally (gone j) old) 0 then lookup j s.members.states else none)
    lookup-pass j = ground (
      arith,
      reap_loop-lookup j (length old) 0 old s,
      tally_mono (gone j) is_expired pass.0 (λ m h. ground arith),
      pass-clean,
    )

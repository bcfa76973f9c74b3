-- ===== src/Members/Reaping.antt =====
-- The reaper of core/src/serf/base.rs, pass by pass and by the tick: what goes, what stays, and that
-- the members stay well formed.
use ruserf.Prelude.{
  ℕ, ◌+◌, ◌≤◌, ◌≡◌, refl, Bool, not, ◌&&◌, Option, none, some, List, [], ◌∷◌, Eq, ◌==◌, length,
  is_some, All, arith, nat_beq, lookup, occurs, if◌then◌else◌, ap,
}
use ruserf.Types.{Member, MemberState, Members}
use ruserf.Serf.{Serf}
use ruserf.Members.Base.{id_of}
use ruserf.Members.Reap.{expired, reap_failed, reap_left, reap_tick}
use ruserf.Members.Tally.{tally, tally_split}
use ruserf.Members.Reaped.{
  is_expired, gone, pass, tally-pass, lookup-pass, reap_loop-frame, reap_loop-occurs,
}
use ruserf.Members.Invariant.{listed, Fits, IsDated, IsValid}
use ruserf.Members.Moves.{intents-IsValid}

module _ {I A : Type 0} ⦃e : Eq I⦄ where
  reaped_failed-Fits :
      (j : I) (o : Option (MemberState I A)) (g f l : ℕ)
      → Fits j o (g + f) l
      → Fits j (if nat_beq g 0 then o else none) f l
  reaped_failed-Fits j none g f l h = ground arith
  reaped_failed-Fits j (some m) g f l h = ground arith

  reaped_left-Fits :
      (j : I) (o : Option (MemberState I A)) (g f l : ℕ)
      → Fits j o f (g + l)
      → Fits j (if nat_beq g 0 then o else none) f l
  reaped_left-Fits j none g f l h = ground arith
  reaped_left-Fits j (some m) g f l h = ground arith

  listed-tally : (j : I) (l : List (MemberState I A)) → listed j l ≡ tally (λ m. id_of m == j) l
  listed-tally j [] = refl
  listed-tally j (m ∷ l) = omega (arith, listed-tally j l)

  undated : MemberState I A → Bool
  undated m = not (is_some m.leave_time)

  tally-undated : (l : List (MemberState I A)) → All IsDated l → tally undated l ≡ 0
  unfolding undated
  tally-undated [] h = refl
  tally-undated (m ∷ l) h = ground (arith, tally-undated l h.1)

  All-IsDated : (l : List (MemberState I A)) → tally undated l ≡ 0 → All IsDated l
  unfolding undated
  All-IsDated [] h = tt
  All-IsDated (m ∷ l) h = ground (arith, All-IsDated l)

  module _ (timeout_of : Member I A → ℕ) (now : ℕ) (old : List (MemberState I A))
      (s : Serf I A) where
    -- The entries of a node before a pass are the due ones and those that are left.
    listed-pass :
        (j : I)
        → listed j old ≡ tally (gone timeout_of now j) old + listed j (pass timeout_of now old s).0
    listed-pass j = omega (
      arith,
      listed-tally j old,
      listed-tally j (pass timeout_of now old s).0,
      tally-pass timeout_of now old s (λ m. id_of m == j),
      tally_split (λ m. id_of m == j) (is_expired timeout_of now) old,
    )

    pass-IsDated : All IsDated old → All IsDated (pass timeout_of now old s).0
    pass-IsDated h = All-IsDated (pass timeout_of now old s).0 (
        omega (
          arith,
          tally-undated old h,
          tally-pass timeout_of now old s undated,
          tally_split undated (is_expired timeout_of now) old,
        ))

    pass-distinct :
        ((j : I) → occurs j s.members.states ≤ 1)
        → (j : I) → occurs j (pass timeout_of now old s).1.members.states ≤ 1
    pass-distinct h j = omega (arith, h j, reap_loop-occurs timeout_of now j (length old) 0 old s)

  module _ (timeout_of : Member I A → ℕ) (now : ℕ) (s : Serf I A) where
    -- A pass over the failed members keeps the members well formed.
    pub reap_failed-IsValid : IsValid s.members → IsValid (reap_failed timeout_of now s).members
    unfolding reap_failed
    reap_failed-IsValid v =
        let old = s.members.failed_members in
        let p = pass timeout_of now old s in
        let frame = reap_loop-frame timeout_of now (length old) 0 old s in
        let same : p.1.members.left_members ≡ s.members.left_members =
          ap (λ (m : Members I A). m.left_members) frame in
        record {
          fits = λ j. rw (lookup-pass timeout_of now old s j) (
              rw same (
                reaped_failed-Fits j (lookup j s.members.states) (tally (gone timeout_of now j) old)
                  (listed j p.0) (listed j s.members.left_members)
                  (rw (← listed-pass timeout_of now old s j) (v.fits j))));
          distinct = pass-distinct timeout_of now old s v.distinct;
          failed_dated = pass-IsDated timeout_of now old s v.failed_dated;
          left_dated = rw same v.left_dated;
        }

    pub reap_left-IsValid : IsValid s.members → IsValid (reap_left timeout_of now s).members
    unfolding reap_left
    reap_left-IsValid v =
        let old = s.members.left_members in
        let p = pass timeout_of now old s in
        let frame = reap_loop-frame timeout_of now (length old) 0 old s in
        let same : p.1.members.failed_members ≡ s.members.failed_members =
          ap (λ (m : Members I A). m.failed_members) frame in
        record {
          fits = λ j. rw (lookup-pass timeout_of now old s j) (
              rw same (
                reaped_left-Fits j (lookup j s.members.states) (tally (gone timeout_of now j) old)
                  (listed j s.members.failed_members) (listed j p.0)
                  (rw (← listed-pass timeout_of now old s j) (v.fits j))));
          distinct = pass-distinct timeout_of now old s v.distinct;
          failed_dated = rw same v.failed_dated;
          left_dated = pass-IsDated timeout_of now old s v.left_dated;
        }

    -- One pass of `reap!` over the failed members, whatever the state: every entry that is left is
    -- not due, each entry that was not due is left, as often as it was there, and a node stays in the
    -- table, with its state, exactly if no failed entry of it was due.
    pub reap_failed_exact :
        let s' = reap_failed timeout_of now s in
        ((p : MemberState I A → Bool)
          → tally p s'.members.failed_members
            ≡ tally (λ m. not (expired timeout_of now m) && p m) s.members.failed_members)
        × ((j : I)
            → lookup j s'.members.states ≡ (
                if nat_beq
                  (tally (λ m. expired timeout_of now m && id_of m == j) s.members.failed_members)
                  0
                then lookup j s.members.states
                else none))
    unfolding reap_failed
    reap_failed_exact =
        let old = s.members.failed_members in
        (tally-pass timeout_of now old s, lookup-pass timeout_of now old s)

  -- A tick of the reaper keeps the members well formed.
  pub reap_tick-IsValid :
      (timeout_of : Member I A → ℕ → ℕ) (now a b c : ℕ) (s : Serf I A)
      → IsValid s.members
      → IsValid (reap_tick timeout_of now a b c s).members
  unfolding reap_tick
  reap_tick-IsValid timeout_of now a b c s v = intents-IsValid _ _ (
      reap_left-IsValid (λ m. timeout_of m b) now _
        (reap_failed-IsValid (λ m. timeout_of m a) now s v))

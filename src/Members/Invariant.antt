-- ===== src/Members/Invariant.antt =====
-- The well-formedness of `Members` (core/src/types/member.rs), and how the helpers of
-- core/src/serf/base.rs move it.
use ruserf.Prelude.{
  ℕ, ◌+◌, ◌≤◌, ◌≡◌, true, false, not, ◌||◌, Option, none, some, List, [], ◌∷◌, ◌++◌, Eq, ◌==◌, to_ℕ,
  is_some, All, All-retain, lookup, insert, remove, occurs, lookup-insert, lookup-remove,
  occurs-insert, occurs-remove, arith, if◌then◌else◌,
}
use ruserf.Types.{MemberState, Members}
use ruserf.Members.Base.{is_left, is_failed, id_of, status_of, remove_old_member}

module _ {I A : Type 0} ⦃e : Eq I⦄ where
  -- How often a node stands in a list of old members.
  abbrev pub listed : I → List (MemberState I A) → ℕ
  listed j [] = 0
  listed j (m ∷ ms) = to_ℕ (id_of m == j) + listed j ms

  -- What the table of states says of node `j`, beside its numbers of entries in the failed and in
  -- the left list: a failed node is in the failed list, once, and a left node in the left list,
  -- once; exactly these two have a leave time.
  abbrev pub Fits : I → Option (MemberState I A) → ℕ → ℕ → Type 0
  Fits j none f l = (f ≡ 0) × (l ≡ 0)
  Fits j (some m) f l =
      (id_of m ≡ j)
      × (f ≡ to_ℕ (is_failed (status_of m)))
      × (l ≡ to_ℕ (is_left (status_of m)))
      × (is_some m.leave_time ≡ (is_failed (status_of m) || is_left (status_of m)))

  abbrev pub IsDated : MemberState I A → Type 0
  IsDated m = is_some m.leave_time ≡ true

  pub record IsValid (m : Members I A) : Type 0 where
    pub fits :
        (j : I) → Fits j (lookup j m.states) (listed j m.failed_members) (listed j m.left_members)
    pub distinct : (j : I) → occurs j m.states ≤ 1
    pub failed_dated : All IsDated m.failed_members
    pub left_dated : All IsDated m.left_members

  pub listed-append :
      (j : I) (l k : List (MemberState I A)) → listed j (l ++ k) ≡ listed j l + listed j k
  listed-append j [] k = omega arith
  listed-append j (m ∷ l) k = omega (arith, listed-append j l k)

  pub listed-remove_old_member :
      (j k : I) (l : List (MemberState I A))
      → listed j (remove_old_member l k) ≡ (if k == j then 0 else listed j l)
  unfolding remove_old_member
  listed-remove_old_member j k [] = ground arith
  listed-remove_old_member j k (m ∷ l) = ground (
    arith,
    listed-remove_old_member j k l,
    e.beq_iff (id_of m) j,
    e.beq_iff (id_of m) k,
    e.beq_iff k j,
  )

  pub remove_old_member-IsDated :
      (k : I) (l : List (MemberState I A)) → All IsDated l → All IsDated (remove_old_member l k)
  unfolding remove_old_member
  remove_old_member-IsDated k l h = All-retain IsDated (λ m. not (id_of m == k)) l h

  pub insert-distinct :
      (k : I) (x : MemberState I A) (m : List (I × MemberState I A))
      → ((j : I) → occurs j m ≤ 1)
      → (j : I) → occurs j (insert k x m) ≤ 1
  insert-distinct k x m h j = ground (arith, occurs-insert k j x m, h j)

  pub remove-distinct :
      (k : I) (m : List (I × MemberState I A))
      → ((j : I) → occurs j m ≤ 1)
      → (j : I) → occurs j (remove k m) ≤ 1
  remove-distinct k m h j = ground (arith, occurs-remove k j m, h j)

  -- To put a state into the table at `id` keeps `Fits` at every other node whose numbers of entries
  -- stay.
  pub insert-Fits :
      (id : I) (x : MemberState I A) (states : List (I × MemberState I A)) (f l f' l' : I → ℕ)
      → ((j : I) → Fits j (lookup j states) (f j) (l j))
      → ((j : I) → (id == j) ≡ false → (f' j ≡ f j) × (l' j ≡ l j))
      → Fits id (some x) (f' id) (l' id)
      → (j : I) → Fits j (lookup j (insert id x states)) (f' j) (l' j)
  insert-Fits id x states f l f' l' old same new j =
      ground (arith, old j, same j, e.beq_iff id j, lookup-insert id j x states)

  pub remove-Fits :
      (id : I) (states : List (I × MemberState I A)) (f l f' l' : I → ℕ)
      → ((j : I) → Fits j (lookup j states) (f j) (l j))
      → ((j : I) → (id == j) ≡ false → (f' j ≡ f j) × (l' j ≡ l j))
      → f' id ≡ 0
      → l' id ≡ 0
      → (j : I) → Fits j (lookup j (remove id states)) (f' j) (l' j)
  remove-Fits id states f l f' l' old same nf nl j =
      ground (arith, old j, same j, e.beq_iff id j, lookup-remove id j states)

  -- The number of entries of node `j` after a push of `x`.
  pub listed-push :
      (j : I) (l : List (MemberState I A)) (x : MemberState I A)
      → listed j (l ++ x ∷ []) ≡ listed j l + to_ℕ (id_of x == j)
  listed-push j l x = omega (arith, listed-append j l (x ∷ []))

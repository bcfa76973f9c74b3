-- ===== src/Members/Moves.antt =====
-- The moves between the table and the two lists that the handlers of core/src/serf/base.rs are made
-- of: each keeps the members well formed.
use ruserf.Prelude.{
  ◌≡◌, refl, false, some, List, [], ◌∷◌, ◌++◌, Eq, All-append, lookup, insert, remove, arith,
}
use ruserf.Types.{MemberState, Members, NodeIntent}
use ruserf.Members.Base.{is_failed, id_of, status_of, remove_old_member}
use ruserf.Members.Invariant.{
  listed, Fits, IsDated, IsValid, listed-remove_old_member, remove_old_member-IsDated,
  insert-distinct, remove-distinct, insert-Fits, remove-Fits, listed-push,
}

module _ {I A : Type 0} ⦃e : Eq I⦄ where
  -- A new state for `id` under the same lists, where the status is neither failed nor left, or is
  -- what it was.
  pub update-IsValid :
      (id : I) (x : MemberState I A) (m : Members I A)
      → IsValid m
      → Fits id (some x) (listed id m.failed_members) (listed id m.left_members)
      → IsValid (record m { states = insert id x m.states })
  update-IsValid id x m v fit = record {
    fits =
        insert-Fits id x m.states (λ j. listed j m.failed_members) (λ j. listed j m.left_members) _
          _ v.fits (λ j n. (refl, refl)) fit;
    distinct = insert-distinct id x m.states v.distinct;
    failed_dated = v.failed_dated;
    left_dated = v.left_dated;
  }

  -- A node that was in neither list goes down: its new state, left, goes to the left list.
  pub to_left-IsValid :
      (id : I) (x : MemberState I A) (m : Members I A)
      → IsValid m
      → Fits id (some x) 0 1
      → listed id m.left_members ≡ 0
      → listed id m.failed_members ≡ 0
      → IsValid
          (record m { states = insert id x m.states; left_members = m.left_members ++ x ∷ [] })
  to_left-IsValid id x m v fit nl nf = record {
    fits =
        insert-Fits id x m.states (λ j. listed j m.failed_members) (λ j. listed j m.left_members) _
          (λ j. listed j (m.left_members ++ x ∷ [])) v.fits
          (λ j n. ground (arith, listed-push j m.left_members x))
          (ground (arith, listed-push id m.left_members x, e.beq_iff id id));
    distinct = insert-distinct id x m.states v.distinct;
    failed_dated = v.failed_dated;
    left_dated = All-append IsDated m.left_members (x ∷ []) v.left_dated (ground arith);
  }

  pub to_failed-IsValid :
      (id : I) (x : MemberState I A) (m : Members I A)
      → IsValid m
      → Fits id (some x) 1 0
      → listed id m.left_members ≡ 0
      → listed id m.failed_members ≡ 0
      → IsValid
          (record m { states = insert id x m.states; failed_members = m.failed_members ++ x ∷ [] })
  to_failed-IsValid id x m v fit nl nf = record {
    fits =
        insert-Fits id x m.states (λ j. listed j m.failed_members) (λ j. listed j m.left_members)
          (λ j. listed j (m.failed_members ++ x ∷ [])) _ v.fits
          (λ j n. ground (arith, listed-push j m.failed_members x))
          (ground (arith, listed-push id m.failed_members x, e.beq_iff id id));
    distinct = insert-distinct id x m.states v.distinct;
    failed_dated = All-append IsDated m.failed_members (x ∷ []) v.failed_dated (ground arith);
    left_dated = v.left_dated;
  }

  -- `id` out of both lists, and a new state for it that belongs to neither.
  pub to_up-IsValid :
      (id : I) (x : MemberState I A) (m : Members I A)
      → IsValid m
      → Fits id (some x) 0 0
      → IsValid (record m {
        states = insert id x m.states;
        failed_members = remove_old_member m.failed_members id;
        left_members = remove_old_member m.left_members id;
      })
  to_up-IsValid id x m v fit = record {
    fits =
        insert-Fits id x m.states (λ j. listed j m.failed_members) (λ j. listed j m.left_members)
          (λ j. listed j (remove_old_member m.failed_members id))
          (λ j. listed j (remove_old_member m.left_members id)) v.fits
          (λ j n. ground (
            arith,
            listed-remove_old_member j id m.failed_members,
            listed-remove_old_member j id m.left_members,
          ))
          (ground (
            arith,
            e.beq_iff id id,
            listed-remove_old_member id id m.failed_members,
            listed-remove_old_member id id m.left_members,
          ));
    distinct = insert-distinct id x m.states v.distinct;
    failed_dated = remove_old_member-IsDated id m.failed_members v.failed_dated;
    left_dated = remove_old_member-IsDated id m.left_members v.left_dated;
  }

  -- A failed node that leaves: out of the failed list, and into the left list.
  pub failed_to_left-IsValid :
      (id : I) (x : MemberState I A) (m : Members I A)
      → IsValid m
      → Fits id (some x) 0 1
      → listed id m.left_members ≡ 0
      → IsValid (record m {
        states = insert id x m.states;
        failed_members = remove_old_member m.failed_members (id_of x);
        left_members = m.left_members ++ x ∷ [];
      })
  failed_to_left-IsValid id x m v fit nl = record {
    fits =
        insert-Fits id x m.states (λ j. listed j m.failed_members) (λ j. listed j m.left_members)
          (λ j. listed j (remove_old_member m.failed_members (id_of x)))
          (λ j. listed j (m.left_members ++ x ∷ [])) v.fits
          (λ j n. ground (
            arith,
            listed-remove_old_member j (id_of x) m.failed_members,
            listed-push j m.left_members x,
          ))
          (ground (
            arith,
            e.beq_iff id id,
            listed-remove_old_member id (id_of x) m.failed_members,
            listed-push id m.left_members x,
          ));
    distinct = insert-distinct id x m.states v.distinct;
    failed_dated = remove_old_member-IsDated (id_of x) m.failed_members v.failed_dated;
    left_dated = All-append IsDated m.left_members (x ∷ []) v.left_dated (ground arith);
  }

  -- A node that has not failed is taken out of the table and of the left list.
  pub pruned-IsValid :
      (id : I) (x : MemberState I A) (m : Members I A)
      → IsValid m
      → lookup id m.states ≡ some x
      → is_failed (status_of x) ≡ false
      → IsValid (record m {
        states = remove id m.states;
        left_members = remove_old_member m.left_members id;
      })
  pruned-IsValid id x m v h up = record {
    fits =
        remove-Fits id m.states (λ j. listed j m.failed_members) (λ j. listed j m.left_members) _
          (λ j. listed j (remove_old_member m.left_members id)) v.fits
          (λ j n. ground (arith, listed-remove_old_member j id m.left_members))
          (ground (arith, v.fits id))
          (ground (arith, e.beq_iff id id, listed-remove_old_member id id m.left_members));
    distinct = remove-distinct id m.states v.distinct;
    failed_dated = v.failed_dated;
    left_dated = remove_old_member-IsDated id m.left_members v.left_dated;
  }

  pub intents-IsValid :
      (m : Members I A) (intents : List (I × NodeIntent))
      → IsValid m
      → IsValid (record m { recent_intents = intents })
  intents-IsValid m intents v = record {
    fits = v.fits;
    distinct = v.distinct;
    failed_dated = v.failed_dated;
    left_dated = v.left_dated;
  }

-- ===== src/Wire/Tables.antt =====
-- A map or a set without repetition is collected again from its entries (types/src).
use ruserf.Prelude.{
  ◌+◌, ◌≡◌, refl, sym, ◌∙◌, true, false, List, [], ◌∷◌, ◌++◌, Eq, ◌==◌, insert, keys, count,
  count-append, contains, occurs, IsDistinct, beq_refl, arith,
}
use mathlib.Core.List.{append_assoc, append-nil}
use ruserf.Wire.States.{collect, collect_set}

module _ {K V : Type 0} ⦃q : Eq K⦄ where
  insert_new :
      (k : K) (v : V) (table : List (K × V))
      → occurs k table ≡ 0
      → insert k v table ≡ table ++ (k, v) ∷ []
  unfolding insert
  insert_new k v [] h = refl
  insert_new k v ((own, old) ∷ table) h =
      let rest = insert_new k v table (omega arith) in ground (arith, q.beq_iff own k)

  occurs-append : (k : K) (l m : List (K × V)) → occurs k (l ++ m) ≡ occurs k l + occurs k m
  occurs-append k [] m = omega arith
  occurs-append k (e ∷ l) m = omega (arith, occurs-append k l m)

  pub collect_same :
      (table es : List (K × V)) → IsDistinct (keys (table ++ es)) → collect table es ≡ table ++ es
  unfolding collect
  collect_same table [] h = sym (append-nil table)
  collect_same table (e ∷ es) h =
      let most = h e.0 in
      let parts = occurs-append e.0 table (e ∷ es) in
      let here : (e.0 == e.0) ≡ true = beq_refl e.0 in
      let new : insert e.0 e.1 table ≡ table ++ e ∷ [] =
        insert_new e.0 e.1 table (ground (arith, most, parts, here)) in
      let later : IsDistinct (keys ((table ++ e ∷ []) ++ es)) =
        rw (append_assoc table (e ∷ []) es) h in
      rw new (collect_same (table ++ e ∷ []) es later ∙ append_assoc table (e ∷ []) es)

module _ {K : Type 0} ⦃q : Eq K⦄ where
  contains_of_count : (k : K) (ks : List K) → count k ks ≡ 0 → contains k ks ≡ false
  contains_of_count k [] h = refl
  contains_of_count k (x ∷ ks) h = ground (arith, contains_of_count k ks)

  pub collect_set_same : (set ks : List K) → IsDistinct (set ++ ks) → collect_set set ks ≡ set ++ ks
  unfolding collect_set
  collect_set_same set [] h = sym (append-nil set)
  collect_set_same set (k ∷ ks) h =
      let most = h k in
      let parts = count-append k set (k ∷ ks) in
      let here : (k == k) ≡ true = beq_refl k in
      let new : contains k set ≡ false =
        contains_of_count k set (ground (arith, most, parts, here)) in
      let later : IsDistinct ((set ++ k ∷ []) ++ ks) = rw (append_assoc set (k ∷ []) ks) h in
      rw new (collect_set_same (set ++ k ∷ []) ks later ∙ append_assoc set (k ∷ []) ks)

-- ===== src/Prelude/Maps.antt =====
-- Hash maps as association lists: `insert` replaces the value of a key that is there.
use Prim.Native.Nat.{ℕ, ◌≤◌}
use mathlib.Core.Path.{◌≡◌, refl}
use mathlib.Core.List.{List, [], ◌∷◌}
use mathlib.Core.Option.{Option, none, some}
use native.Mathlib.Omega.{arith}
use ruserf.Prelude.Tests.{if◌then◌else◌, to_ℕ, is_some}
use ruserf.Prelude.Classes.{Eq, ◌==◌}
use ruserf.Prelude.Lists.{length, count}

module _ {ℓ κ} {K : Type ℓ} {V : Type κ} where
  abbrev pub keys : List (K × V) → List K
  keys [] = []
  keys (e ∷ m) = e.0 ∷ keys m

  pub length-keys : (m : List (K × V)) → length (keys m) ≡ length m
  length-keys [] = refl
  length-keys (e ∷ m) = omega (arith, length-keys m)

module _ {ℓ κ} {K : Type ℓ} {V : Type κ} ⦃q : Eq K⦄ where
  unfoldable pub lookup : K → List (K × V) → Option V
  lookup key [] = none
  lookup key ((own, value) ∷ rest) = if own == key then some value else lookup key rest

  unfoldable pub insert : K → V → List (K × V) → List (K × V)
  insert key value [] = (key, value) ∷ []
  insert key value ((own, old) ∷ rest) =
      let changed = insert key value rest in
      if own == key then (key, value) ∷ rest else (own, old) ∷ changed

  unfoldable pub remove : K → List (K × V) → List (K × V)
  remove k [] = []
  remove k ((j, w) ∷ m) = let rest = remove k m in if j == k then rest else (j, w) ∷ rest

  pub lookup-insert :
      (written read : K) (value : V) (table : List (K × V))
      → lookup read (insert written value table)
        ≡ (if written == read then some value else lookup read table)
  unfolding lookup insert
  lookup-insert written read value [] = refl
  lookup-insert written read value ((i, old) ∷ table) = ground (
    arith,
    q.beq_iff written read,
    q.beq_iff i written,
    q.beq_iff i read,
    lookup-insert written read value table,
  )

  pub lookup-remove :
      (k j : K) (m : List (K × V)) → lookup j (remove k m) ≡ (if k == j then none else lookup j m)
  unfolding lookup remove
  lookup-remove k j [] = ground arith
  lookup-remove k j ((i, w) ∷ m) =
      ground (arith, q.beq_iff k j, q.beq_iff i k, q.beq_iff i j, lookup-remove k j m)

  -- How often a key is bound.
  abbrev pub occurs : K → List (K × V) → ℕ
  occurs k m = count k (keys m)

  pub lookup_of_occurs : (k : K) (m : List (K × V)) → occurs k m ≡ 0 → lookup k m ≡ none
  unfolding lookup
  lookup_of_occurs k [] h = refl
  lookup_of_occurs k ((i, w) ∷ m) h = ground (arith, lookup_of_occurs k m)

  pub found-le-occurs : (k : K) (m : List (K × V)) → to_ℕ (is_some (lookup k m)) ≤ occurs k m
  unfolding lookup
  found-le-occurs k [] = omega arith
  found-le-occurs k ((i, w) ∷ m) = ground (arith, found-le-occurs k m)

  pub occurs-insert :
      (k j : K) (v : V) (m : List (K × V))
      → occurs j (insert k v m)
        ≡ (if k == j then (if is_some (lookup j m) then occurs j m else 1) else occurs j m)
  unfolding lookup insert
  occurs-insert k j v [] = ground arith
  occurs-insert k j v ((i, w) ∷ m) =
      ground (arith, q.beq_iff k j, q.beq_iff i k, q.beq_iff i j, occurs-insert k j v m)

  pub occurs-remove :
      (k j : K) (m : List (K × V)) → occurs j (remove k m) ≡ (if k == j then 0 else occurs j m)
  unfolding remove
  occurs-remove k j [] = ground arith
  occurs-remove k j ((i, w) ∷ m) =
      ground (arith, q.beq_iff k j, q.beq_iff i k, q.beq_iff i j, occurs-remove k j m)

-- ===== src/Prelude/Lists.antt =====
-- Lists measured and indexed by native numbers.
use Prim.Native.Nat.{ℕ, zero, suc, ◌+◌, ◌-◌, ◌≤◌, ◌<◌}
use mathlib.Core.Path.{◌≡◌, refl, ap}
use mathlib.Core.Logic.{◌≢◌, inl, inr}
use mathlib.Core.Bool.{Bool, false, ◌||◌}
use mathlib.Core.List.{List, [], ◌∷◌, ◌++◌}
use mathlib.Core.Option.{Option, none, some}
use native.Mathlib.Omega.{arith}
use ruserf.Prelude.Tests.{if◌then◌else◌, to_ℕ, Bool-cases}
use ruserf.Prelude.Classes.{Eq, ◌==◌}

module _ {ℓ} {A : Type ℓ} where
  abbrev pub length : List A → ℕ
  length [] = 0
  length (x ∷ xs) = suc (length xs)

  abbrev pub get_elem? : List A → ℕ → Option A
  get_elem? [] i = none
  get_elem? (x ∷ xs) zero = some x
  get_elem? (x ∷ xs) (suc i) = get_elem? xs i

  -- A write out of bounds changes nothing.
  abbrev pub set : List A → ℕ → A → List A
  set [] i v = []
  set (x ∷ xs) zero v = v ∷ xs
  set (x ∷ xs) (suc i) v = x ∷ set xs i v

  abbrev pub take : ℕ → List A → List A
  take zero xs = []
  take (suc n) [] = []
  take (suc n) (x ∷ xs) = x ∷ take n xs

  abbrev pub drop : ℕ → List A → List A
  drop zero xs = xs
  drop (suc n) [] = []
  drop (suc n) (x ∷ xs) = drop n xs

  abbrev pub replicate : ℕ → A → List A
  replicate zero a = []
  replicate (suc n) a = a ∷ replicate n a

  -- Rust's `retain` and `filter` by a Boolean test.
  abbrev pub retain : (A → Bool) → List A → List A
  retain p [] = []
  retain p (x ∷ xs) = let rest = retain p xs in if p x then x ∷ rest else rest

  abbrev pub any : (A → Bool) → List A → Bool
  any p [] = false
  any p (x ∷ xs) = p x || any p xs

  abbrev pub All {κ} : (A → Type κ) → List A → Type κ
  All P [] = Unit
  All P (x ∷ xs) = P x × All P xs

  pub length-append : (xs ys : List A) → length (xs ++ ys) ≡ length xs + length ys
  length-append [] ys = omega arith
  length-append (x ∷ xs) ys = omega (arith, length-append xs ys)

  pub length-set : (xs : List A) (i : ℕ) (v : A) → length (set xs i v) ≡ length xs
  length-set [] i v = refl
  length-set (x ∷ xs) zero v = refl
  length-set (x ∷ xs) (suc i) v = ap suc (length-set xs i v)

  pub length-replicate : (n : ℕ) (a : A) → length (replicate n a) ≡ n
  length-replicate zero a = refl
  length-replicate (suc n) a = ap suc (length-replicate n a)

  pub length-retain-le : (p : A → Bool) (xs : List A) → length (retain p xs) ≤ length xs
  length-retain-le p [] = omega arith
  length-retain-le p (x ∷ xs) = ground (arith, length-retain-le p xs)

  pub get_elem?-some : (xs : List A) (i : ℕ) → i < length xs → (a : A) × (get_elem? xs i ≡ some a)
  get_elem?-some [] i h = absurd (omega arith)
  get_elem?-some (x ∷ xs) zero h = (x, refl)
  get_elem?-some (x ∷ xs) (suc i) h = get_elem?-some xs i (omega arith)

  pub get_elem?_lt : (l : List A) (i : ℕ) (m : A) → get_elem? l i ≡ some m → i < length l
  get_elem?_lt [] i m h = absurd (ground arith)
  get_elem?_lt (x ∷ l) zero m h = omega arith
  get_elem?_lt (x ∷ l) (suc i) m h = omega (arith, get_elem?_lt l i m h)

  pub get_elem?-set_self :
      (xs : List A) (i : ℕ) (v : A) → i < length xs → get_elem? (set xs i v) i ≡ some v
  get_elem?-set_self [] i v h = absurd (omega arith)
  get_elem?-set_self (x ∷ xs) zero v h = refl
  get_elem?-set_self (x ∷ xs) (suc i) v h = get_elem?-set_self xs i v (omega arith)

  pub get_elem?-set_ne :
      (xs : List A) (i j : ℕ) (v : A) → i ≢ j → get_elem? (set xs i v) j ≡ get_elem? xs j
  get_elem?-set_ne [] i j v h = refl
  get_elem?-set_ne (x ∷ xs) zero zero v h = absurd (h refl)
  get_elem?-set_ne (x ∷ xs) zero (suc j) v h = refl
  get_elem?-set_ne (x ∷ xs) (suc i) zero v h = refl
  get_elem?-set_ne (x ∷ xs) (suc i) (suc j) v h = get_elem?-set_ne xs i j v (λ e. h (ap suc e))

  pub All-append {κ} : (P : A → Type κ) (xs ys : List A) → All P xs → All P ys → All P (xs ++ ys)
  All-append P [] ys hx hy = hy
  All-append P (x ∷ xs) ys hx hy = (hx.0, All-append P xs ys hx.1 hy)

  pub All-retain {κ} :
      (P : A → Type κ) (p : A → Bool) (xs : List A) → All P xs → All P (retain p xs)
  All-retain P p [] h = tt
  All-retain P p (x ∷ xs) h = ground (arith, All-retain P p xs h.1)

module _ {ℓ} {A : Type ℓ} ⦃e : Eq A⦄ where
  -- How often `a` stands in a list.
  abbrev pub count : A → List A → ℕ
  count a [] = 0
  count a (x ∷ xs) = to_ℕ (x == a) + count a xs

  abbrev pub contains : A → List A → Bool
  contains a [] = false
  contains a (x ∷ xs) = x == a || contains a xs

  pub count-append : (a : A) (xs ys : List A) → count a (xs ++ ys) ≡ count a xs + count a ys
  count-append a [] ys = omega arith
  count-append a (x ∷ xs) ys = omega (arith, count-append a xs ys)

  -- Without its first occurrence.
  erase_first : A → List A → List A
  erase_first a [] = []
  erase_first a (x ∷ xs) = let rest = erase_first a xs in if x == a then xs else x ∷ rest

  length-erase_first : (a : A) (xs : List A) → length xs ≤ suc (length (erase_first a xs))
  unfolding erase_first
  length-erase_first a [] = omega arith
  length-erase_first a (x ∷ xs) = ground (arith, length-erase_first a xs)

  count-erase_first :
      (a b : A) (xs : List A) → count b (erase_first a xs) ≡ count b xs - to_ℕ (a == b)
  unfolding erase_first
  count-erase_first a b [] = omega arith
  count-erase_first a b (x ∷ xs) =
      ground (arith, count-erase_first a b xs, e.beq_iff x a, e.beq_iff x b, e.beq_iff a b)

  -- A list that holds nothing more often than another is not longer.
  pub length-le_of_count :
      (xs ys : List A) → ((a : A) → count a xs ≤ count a ys) → length xs ≤ length ys
  length-le_of_count [] [] h = omega arith
  length-le_of_count (x ∷ xs) [] h = absurd (ground (arith, h x, e.beq_iff x x))
  length-le_of_count xs (y ∷ ys) h = omega (
    arith,
    length-erase_first y xs,
    length-le_of_count (erase_first y xs) ys (λ a. omega (arith, h a, count-erase_first y a xs)),
  )

  pub count_of_contains : (a : A) (xs : List A) → contains a xs ≡ false → count a xs ≡ 0
  count_of_contains a [] h = refl
  count_of_contains a (x ∷ xs) h = ground (arith, count_of_contains a xs)

  -- Nothing stands twice in the list.
  abbrev pub IsDistinct : List A → Type ℓ
  IsDistinct xs = (a : A) → count a xs ≤ 1

  pub IsDistinct-push :
      (a : A) (xs : List A) → IsDistinct xs → contains a xs ≡ false → IsDistinct (xs ++ a ∷ [])
  IsDistinct-push a xs h new b =
      let absent = count_of_contains a xs new in
      let sum = count-append b xs (a ∷ []) in
      elim (Bool-cases (a == b)) [
        | inl same ↦
            let moved : count b xs ≡ 0 = rw (← (e.beq_iff a b).0 same) absent in
            ground (arith, sum, moved)
        | inr other ↦ let most = h b in ground (arith, sum, most)
      ]

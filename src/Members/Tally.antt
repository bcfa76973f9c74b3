-- ===== src/Members/Tally.antt =====
-- Counting by a test, to compare lists up to order, and `swap_remove` under such counts.
use ruserf.Prelude.{
  ℕ, zero, suc, ◌+◌, ◌-◌, ◌≤◌, ◌<◌, ◌≡◌, refl, Bool, true, not, ◌&&◌, some, List, [], ◌∷◌, length,
  get_elem?, set, take, to_ℕ, arith, ◌∙◌, get_elem?_lt,
}
use native.Mathlib.Decide.{dec_lt}
use ruserf.Members.Reap.{swap_remove}

pred_suc : (n : ℕ) → suc n - 1 ≡ n
pred_suc n = omega arith

module _ {ℓ} {X : Type ℓ} where
  abbrev pub tally : (X → Bool) → List X → ℕ
  tally p [] = 0
  tally p (x ∷ xs) = to_ℕ (p x) + tally p xs

  pub tally_split :
      (p q : X → Bool) (l : List X)
      → tally p l ≡ tally (λ x. q x && p x) l + tally (λ x. not (q x) && p x) l
  tally_split p q [] = omega arith
  tally_split p q (x ∷ l) = ground (arith, tally_split p q l)

  pub tally_mono :
      (p q : X → Bool) (l : List X) → ((x : X) → p x ≡ true → q x ≡ true) → tally p l ≤ tally q l
  tally_mono p q [] h = omega arith
  tally_mono p q (x ∷ l) h = ground (arith, tally_mono p q l h, h x)

  -- The last element, taken off.
  last_split :
      (p : X → Bool) (x : X) (l : List X)
      → (y : X) × (get_elem? (x ∷ l) (length l) ≡ some y)
        × (tally p (x ∷ l) ≡ tally p (take (length l) (x ∷ l)) + to_ℕ (p y))
  last_split p x [] = (x, refl, omega arith)
  last_split p x (x' ∷ l) = let (y, found, sum) = last_split p x' l in (y, found, omega arith)

  tally-set :
      (p : X → Bool) (l : List X) (i : ℕ) (m v : X)
      → get_elem? l i ≡ some m
      → tally p (set l i v) + to_ℕ (p m) ≡ tally p l + to_ℕ (p v)
  tally-set p [] i m v h = absurd (ground arith)
  tally-set p (x ∷ l) zero m v h = ground arith
  tally-set p (x ∷ l) (suc i) m v h = omega (arith, tally-set p l i m v h)

  get_elem?-take : (l : List X) (n i : ℕ) → i < n → get_elem? (take n l) i ≡ get_elem? l i
  get_elem?-take l zero i h = absurd (omega arith)
  get_elem?-take [] (suc n) i h = refl
  get_elem?-take (x ∷ l) (suc n) zero h = refl
  get_elem?-take (x ∷ l) (suc n) (suc i) h = get_elem?-take l n i (omega arith)

  set_beyond : (l : List X) (i : ℕ) (v : X) → length l ≤ i → set l i v ≡ l
  set_beyond [] i v h = refl
  set_beyond (x ∷ l) zero v h = absurd (omega arith)
  set_beyond (x ∷ l) (suc i) v h = rw (set_beyond l i v (omega arith))

  length-take_le : (l : List X) (n : ℕ) → n ≤ length l → length (take n l) ≡ n
  length-take_le l zero h = refl
  length-take_le [] (suc n) h = absurd (omega arith)
  length-take_le (x ∷ l) (suc n) h = omega (arith, length-take_le l n (omega arith))

  take-set : (l : List X) (i : ℕ) (v : X) → take i (set l i v) ≡ take i l
  take-set [] i v = refl
  take-set (x ∷ l) zero v = refl
  take-set (x ∷ l) (suc i) v = rw (take-set l i v)

  take-take : (l : List X) (i n : ℕ) → i ≤ n → take i (take n l) ≡ take i l
  take-take l zero n h = refl
  take-take l (suc i) zero h = absurd (omega arith)
  take-take [] (suc i) (suc n) h = refl
  take-take (x ∷ l) (suc i) (suc n) h = rw (take-take l i n (omega arith))

  swap_remove_last :
      (x y : X) (l : List X) (i : ℕ)
      → get_elem? (x ∷ l) (length l) ≡ some y
      → swap_remove (x ∷ l) i ≡ set (take (length l) (x ∷ l)) i y
  unfolding swap_remove
  swap_remove_last x y l i found =
      rw (pred_suc (length l), swap_remove) (rw (found, swap_remove) (rw (pred_suc (length l))))

  -- `swap_remove` takes out the element at the index, and no other.
  pub tally-swap_remove :
      (p : X → Bool) (l : List X) (i : ℕ) (m : X)
      → get_elem? l i ≡ some m
      → tally p (swap_remove l i) + to_ℕ (p m) ≡ tally p l
  tally-swap_remove p [] i m h = absurd (ground arith)
  tally-swap_remove p (x ∷ l) i m h =
      let (y, found, sum) = last_split p x l in
      let front : List X = take (length l) (x ∷ l) in
      elim (dec_lt i (length l)) [
        | yes inside ↦
            let here = get_elem?-take (x ∷ l) (length l) i inside ∙ h in
            rw (swap_remove_last x y l i found) (omega (arith, tally-set p front i m y here))
        | no last ↦
            let at_end : i ≡ length l = omega (arith, get_elem?_lt (x ∷ l) i m h) in
            let same : m ≡ y = cc in
            rw (swap_remove_last x y l i found) (
              rw (set_beyond front i y (omega (arith, length-take_le (x ∷ l) (length l))))
                (rw same (omega arith)))
      ]

  -- The elements before the index stay.
  pub take-swap_remove : (l : List X) (i : ℕ) → i < length l → take i (swap_remove l i) ≡ take i l
  take-swap_remove [] i h = absurd (omega arith)
  take-swap_remove (x ∷ l) i h =
      let (y, found, _) = last_split (λ _. true) x l in
      rw (swap_remove_last x y l i found)
        (take-set (take (length l) (x ∷ l)) i y ∙ take-take (x ∷ l) i (length l) (omega arith))

  length-tally : (l : List X) → length l ≡ tally (λ _. true) l
  length-tally [] = refl
  length-tally (x ∷ l) = omega (arith, length-tally l)

  pub length-swap_remove :
      (l : List X) (i : ℕ) (m : X)
      → get_elem? l i ≡ some m
      → length (swap_remove l i) + 1 ≡ length l
  length-swap_remove l i m h =
      omega (
        arith,
        length-tally (swap_remove l i),
        length-tally l,
        tally-swap_remove (λ _. true) l i m h,
      )

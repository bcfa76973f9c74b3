-- ===== src/Wire/Lists.antt =====
-- Sequences and messages inside messages are read back (types/src).
use ruserf.Prelude.{
  ℕ, ◌≤◌, ◌≡◌, refl, true, Option, some, List, [], ◌∷◌, ◌++◌, leb, length, length-append, drop,
  arith,
}
use ruserf.Types.{Bytes}
use ruserf.Wire.{Parser, Message, read, nested, read_many, write_many, sum_len}
use ruserf.Wire.Codes.{Codes, drop-append, Codes-cat, Codes-last}

pub Codes-nested :
    {T : Type 0} (a : Option Bytes) (n : ℕ) (decode : Bytes → Message T) (v : T)
    → ((z rest : Bytes) → a ≡ some z → (length z ≡ n) × (decode (z ++ rest) ≡ read n v))
    → Codes a n (nested decode) v
unfolding nested
Codes-nested a n decode v h = record {
  codes = λ z e. (
    (h z [] e).0,
    λ rest.
        let (measured, reads) = h z rest e in
        let fits : leb n (length (z ++ rest)) ≡ true =
          rw (length-append z rest) (ground (arith, measured)) in
        let left : drop n (z ++ rest) ≡ rest = rw (← measured) (drop-append z rest) in
        rw (reads, nested) (rw (fits, left) refl),
  );
}

-- Each element is within a bound that the sum keeps.
pub Codes-many :
    {T : Type 0} (encode : T → Option Bytes) (len : T → ℕ) (p : Parser T) (bound : ℕ) (vs : List T)
    → ((v : T) → len v ≤ bound → Codes (encode v) (len v) p v)
    → sum_len len vs ≤ bound
    → Codes (write_many encode vs) (sum_len len vs) (read_many (length vs) p) vs
unfolding write_many read_many
Codes-many encode len p bound [] h within = record {
  codes = λ z e. let at : [] ≡ z = cc in rw (← at) (refl, λ rest. refl);
}
Codes-many encode len p bound (v ∷ vs) h within =
    Codes-cat _ (h v (omega arith))
      (Codes-last _ (Codes-many encode len p bound vs h (omega arith)))

-- ===== src/Snapshot/Bytes.antt =====
-- Little-endian integers of a fixed number of bytes, and reads of a fixed number of bytes from a
-- buffer (the `byteorder` reads and `to_le_bytes` that core/src/snapshot.rs uses).
use ruserf.Prelude.{
  ℕ, zero, suc, ◌+◌, ◌*◌, ◌/◌, ◌%◌, ◌^◌, ◌<◌, ◌≡◌, refl, ap, Option, none, some, [], ◌∷◌, ◌++◌,
  arith, false, ltb, length, length-append, take, drop, if◌then◌else◌,
}
use native.Mathlib.Nat.{pow-zero, pow-suc}
use ruserf.Types.{Bytes}

abbrev pub le_bytes : (width : ℕ) → ℕ → Bytes
le_bytes zero n = []
le_bytes (suc w) n = n % 256 ∷ le_bytes w (n / 256)

abbrev pub of_le_bytes : Bytes → ℕ
of_le_bytes [] = 0
of_le_bytes (b ∷ bs) = b + 256 * of_le_bytes bs

-- `read_exact`: the bytes and the rest; `none` at the end of the file.
abbrev pub read_exact : ℕ → Bytes → Option (Bytes × Bytes)
read_exact n bytes = if ltb (length bytes) n then none else some (take n bytes, drop n bytes)

pub length-le_bytes : (w n : ℕ) → length (le_bytes w n) ≡ w
length-le_bytes zero n = refl
length-le_bytes (suc w) n = ap suc (length-le_bytes w (n / 256))

-- An integer that fits is read back from its bytes.
pub of_le_bytes-le_bytes : (w n : ℕ) → n < 256 ^ w → of_le_bytes (le_bytes w n) ≡ n
of_le_bytes-le_bytes zero n h = omega (arith, pow-zero 256)
of_le_bytes-le_bytes (suc w) n h =
    let small : n / 256 < 256 ^ w = omega (arith, pow-suc 256 w) in
    omega (arith, of_le_bytes-le_bytes w (n / 256) small)

pub take-append : (xs ys : Bytes) → take (length xs) (xs ++ ys) ≡ xs
take-append [] ys = refl
take-append (x ∷ xs) ys = ap (λ l. x ∷ l) (take-append xs ys)

drop-append : (xs ys : Bytes) → drop (length xs) (xs ++ ys) ≡ ys
drop-append [] ys = refl
drop-append (x ∷ xs) ys = drop-append xs ys

pub read_exact-append : (xs ys : Bytes) → read_exact (length xs) (xs ++ ys) ≡ some (xs, ys)
read_exact-append xs ys =
    let enough : ltb (length (xs ++ ys)) (length xs) ≡ false =
      ground (arith, length-append xs ys) in
    rw (enough, take-append xs ys, drop-append xs ys) refl

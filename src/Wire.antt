-- ===== src/Wire.antt =====
-- The wire formats of types/src: reading bytes from a slice, and writing them into one. Reading
-- past the end of a slice is a panic, apart from what the code checks first. The formats of strings,
-- bytes, variable-length integers, durations and nodes are those of other crates, and that of an id is
-- the user's: they are values of `Transformable`.
pub mod Codes
pub mod Messages
pub mod Lists
pub mod States
pub mod Tables
pub mod RoundTrip
pub mod StateTrip
pub mod Dispatch
pub mod Short
use ruserf.Prelude.{
  zero, suc, ℕ, ◌+◌, ◌-◌, ◌*◌, ◌/◌, ◌%◌, Bool, Option, none, some, List, [], ◌∷◌, ◌++◌, ltb, leb,
  length, drop, if◌then◌else◌,
}
use ruserf.Types.{Bytes}

-- What is read, and the bytes that are left; an error; or a panic.
pub data Decoded (T : Type 0) : Type 0 where
  done : T → Bytes → Decoded T
  fails panics : Decoded T

abbrev pub Parser : Type 0 → Type 0
Parser T = Bytes → Decoded T

infixl 5 ◌>>=◌
abbrev pub ◌>>=◌ : {T U : Type 0} → Parser T → (T → Parser U) → Parser U
(p >>= f) src = elim (p src) [ done v rest ↦ f v rest | fails ↦ fails | panics ↦ panics ]

abbrev pub return : {T : Type 0} → T → Parser T
return v src = done v src

-- The trait of the crate `transformable`: a decoder tells how many bytes it has read.
pub record Transformable (T : Type 0) : Type 0 where
  pub encode : T → Option Bytes
  pub encoded_len : T → ℕ
  pub decode : Bytes → Option (ℕ × T)

-- `T::decode(&src[offset..])?`, then the slice from the new offset.
unfoldable pub field : {T : Type 0} → Transformable T → Parser T
field t src = elim (t.decode src) [
  | none ↦ fails
  | some r ↦ if leb r.0 (length src) then done r.1 (drop r.0 src) else panics
]

-- `src[offset]`
abbrev pub read_byte : Parser ℕ
read_byte [] = panics
read_byte (b ∷ rest) = done b rest

-- `NetworkEndian::read_u32(&src[offset..])`
abbrev pub read_u32 : Parser ℕ
read_u32 [] = panics
read_u32 (a ∷ []) = panics
read_u32 (a ∷ b ∷ []) = panics
read_u32 (a ∷ b ∷ c ∷ []) = panics
read_u32 (a ∷ b ∷ c ∷ d ∷ rest) = done (a * 16777216 + b * 65536 + c * 256 + d) rest

-- An error if fewer bytes are left.
abbrev pub need : {T : Type 0} → ℕ → Parser T → Parser T
need n p src = if ltb (length src) n then fails else p src

-- `NetworkEndian::write_u32`, of `n as u32`
abbrev pub u32_bytes : ℕ → Bytes
u32_bytes n = n / 16777216 % 256 ∷ n / 65536 % 256 ∷ n / 256 % 256 ∷ n % 256 ∷ []

-- One after the other; `none` is an error.
infixr 20 ◌⧺◌
abbrev pub ◌⧺◌ : Option Bytes → Option Bytes → Option Bytes
none ⧺ b = none
some x ⧺ none = none
some x ⧺ some y = some (x ++ y)

-- A whole decoding: the number of bytes and the value.
pub data Message (T : Type 0) : Type 0 where
  read : ℕ → T → Message T
  refused panicked : Message T

-- How an implementation checks its input: the least length, what it adds to the length of the slice
-- before it compares it with the announced one, and whether it returns the announced length or how
-- far it has read.
pub record Check : Type 0 where
  pub least : ℕ
  pub slack : ℕ
  pub announced : Bool

unfoldable pub decode_framed : {T : Type 0} → Check → Parser T → Bytes → Message T
decode_framed check body src =
    if ltb (length src) check.least then refused else elim (read_u32 src) [
      | panics ↦ panicked
      | fails ↦ refused
      | done len rest ↦ if ltb (length src + check.slack) len then refused else elim (body rest) [
        | done v left ↦ read (if check.announced then len else length src - length left) v
        | fails ↦ refused
        | panics ↦ panicked
      ]
    ]

-- The announced length and the rest, into a buffer of `room` bytes.
unfoldable pub encode_framed : (len room : ℕ) → Option Bytes → Option Bytes
encode_framed len room body = if ltb room len then none else some (u32_bytes len) ⧺ body

-- A message inside another: `T::decode(&src[offset..])?` for a type of this crate.
unfoldable pub nested : {T : Type 0} → (Bytes → Message T) → Parser T
nested decode src = elim (decode src) [
  | read n v ↦ if leb n (length src) then done v (drop n src) else panics
  | refused ↦ fails
  | panicked ↦ panics
]

-- `for _ in 0..n`
unfoldable pub read_many : {T : Type 0} → ℕ → Parser T → Parser (List T)
read_many zero p = return []
read_many (suc n) p = p >>= λ v. read_many n p >>= λ vs. return (v ∷ vs)

unfoldable pub write_many : {T : Type 0} → (T → Option Bytes) → List T → Option Bytes
write_many encode [] = some []
write_many encode (v ∷ vs) = encode v ⧺ write_many encode vs

-- `iter().map(..).sum()`
abbrev pub sum_len : {T : Type 0} → (T → ℕ) → List T → ℕ
sum_len f [] = 0
sum_len f (v ∷ vs) = f v + sum_len f vs

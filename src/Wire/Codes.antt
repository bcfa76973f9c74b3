-- ===== src/Wire/Codes.antt =====
-- Writers and readers that agree: what is written is read back, whatever follows it.
use ruserf.Prelude.{
  ℕ, ◌+◌, ◌-◌, ◌*◌, ◌/◌, ◌%◌, ◌≤◌, ◌<◌, ◌≡◌, refl, ap, ◌∙◌, true, false, Option, none, some, [],
  ◌∷◌, ◌++◌, ltb, leb, length, length-append, drop, arith, Bool-cases, inl, inr,
}
use mathlib.Core.List.{append_assoc}
use ruserf.Types.{Bytes}
use ruserf.Wire.{
  done, Parser, ◌>>=◌, return, Transformable, field, read_byte, read_u32, need, u32_bytes, ◌⧺◌,
  read, Check, decode_framed, encode_framed,
}

-- The bytes that are written, if any, are `n`, and `p` reads `v` from them and leaves what follows.
pub record Codes {T : Type 0} (written : Option Bytes) (n : ℕ) (p : Parser T) (v : T) : Type 0 where
  pub codes :
      (z : Bytes)
      → written ≡ some z
      → (length z ≡ n) × ((rest : Bytes) → p (z ++ rest) ≡ done v rest)

-- What is relied on of another crate's format.
pub record IsCodec {T : Type 0} (t : Transformable T) : Type 0 where
  pub codes :
      (v : T) (z rest : Bytes)
      → t.encode v ≡ some z
      → (length z ≡ t.encoded_len v) × (t.decode (z ++ rest) ≡ some (length z, v))

pub drop-append : (z rest : Bytes) → drop (length z) (z ++ rest) ≡ rest
drop-append [] rest = refl
drop-append (b ∷ z) rest = drop-append z rest

cat-Codes :
    {T U : Type 0} (a b : Option Bytes) (m n : ℕ) (p : Parser T) (f : T → Parser U) (v : T) (w : U)
    → Codes a m p v
    → Codes b n (f v) w
    → (z : Bytes) → (a ⧺ b) ≡ some z
    → (length z ≡ m + n) × ((rest : Bytes) → (p >>= f) (z ++ rest) ≡ done w rest)
cat-Codes none b m n p f v w ha hb z h = cc
cat-Codes (some x) none m n p f v w ha hb z h = cc
cat-Codes (some x) (some y) m n p f v w ha hb z h =
    let at : x ++ y ≡ z = cc in
    let (length_x, reads_x) = ha.codes x refl in
    let (length_y, reads_y) = hb.codes y refl in
    rw (← at) (
      length-append x y ∙ rw (length_x, length_y) refl,
      λ rest. rw (append_assoc x y rest, reads_x (y ++ rest), ◌>>=◌) (reads_y rest),
    )

pub Codes-cat :
    {T U : Type 0} {a b : Option Bytes} {m n : ℕ} {p : Parser T} {v : T} {w : U} (f : T → Parser U)
    → Codes a m p v
    → Codes b n (f v) w
    → Codes (a ⧺ b) (m + n) (p >>= f) w
Codes-cat {a = a} {b = b} {m = m} {n = n} {p = p} {v = v} {w = w} f ha hb = record {
  codes = cat-Codes a b m n p f v w ha hb;
}

-- The last field, from which the value is made.
pub Codes-last :
    {T U : Type 0} {a : Option Bytes} {n : ℕ} {p : Parser T} {v : T} (make : T → U)
    → Codes a n p v
    → Codes a n (p >>= λ x. return (make x)) (make v)
Codes-last make h = record {
  codes = λ z e. let r = h.codes z e in (r.0, λ rest. rw (r.1 rest, ◌>>=◌) refl);
}

pub Codes-field :
    {T : Type 0} (t : Transformable T) (v : T)
    → IsCodec t
    → Codes (t.encode v) (t.encoded_len v) (field t) v
unfolding field
Codes-field t v c = record {
  codes = λ z h. (
    (c.codes v z [] h).0,
    λ rest.
        let fits : leb (length z) (length (z ++ rest)) ≡ true =
          rw (length-append z rest) (ground arith) in
        rw ((c.codes v z rest h).1, field) (rw (fits, drop-append z rest) refl),
  );
}

pub Codes-u32 : (n : ℕ) → n < 4294967296 → Codes (some (u32_bytes n)) 4 read_u32 n
Codes-u32 n h = record {
  codes = λ z e.
      let at : u32_bytes n ≡ z = cc in
      let whole : n / 16777216 % 256 * 16777216
            + n / 65536 % 256 * 65536
            + n / 256 % 256 * 256
            + n % 256
          ≡ n =
        omega arith in
      rw (← at) (refl, λ rest. ap (λ k. done k rest) whole);
}

pub Codes-byte : (b : ℕ) → Codes (some (b ∷ [])) 1 read_byte b
Codes-byte b = record { codes = λ z e. let at : b ∷ [] ≡ z = cc in rw (← at) (refl, λ rest. refl) }

-- A check that enough bytes are left does not fail on what was written.
pub Codes-need :
    {T : Type 0} {k : ℕ} {a : Option Bytes} {n : ℕ} {p : Parser T} {v : T}
    → k ≤ n
    → Codes a n p v
    → Codes a n (need k p) v
Codes-need {k = k} le h = record {
  codes = λ z e.
      let (measured, reads) = h.codes z e in
      (
        measured,
        λ rest.
            let more = length-append z rest in
            let enough : ltb (length (z ++ rest)) k ≡ false = ground arith in
            rw enough (reads rest),
      );
}

-- A buffer with room for a message takes it.
written_framed :
    (len room : ℕ) (body : Option Bytes) (z : Bytes)
    → encode_framed len room body ≡ some z
    → (y : Bytes) × (body ≡ some y) × (u32_bytes len ++ y ≡ z)
unfolding encode_framed
written_framed len room none z h = absurd (ground arith)
written_framed len room (some y) z h = (y, refl, ground arith)

-- A slice that announces its length and is long enough is read.
pub framed_read :
    {T : Type 0} (check : Check) (len : ℕ) (p : Parser T) (v : T) (src mid rest : Bytes)
    → length src ≡ len + length rest
    → check.least ≤ len
    → read_u32 src ≡ done len mid
    → p mid ≡ done v rest
    → decode_framed check p src ≡ read len v
unfolding decode_framed
framed_read check len p v src mid rest sum least header reads =
    let long : ltb (length src) check.least ≡ false = ground arith in
    let fits : ltb (length src + check.slack) len ≡ false = ground arith in
    let upto : length src - length rest ≡ len = omega arith in
    rw (long, header, fits, reads, decode_framed)
      (elim (Bool-cases check.announced) [
        | inl announced ↦ rw announced refl
        | inr offset ↦ rw offset (ap (λ k. read k v) upto)
      ])

-- A whole message: what is written has the announced length, and is read back.
pub decode_framed-encode_framed :
    {T : Type 0} (check : Check) (len room : ℕ) {n : ℕ} {body : Option Bytes} {p : Parser T} {v : T}
    (z rest : Bytes)
    → Codes body n p v
    → len ≡ 4 + n
    → check.least ≤ len
    → len < 4294967296
    → encode_framed len room body ≡ some z
    → (length z ≡ len) × (decode_framed check p (z ++ rest) ≡ read len v)
decode_framed-encode_framed check len room {n = n} {body = body} {p = p} {v = v} z rest coded sum
      least small h =
    let (y, written, whole) = written_framed len room body z h in
    let (measured, reads) = coded.codes y written in
    let header = ((Codes-u32 len small).codes (u32_bytes len) refl).1 (y ++ rest) in
    let long : length z ≡ len = rw (← whole) (omega (arith, measured, sum)) in
    let more = length-append z rest in
    let at : read_u32 (z ++ rest) ≡ done len (y ++ rest) = rw (← whole) header in
    (
      long,
      framed_read check len p v (z ++ rest) (y ++ rest) rest (omega arith) least at (reads rest),
    )

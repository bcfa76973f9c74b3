-- ===== src/Tests/Formats.antt =====
-- The theorems on the wire formats at concrete inputs: numbers are a byte, and text has a byte of length.
use ruserf.Prelude.{
  ℕ, suc, ◌≡◌, refl, ap, Option, none, some, [], ◌∷◌, ◌++◌, length, take, arith, nat_eq,
}
use ruserf.Types.{Bytes, Node}
use ruserf.Serf.{SerfMessage, Filter}
use ruserf.Wire.{Transformable, read}
use ruserf.Wire.Codes.{IsCodec}
use ruserf.Wire.Messages as Messages
use ruserf.Wire.Messages.{decode_filter, encode_filter}
use ruserf.Wire.States.{Versions, is_v1}
use ruserf.Wire.RoundTrip.{AreCodecs}
use ruserf.Wire.Dispatch.{
  encode_message, decode_message, message_len, decode_message-encode_message,
  decode_filter-encode_filter,
}
use ruserf.Types.{MessageType}
use ruserf.Tests.{probe}

abbrev read_number : Bytes → Option (ℕ × ℕ)
read_number [] = none
read_number (x ∷ rest) = some (1, x)

abbrev number : Transformable ℕ
number = record { encode = λ n. some (n ∷ []); encoded_len = λ n. 1; decode = read_number }

abbrev read_text : Bytes → Option (ℕ × Bytes)
read_text [] = none
read_text (n ∷ rest) = some (suc n, take n rest)

abbrev text : Transformable Bytes
text = record {
  encode = λ t. some (length t ∷ t);
  encoded_len = λ t. suc (length t);
  decode = read_text;
}

abbrev read_node : Bytes → Option (ℕ × Node ℕ ℕ)
read_node [] = none
read_node (x ∷ []) = none
read_node (x ∷ y ∷ rest) = some (2, record { id = x; address = y })

abbrev node : Transformable (Node ℕ ℕ)
node = record {
  encode = λ n. some (n.id ∷ n.address ∷ []);
  encoded_len = λ n. 2;
  decode = read_node;
}

take-append : (t rest : Bytes) → take (length t) (t ++ rest) ≡ t
take-append [] rest = refl
take-append (b ∷ t) rest = ap (λ l. b ∷ l) (take-append t rest)

number-IsCodec : IsCodec number
number-IsCodec = record { codes = λ v z rest h. let at : v ∷ [] ≡ z = cc in rw (← at) (refl, refl) }

text-IsCodec : IsCodec text
text-IsCodec = record {
  codes = λ v z rest h.
      let at : length v ∷ v ≡ z = cc in
      rw (← at) (refl, ap (λ t. some (suc (length v), t)) (take-append v rest));
}

node-IsCodec : IsCodec node
node-IsCodec = record {
  codes = λ v z rest h. let at : v.id ∷ v.address ∷ [] ≡ z = cc in rw (← at) (refl, refl);
}

abbrev formats : Messages.Formats ℕ ℕ
formats = record {
  varint = number;
  text = text;
  bytes = text;
  duration = number;
  id = number;
  node = node;
}

formats-AreCodecs : AreCodecs formats
formats-AreCodecs = record {
  varint = number-IsCodec;
  text = text-IsCodec;
  bytes = text-IsCodec;
  duration = number-IsCodec;
  id = number-IsCodec;
  node = node-IsCodec;
}

abbrev versions : Versions
versions = record { protocol = is_v1; delegate = is_v1 }

abbrev written : Option Bytes → Bytes
written none = []
written (some z) = z

abbrev probe_bytes : Bytes
unfolding encode_message
probe_bytes = written (encode_message formats versions 100 (SerfMessage.query probe))

decode_message-encode_message_example :
    (length probe_bytes ≡ message_len formats versions (SerfMessage.query probe))
    × (decode_message formats versions MessageType.query (probe_bytes ++ 1 ∷ [])
        ≡ read (message_len formats versions (SerfMessage.query probe)) (SerfMessage.query probe))
unfolding encode_message message_len
decode_message-encode_message_example =
    decode_message-encode_message formats versions formats-AreCodecs 100 (SerfMessage.query probe)
      probe_bytes (1 ∷ []) (omega arith) (omega arith, omega arith) refl

abbrev by_ids : Filter ℕ
by_ids = Filter.id (4 ∷ 5 ∷ [])

abbrev filter_bytes : Bytes
unfolding encode_filter
filter_bytes = written (encode_filter formats 100 by_ids)

decode_filter-encode_filter_example :
    (length filter_bytes ≡ 11) × (decode_filter formats (filter_bytes ++ 1 ∷ []) ≡ read 11 by_ids)
unfolding encode_filter
decode_filter-encode_filter_example =
    decode_filter-encode_filter formats formats-AreCodecs 100 by_ids filter_bytes (1 ∷ [])
      (omega arith) (omega arith) refl

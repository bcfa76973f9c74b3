-- ===== src/Tests/Wire.antt =====
-- The theorems on messages and remote states at concrete inputs.
use ruserf.Prelude.{
  All, List, false, ℕ, ◌≤◌, ◌≡◌, ◌↔◌, refl, true, some, [], ◌∷◌, nat_eq, value_unique, length, ap,
  arith,
}
use ruserf.Types.{Bytes, MessageType, Node, QueryMessage}
use ruserf.Serf.{SerfMessage}
use ruserf.Queries.Wire.{message_type, type_byte, message_type-type_byte}
use ruserf.Delegate.Notify.{notify_message, as_query}
use ruserf.Delegate.Merge.{merge_remote_state}
use ruserf.Delegate.Safe.{StaysHealthy, merge_remote_state-IsHealthy}
use ruserf.Delegate.Messages.{notify_message-IsHealthy}
use ruserf.Tests.{plain, decode_plain, started, started-IsHealthy}

abbrev dice : ℕ → ℕ
dice i = i

message_type-type_byte_example :
    (message_type 5 ≡ some MessageType.query_response) ↔ (5 ≡ type_byte MessageType.query_response)
message_type-type_byte_example = message_type-type_byte 5 MessageType.query_response

-- The decoder reads two bytes of two at least.
decode_plain-le :
    (bytes : Bytes) (k : ℕ) (n : Node ℕ ℕ) → decode_plain bytes ≡ some (k, n) → k ≤ length bytes
decode_plain-le [] k n h = absurd (ground arith)
decode_plain-le (x ∷ []) k n h = absurd (ground arith)
decode_plain-le (x ∷ y ∷ rest) k n h =
    let same = value_unique _ (k, n) (2, record { id = x; address = y }) h refl in
    let two : k ≡ 2 = ap (λ p. p.0) same in omega arith

no_panics : (filters : List Bytes) → All (λ b. plain.filter_panics b ≡ false) filters
no_panics [] = tt
no_panics (b ∷ filters) = (refl, no_panics filters)

no_filters :
    (ty : MessageType) (m : SerfMessage ℕ ℕ) (q : QueryMessage ℕ ℕ)
    → plain.decode_message ty (1 ∷ 2 ∷ []) ≡ some m
    → as_query m ≡ some q
    → All (λ b. plain.filter_panics b ≡ false) q.filters
no_filters ty m q decoded is_query = no_panics q.filters

notify_message-IsHealthy_example :
    StaysHealthy (notify_message plain dice 7 (4 ∷ 1 ∷ 2 ∷ []) started)
notify_message-IsHealthy_example =
    notify_message-IsHealthy plain dice 7 (4 ∷ 1 ∷ 2 ∷ []) started (λ ty. refl) no_filters
      (decode_plain-le (1 ∷ 2 ∷ [])) started-IsHealthy

merge_remote_state-IsHealthy_example :
    StaysHealthy (merge_remote_state 7 plain (2 ∷ 1 ∷ []) true started)
merge_remote_state-IsHealthy_example =
    merge_remote_state-IsHealthy plain 7 (2 ∷ 1 ∷ []) true started refl started-IsHealthy

-- ===== src/Coalesce.antt =====
-- The event coalescers of core/src/coalesce.rs and core/src/coalesce/: the outgoing channel that
-- they share. The children hold the coalescer of user events, that of member events, the loop that
-- drives one of them, and the theorems.
pub mod User
pub mod Member
pub mod Newest
pub mod Delivered
pub mod Changes
pub mod Reported
pub mod Instances
pub mod Loop
pub mod Batches
pub mod Batched
pub mod Runs
pub mod Starved
use ruserf.Prelude.{
  ℕ, zero, suc, Bool, true, false, Option, none, some, List, [], ◌∷◌, ◌++◌, ◌≡◌, All,
}

-- The sending half of the outgoing channel: what was sent, and after how many more sends the
-- receiver closes it (`none`: never).
pub record OutTx (E : Type 0) : Type 0 where
  pub sent : List E
  pub closes_after : Option ℕ

-- `none` is the error of a closed channel.
unfoldable pub send : {E : Type 0} → E → OutTx E → Option (OutTx E)
send e out = elim out.closes_after [
  | none ↦ some (record out { sent = out.sent ++ e ∷ [] })
  | some zero ↦ none
  | some (suc n) ↦ some (record out { sent = out.sent ++ e ∷ []; closes_after = some n })
]

-- Sends until one fails; the test says whether none did.
unfoldable pub send_all : {E : Type 0} → List E → OutTx E → OutTx E × Bool
unfolding send
send_all [] out = (out, true)
send_all (e ∷ es) out = elim (send e out) [ none ↦ (out, false) | some next ↦ send_all es next ]

-- What `coalesce_loop` needs of a `Coalescer`, with what is relied on: only events that are handled
-- are coalesced, and a flush sends events that are handled, from a coalescer that got no others.
pub record Coalescer (C E : Type 0) : Type 1 where
  pub handle : E → Bool
  pub coalesce : E → C → Option C
  pub flush : C → OutTx E → C × (OutTx E × Bool)
  pub Holds : C → Type 0
  pub coalesce-Holds :
      (e : E) (c : C)
      → handle e ≡ true
      → Holds c
      → (next : C) × (coalesce e c ≡ some next) × Holds next
  pub flush-Holds :
      (c : C)
      → Holds c
      → (evs : List E) × (left : C) × ((out : OutTx E) → flush c out ≡ (left, send_all evs out))
        × All (λ e. handle e ≡ true) evs
        × Holds left

-- ===== src/Members/Reap.antt =====
-- The `Reaper` of core/src/serf/base.rs: the loop of `reap!` with its index and `swap_remove`, and
-- one tick of `Reaper::run`. `now` is one reading of the clock for all of a tick. `timeout_of` is the
-- delegate's `reconnect_timeout`, or the given timeout where there is no delegate.
use ruserf.Prelude.{
  ℕ, zero, suc, ◌+◌, ◌-◌, Bool, true, false, not, none, some, List, Eq, leb, length, get_elem?, set,
  take,
}
use ruserf.Types.{Member, MemberState}
use ruserf.Serf.{Serf}
use ruserf.Members.Base.{id_of, erase_node, reap_intents}

-- `Vec::swap_remove`: the last element takes the place of the removed one.
unfoldable pub swap_remove {ℓ} : {X : Type ℓ} → List X → ℕ → List X
swap_remove l i =
    let n = length l - 1 in elim (get_elem? l n) [ none ↦ l | some last ↦ set (take n l) i last ]

module _ {I A : Type 0} ⦃e : Eq I⦄ (timeout_of : Member I A → ℕ) (now : ℕ) where
  -- The timeout has passed since the leave. A member with no leave time is not skipped.
  unfoldable pub expired : MemberState I A → Bool
  expired m = elim m.leave_time [ none ↦ true | some t ↦ not (leb (now - t) (timeout_of m.member)) ]

  -- `while i < n`, where `n` is the length of the list: `rounds` is `n - i`.
  unfoldable pub reap_loop :
      ℕ → ℕ → List (MemberState I A) → Serf I A → List (MemberState I A) × Serf I A
  reap_loop zero i old s = (old, s)
  reap_loop (suc rounds) i old s = elim (get_elem? old i) [
    | none ↦ (old, s)
    | some m ↦ elim (expired m) [
      | true ↦ reap_loop rounds i (swap_remove old i) (erase_node (id_of m) m s)
      | false ↦ reap_loop rounds (i + 1) old s
    ]
  ]

  unfoldable pub reap_failed : Serf I A → Serf I A
  reap_failed s =
      let old = s.members.failed_members in
      let (kept, s') = reap_loop (length old) 0 old s in
      record s' { members = record s'.members { failed_members = kept } }

  unfoldable pub reap_left : Serf I A → Serf I A
  reap_left s =
      let old = s.members.left_members in
      let (kept, s') = reap_loop (length old) 0 old s in
      record s' { members = record s'.members { left_members = kept } }

-- The body of the loop of `Reaper::run`: the failed members by the reconnect timeout, the left ones
-- by the tombstone timeout, and the intents.
unfoldable pub reap_tick :
    {I A : Type 0} ⦃e : Eq I⦄
    → (Member I A → ℕ → ℕ)
    → (now reconnect_timeout tombstone_timeout recent_intent_timeout : ℕ) → Serf I A
    → Serf I A
reap_tick timeout_of now reconnect_timeout tombstone_timeout recent_intent_timeout s =
    let s1 = reap_failed (λ m. timeout_of m reconnect_timeout) now s in
    let s2 = reap_left (λ m. timeout_of m tombstone_timeout) now s1 in
    record s2 {
      members = record s2.members {
        recent_intents = reap_intents s2.members.recent_intents now recent_intent_timeout;
      };
    }

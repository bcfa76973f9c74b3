-- ===== src/Queries/Once.antt =====
-- Deduplication and aging of queries (core/src/serf/base.rs, `handle_query`) over any sequence of
-- queries. Once more than two buffer lengths have passed, the age check rejects every query.
use ruserf.Prelude.{
  ℕ, ◌+◌, ◌*◌, ◌%◌, ◌≤◌, ◌<◌, max, All, Bool-cases, Option-cases, ◌≡◌, ◌≢◌, ◌⊎◌, refl, Bool, true,
  false, not, Option, none, some, List, [], ◌∷◌, ◌++◌, Eq, nat_eq, nat_beq_iff, ltb, length,
  get_elem?, set, contains, arith, inl, inr, get_elem?-set_self, get_elem?-set_ne, get_elem?_lt,
  length-set, ap, ◌∙◌,
}
use native.Mathlib.Decide.{ℕ_discrete}
use ruserf.Types.{Bytes, Queries, QueryMessage, InternalQueryEvent}
use ruserf.Serf.{Serf, Codec}
use ruserf.Clock.{u64_mod, witness}
use ruserf.Clock.Order.{witness-max}
use ruserf.Queries.Wire.{should_process_query, should_process_query_same, filters_panic_none}
use ruserf.Queries.Handler.{record_query, is_query_stale, handle_query, query_crate_event}
use ruserf.Queries.Slots.{
  stored_query, Outcome, rejected, known, processed, process_query-Speaks, process_query-emits,
  returned-Outcome,
}

-- The slot at the index is one of the time, and holds the query's id.
abbrev pub IsSeen : (ltime id idx : ℕ) → List (Option Queries) → Type 0
IsSeen ltime id idx buffer =
    (slot : Queries) × (get_elem? buffer idx ≡ some (some slot))
    × (slot.ltime ≡ ltime)
    × (contains id slot.query_ids ≡ true)

-- The slot at the index is free, or of the time.
abbrev pub IsOpenFor : (ltime idx : ℕ) → List (Option Queries) → Type 0
IsOpenFor ltime idx buffer =
    (seen : Queries) → get_elem? buffer idx ≡ some (some seen) → seen.ltime ≡ ltime

contains-append : (x : ℕ) (xs ys : List ℕ) → contains x xs ≡ true → contains x (xs ++ ys) ≡ true
contains-append x [] ys h = cc
contains-append x (y ∷ xs) ys h = ground (arith, contains-append x xs ys)

contains-push : (x : ℕ) (xs : List ℕ) → contains x (xs ++ x ∷ []) ≡ true
contains-push x [] = ground arith
contains-push x (y ∷ xs) = ground (arith, contains-push x xs)

-- Recording a query keeps the slot's time and ids.
record_query-keeps :
    (seen slot : Queries) (ltime id old : ℕ)
    → record_query (some seen) ltime id ≡ some slot
    → contains old seen.query_ids ≡ true
    → (slot.ltime ≡ seen.ltime) × (contains old slot.query_ids ≡ true)
unfolding record_query
record_query-keeps seen slot ltime id old h c =
    ground (arith, contains-append old seen.query_ids (id ∷ []) c)

record_query-adds :
    (seen : Option Queries) (slot : Queries) (ltime id : ℕ)
    → record_query seen ltime id ≡ some slot
    → ((old : Queries) → seen ≡ some old → old.ltime ≡ ltime)
    → (slot.ltime ≡ ltime) × (contains id slot.query_ids ≡ true)
unfolding record_query
record_query-adds none slot ltime id h c = ground arith
record_query-adds (some seen) slot ltime id h c =
    let same = c seen refl in ground (arith, contains-push id seen.query_ids)

module _ {I A : Type 0} ⦃e : Eq I⦄ (codec : Codec I A) (draws : ℕ → ℕ) where
  Outcome-buffer :
      (q : QueryMessage I A) (ty : Option (InternalQueryEvent I)) (s : Serf I A)
      (r : Serf I A × Bool)
      → Outcome codec draws q ty s r
      → (r.0.query_core.buffer ≡ s.query_core.buffer)
        ⊎ ((seen : Option Queries) × (slot : Queries) × (get_elem? s.query_core.buffer
                (q.ltime % length s.query_core.buffer)
              ≡ some seen)
            × (record_query seen q.ltime q.id ≡ some slot)
            × (r.0.query_core.buffer
                ≡ set s.query_core.buffer (q.ltime % length s.query_core.buffer) (some slot)))
  Outcome-buffer q ty s r (rejected h same) = inl (rw same refl)
  Outcome-buffer q ty s r (known seen h found old same) = inl (rw same refl)
  Outcome-buffer q ty s r (processed seen slot h found new same) =
      let (sends, events, says) = process_query-Speaks codec draws q ty (stored_query q s slot) in
      inr (seen, slot, found, new, rw (same, says) refl)

  Outcome-length :
      (q : QueryMessage I A) (ty : Option (InternalQueryEvent I)) (s : Serf I A)
      (r : Serf I A × Bool)
      → Outcome codec draws q ty s r
      → length r.0.query_core.buffer ≡ length s.query_core.buffer
  Outcome-length q ty s r o = elim (Outcome-buffer q ty s r o) [
    | inl same ↦ ap length same
    | inr (seen, slot, found, new, same) ↦
        ap length same
        ∙ length-set s.query_core.buffer (q.ltime % length s.query_core.buffer) (some slot)
  ]

  Outcome-IsSeen :
      (q : QueryMessage I A) (ty : Option (InternalQueryEvent I)) (s : Serf I A)
      (r : Serf I A × Bool) (ltime id idx : ℕ)
      → Outcome codec draws q ty s r
      → IsSeen ltime id idx s.query_core.buffer
      → IsSeen ltime id idx r.0.query_core.buffer
  Outcome-IsSeen q ty s r ltime id idx o (old, here, same, has) =
      let i = q.ltime % length s.query_core.buffer in
      elim (Outcome-buffer q ty s r o) [
        | inl kept ↦ rw kept (old, here, same, has)
        | inr (seen, slot, found, new, kept) ↦ elim (ℕ_discrete i idx) [
          | yes at_idx ↦
              let (time, ids) = record_query-keeps old slot q.ltime q.id id (cc) has in
              rw kept (
                slot,
                rw (← at_idx) (
                    get_elem?-set_self s.query_core.buffer i (some slot)
                      (get_elem?_lt s.query_core.buffer i seen found)),
                time ∙ same,
                ids,
              )
          | no other ↦
              rw kept (
                old,
                get_elem?-set_ne s.query_core.buffer i idx (some slot) other ∙ here,
                same,
                has,
              )
        ]
      ]

  -- A query that has been seen is not processed again.
  Outcome-seen :
      (q : QueryMessage I A) (ty : Option (InternalQueryEvent I)) (s : Serf I A)
      (r : Serf I A × Bool)
      → Outcome codec draws q ty s r
      → IsSeen q.ltime q.id (q.ltime % length s.query_core.buffer) s.query_core.buffer
      → r ≡ (record s { query_clock = witness s.query_clock q.ltime }, false)
  Outcome-seen q ty s r (rejected h same) k = same
  Outcome-seen q ty s r (known seen h found old same) k = same
  Outcome-seen q ty s r (processed seen slot h found new same) (old, here, time, has) =
      absurd (unfold record_query in ground (arith, nat_beq_iff old.ltime q.ltime))

  -- Queries handled one after the other, with what they ask internally; `none` is a panic.
  unfoldable pub run :
      List (QueryMessage I A × Option (InternalQueryEvent I)) → Serf I A → Option (Serf I A)
  run [] s = some s
  run (q ∷ qs) s = elim (handle_query codec draws q.0 q.1 s) [ none ↦ none | some r ↦ run qs r.0 ]

  run-IsSeen :
      (qs : List (QueryMessage I A × Option (InternalQueryEvent I))) (s s' : Serf I A)
      (ltime id idx : ℕ)
      → 0 < length s.query_core.buffer
      → run qs s ≡ some s'
      → IsSeen ltime id idx s.query_core.buffer
      → (length s'.query_core.buffer ≡ length s.query_core.buffer)
        × IsSeen ltime id idx s'.query_core.buffer
  unfolding run
  run-IsSeen [] s s' ltime id idx h e k = let same : s ≡ s' = cc in rw (← same) (refl, k)
  run-IsSeen (q ∷ qs) s s' ltime id idx h e k =
      elim (Option-cases (handle_query codec draws q.0 q.1 s)) [
        | inl panic ↦ cc (rw (panic, run) at e)
        | inr (r, e') ↦
            let o = returned-Outcome codec draws q.0 q.1 s r h e' in
            let n = Outcome-length q.0 q.1 s r o in
            let rest =
              run-IsSeen qs r.0 s' ltime id idx (omega arith) (rw (e', run) at e)
                (Outcome-IsSeen q.0 q.1 s r ltime id idx o k) in
            (rest.0 ∙ n, rest.1)
      ]

  Outcome-learns :
      (q : QueryMessage I A) (ty : Option (InternalQueryEvent I)) (s : Serf I A)
      (r : Serf I A × Bool)
      → IsOpenFor q.ltime (q.ltime % length s.query_core.buffer) s.query_core.buffer
      → Outcome codec draws q ty s r
      → r.1 ≡ true
      → IsSeen q.ltime q.id (q.ltime % length s.query_core.buffer) r.0.query_core.buffer
  Outcome-learns q ty s r fit (rejected h same) told = absurd (ground arith)
  Outcome-learns q ty s r fit (known seen h found old same) told = absurd (ground arith)
  Outcome-learns q ty s r fit (processed seen slot h found new same) told =
      let i = q.ltime % length s.query_core.buffer in
      let (sends, events, says) = process_query-Speaks codec draws q ty (stored_query q s slot) in
      let (time, has) =
        record_query-adds seen slot q.ltime q.id new (λ old e. fit old (found ∙ ap some e)) in
      rw (same, says)
        (
          slot,
          get_elem?-set_self s.query_core.buffer i (some slot)
              (get_elem?_lt s.query_core.buffer i seen found),
          time,
          has,
        )

  module _ (q again : QueryMessage I A) (ty ty' : Option (InternalQueryEvent I)) (s s2 : Serf I A)
      (r r' : Serf I A × Bool) where
    -- A query that was rebroadcast, whose slot was free or of its time, is not processed again,
    -- whatever queries come in between: a message with its time and id then changes nothing but
    -- the clock and is not rebroadcast.
    pub handle_query_once :
        (qs : List (QueryMessage I A × Option (InternalQueryEvent I)))
        → 0 < length s.query_core.buffer
        → IsOpenFor q.ltime (q.ltime % length s.query_core.buffer) s.query_core.buffer
        → handle_query codec draws q ty s ≡ some r
        → r.1 ≡ true
        → run qs r.0 ≡ some s2
        → again.ltime ≡ q.ltime
        → again.id ≡ q.id
        → handle_query codec draws again ty' s2 ≡ some r'
        → r' ≡ (record s2 { query_clock = witness s2.query_clock again.ltime }, false)
    handle_query_once qs h fit first told between time same last =
        let o = returned-Outcome codec draws q ty s r h first in
        let n = Outcome-length q ty s r o in
        let (n', k) =
          run-IsSeen qs r.0 s2 q.ltime q.id (q.ltime % length s.query_core.buffer) (omega arith)
            between (Outcome-learns q ty s r fit o told) in
        let o2 = returned-Outcome codec draws again ty' s2 r' (omega arith) last in
        let m : length s2.query_core.buffer ≡ length s.query_core.buffer = n' ∙ n in
        Outcome-seen again ty' s2 r' o2 (rw (time, same, m) k)

  -- Once the query clock is more than two buffer lengths on, every query is rejected, whatever its
  -- own time (below 2^64 - 1): the clock may move on, and nothing else happens.
  pub handle_query_deaf :
      (q : QueryMessage I A) (ty : Option (InternalQueryEvent I)) (s : Serf I A)
      → 2 * length s.query_core.buffer < s.query_clock
      → q.ltime + 1 < u64_mod
      → handle_query codec draws q ty s
        ≡ some (record s { query_clock = max s.query_clock (q.ltime + 1) }, false)
  unfolding handle_query
  handle_query_deaf q ty s old bound =
      let later = (witness-max s.query_clock q.ltime).0 bound in
      let stale : is_query_stale (witness s.query_clock q.ltime) (length s.query_core.buffer)
          ≡ true =
        rw later (ground arith) in
      elim (Bool-cases (ltb q.ltime s.query_core.min_time)) [
        | inl early ↦ rw (early, handle_query, later) refl
        | inr timely ↦ rw (timely, stale, handle_query, later) refl
      ]

  -- Once the query clock is more than two buffer lengths on, no query is processed again, whatever
  -- sequence of queries with times below 2^64 - 1 arrives: nothing changes but the query clock.
  pub run_deaf :
      (qs : List (QueryMessage I A × Option (InternalQueryEvent I))) (s : Serf I A)
      → 2 * length s.query_core.buffer < s.query_clock
      → All (λ q. q.0.ltime + 1 < u64_mod) qs
      → (clock : ℕ) × (run qs s ≡ some (record s { query_clock = clock }))
  unfolding run
  run_deaf [] s old bound = (s.query_clock, refl)
  run_deaf (q ∷ qs) s old bound =
      let first = handle_query_deaf q.0 q.1 s old bound.0 in
      let (clock, rest) =
        run_deaf qs (record s { query_clock = max s.query_clock (q.0.ltime + 1) }) (omega arith)
          bound.1 in
      (clock, rw (first, run) rest)

  -- One arrival of a query whose slot holds another time.
  handle_query_other :
      (q : QueryMessage I A) (ty : Option (InternalQueryEvent I)) (s : Serf I A) (seen : Queries)
      → get_elem? s.query_core.buffer (q.ltime % length s.query_core.buffer) ≡ some (some seen)
      → seen.ltime ≢ q.ltime
      → s.query_core.min_time ≤ q.ltime
      → q.ltime < s.query_clock
      → is_query_stale s.query_clock (length s.query_core.buffer) ≡ false
      → should_process_query codec q.filters s ≡ true
      → All (λ b. codec.filter_panics b ≡ false) q.filters
      → (sends : List (A × Bytes)) × (handle_query codec draws q ty s
          ≡ some (
            record (stored_query q s (record seen { query_ids = seen.query_ids ++ q.id ∷ [] })) {
              sends = sends;
              events = s.events ++ query_crate_event ty q ∷ [];
            },
            not q.flags.no_broadcast,
          ))
  unfolding handle_query
  handle_query_other q ty s seen found other late now fresh passes reads =
      let slot : Queries = record seen { query_ids = seen.query_ids ++ q.id ∷ [] } in
      let time : witness s.query_clock q.ltime ≡ s.query_clock = unfold witness in ground arith in
      let timely : ltb q.ltime s.query_core.min_time ≡ false = ground arith in
      let fresh' : is_query_stale (witness s.query_clock q.ltime) (length s.query_core.buffer)
          ≡ false =
        rw time fresh in
      let new : record_query (some seen) q.ltime q.id ≡ some slot =
        unfold record_query in ground (arith, nat_beq_iff seen.ltime q.ltime) in
      let s0 = stored_query q s slot in
      let (sends, emits) =
        process_query-emits codec draws q ty s0
          (should_process_query_same codec q.filters s s0 refl refl ∙ passes) in
      let fine = filters_panic_none codec q.filters s0 reads in
      (sends, rw (timely, fresh', found, new, fine, handle_query) (ap some emits))

  -- A query that passes its filters, none of which panics their decoder, is not below the least time,
  -- not past the clock and not stale, and whose slot holds another time, is handed to the user on each
  -- of two arrivals, and rebroadcast if its flags permit, for its slot keeps the other time.
  pub handle_query_repeats :
      (q : QueryMessage I A) (ty ty' : Option (InternalQueryEvent I)) (s : Serf I A)
      (seen : Queries)
      → get_elem? s.query_core.buffer (q.ltime % length s.query_core.buffer) ≡ some (some seen)
      → seen.ltime ≢ q.ltime
      → s.query_core.min_time ≤ q.ltime
      → q.ltime < s.query_clock
      → is_query_stale s.query_clock (length s.query_core.buffer) ≡ false
      → should_process_query codec q.filters s ≡ true
      → All (λ b. codec.filter_panics b ≡ false) q.filters
      → (s1 : Serf I A) × (s2 : Serf I A) × (handle_query codec draws q ty s
          ≡ some (s1, not q.flags.no_broadcast))
        × (s1.events ≡ s.events ++ query_crate_event ty q ∷ [])
        × (handle_query codec draws q ty' s1 ≡ some (s2, not q.flags.no_broadcast))
        × (s2.events ≡ s1.events ++ query_crate_event ty' q ∷ [])
  handle_query_repeats q ty ty' s seen found other late now fresh passes reads =
      let i = q.ltime % length s.query_core.buffer in
      let slot : Queries = record seen { query_ids = seen.query_ids ++ q.id ∷ [] } in
      let (sends, first) = handle_query_other q ty s seen found other late now fresh passes reads in
      let s1 : Serf I A = record (stored_query q s slot) {
        sends = sends;
        events = s.events ++ query_crate_event ty q ∷ [];
      } in
      let clock : s1.query_clock ≡ s.query_clock = unfold witness in ground arith in
      let n : length s1.query_core.buffer ≡ length s.query_core.buffer =
        length-set s.query_core.buffer i (some slot) in
      let there : get_elem? s1.query_core.buffer (q.ltime % length s1.query_core.buffer)
          ≡ some (some slot) =
        rw n (
          get_elem?-set_self s.query_core.buffer i (some slot)
            (get_elem?_lt s.query_core.buffer i (some seen) found)) in
      let (sends', second) =
        handle_query_other q ty' s1 slot there other late (omega arith) (rw (clock, n) fresh)
          (should_process_query_same codec q.filters s s1 refl refl ∙ passes) reads in
      (s1, _, first, refl, second, refl)

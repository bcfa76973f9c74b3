-- ===== src/Queries/Slots.antt =====
-- The buffer of recent queries (core/src/serf/base.rs, `handle_query`): one step.
use ruserf.Prelude.{
  ◌∙◌, ap, ◌++◌, All, ◌⊎◌, value_unique, ℕ, ◌+◌, ◌%◌, ◌<◌, ◌≡◌, refl, Bool, true, false, not, ◌||◌,
  Option, none, some, List, [], ◌∷◌, Eq, ◌==◌, nat_eq, ltb, length, get_elem?, set, arith,
  Bool-cases, Option-cases, inl, inr, get_elem?-some,
}
use ruserf.Types.{
  Bytes, Node, Member, Queries, QueryMessage, QueryResponseMessage, InternalQueryEvent, CrateEvent,
}
use ruserf.Serf.{Serf, SerfMessage, Codec}
use ruserf.Clock.{witness}
use ruserf.Queries.Wire.{should_process_query, filters_panic, filters_panic_none}
use ruserf.Queries.Relay.{relay_candidates, relay_to, relayed, relayed_len, relay_response}
use ruserf.Queries.Handler.{
  query_crate_event, record_query, is_query_stale, ack_of, acknowledge, process_query, handle_query,
}

module _ {I A : Type 0} where
  -- The two states differ at most in what was sent and emitted.
  abbrev pub Speaks : Serf I A → Serf I A → Type 0
  Speaks s s' =
      (sends : List (A × Bytes)) × (events : List (CrateEvent I A)) × (s'
        ≡ record s { sends = sends; events = events })

  -- The clock has witnessed the query, and its slot is written.
  abbrev pub stored_query : QueryMessage I A → Serf I A → Queries → Serf I A
  stored_query q s slot = record s {
    query_clock = witness s.query_clock q.ltime;
    query_core = record s.query_core {
      buffer = set s.query_core.buffer (q.ltime % length s.query_core.buffer) (some slot);
    };
  }

  Spoken : Serf I A → Option (Serf I A) → Type 0
  Spoken s none = Unit
  Spoken s (some s') = (sends : List (A × Bytes)) × (s' ≡ record s { sends = sends })

module _ {I A : Type 0} ⦃e : Eq I⦄ (codec : Codec I A) (draws : ℕ → ℕ) where
  relay_to-Spoken :
      (f : ℕ) (node : Node I A) (resp : QueryResponseMessage I A) (s : Serf I A)
      (cs : List (Member I A))
      → Spoken s (relay_to codec draws f node resp s cs)
  unfolding relay_to Spoken
  relay_to-Spoken f node resp s [] = (s.sends, refl)
  relay_to-Spoken f node resp s (c ∷ cs) =
      elim (Bool-cases (ltb s.opts.query_response_size_limit (relayed_len codec node resp))) [
        | inl big ↦ rw (big, relay_to) tt
        | inr fits ↦ elim (Option-cases (relayed codec node resp)) [
          | inl bad ↦ rw (fits, bad, relay_to) tt
          | inr (raw, good) ↦ rw (fits, good, relay_to) (_, refl)
        ]
      ]

  relay_response-Spoken :
      (f : ℕ) (node : Node I A) (resp : QueryResponseMessage I A) (s : Serf I A)
      → Spoken s (relay_response codec draws f node resp s)
  unfolding relay_response Spoken
  relay_response-Spoken f node resp s = elim (Bool-cases (f == 0)) [
    | inl off ↦ rw (off, relay_response) (s.sends, refl)
    | inr on ↦ elim (Bool-cases (ltb (length s.members.states) (f + 1))) [
      | inl tiny ↦ rw (on, tiny, relay_response) (s.sends, refl)
      | inr wide ↦
          rw (on, wide, relay_response) (relay_to-Spoken f node resp s (relay_candidates s))
    ]
  ]

  or_else-Speaks :
      (s : Serf I A) (l : List (A × Bytes)) (o : Option (Serf I A))
      → Spoken (record s { sends = l }) o
      → (sends : List (A × Bytes)) × ((elim o [
        | none ↦ record s { sends = l }
        | some relayed ↦ relayed
      ])
          ≡ record s { sends = sends })
  unfolding Spoken
  or_else-Speaks s l none h = (l, refl)
  or_else-Speaks s l (some s') (sends, same) = (sends, same)

  acknowledge-Speaks :
      (q : QueryMessage I A) (s : Serf I A)
      → (sends : List (A × Bytes)) × (acknowledge codec draws q s ≡ record s { sends = sends })
  unfolding acknowledge
  acknowledge-Speaks q s =
      elim (Option-cases
        (codec.encode_message (SerfMessage.query_response (ack_of s.local_node q)))) [
          | inl bad ↦ rw (bad, acknowledge) (s.sends, refl)
          | inr (bytes, good) ↦
              rw (good, acknowledge)
                (or_else-Speaks s _ _
                  (relay_response-Spoken q.relay_factor q.from (ack_of s.local_node q) _))
        ]

  pub process_query-Speaks :
      (q : QueryMessage I A) (ty : Option (InternalQueryEvent I)) (s : Serf I A)
      → Speaks s (process_query codec draws q ty s).0
  unfolding process_query
  process_query-Speaks q ty s = elim (Bool-cases (should_process_query codec q.filters s)) [
    | inr filtered ↦ rw (filtered, process_query) (s.sends, s.events, refl)
    | inl process ↦ elim (Bool-cases q.flags.ack) [
      | inr silent ↦ rw (process, silent, process_query) (s.sends, _, refl)
      | inl ack ↦
          let (sends, same) = acknowledge-Speaks q s in
          rw (process, ack, process_query, same) (sends, _, refl)
    ]
  ]

  -- A query that the filters let through is handed to the user, besides the ack.
  pub process_query-emits :
      (q : QueryMessage I A) (ty : Option (InternalQueryEvent I)) (s : Serf I A)
      → should_process_query codec q.filters s ≡ true
      → (sends : List (A × Bytes)) × (process_query codec draws q ty s ≡ (
        record s { sends = sends; events = s.events ++ query_crate_event ty q ∷ [] },
        not q.flags.no_broadcast,
      ))
  unfolding process_query
  process_query-emits q ty s process = elim (Bool-cases q.flags.ack) [
    | inr silent ↦ (s.sends, rw (process, silent, process_query) refl)
    | inl ack ↦
        let (sends, same) = acknowledge-Speaks q s in
        let ev = query_crate_event ty q in
        let step : process_query codec draws q ty s ≡ (
          record (acknowledge codec draws q s) {
            events = (acknowledge codec draws q s).events ++ ev ∷ [];
          },
          not q.flags.no_broadcast,
        ) =
          ground arith in
        (
          sends,
          step
              ∙ ap (λ t. (record t { events = t.events ++ ev ∷ [] }, not q.flags.no_broadcast))
                  same,
        )
  ]

  pub process_query-rebroadcast :
      (q : QueryMessage I A) (ty : Option (InternalQueryEvent I)) (s : Serf I A)
      → (process_query codec draws q ty s).1 ≡ not q.flags.no_broadcast
  unfolding process_query
  process_query-rebroadcast q ty s = elim (Bool-cases (should_process_query codec q.filters s)) [
    | inr filtered ↦ rw (filtered, process_query) refl
    | inl process ↦ rw (process, process_query) refl
  ]

module _ {I A : Type 0} ⦃e : Eq I⦄ (codec : Codec I A) (draws : ℕ → ℕ) (q : QueryMessage I A)
    (ty : Option (InternalQueryEvent I)) (s : Serf I A) where
  abbrev slot_of : ℕ
  slot_of = q.ltime % length s.query_core.buffer

  abbrev witnessed : Serf I A
  witnessed = record s { query_clock = witness s.query_clock q.ltime }

  abbrev is_rejected : Bool
  is_rejected =
      ltb q.ltime s.query_core.min_time
      || is_query_stale (witness s.query_clock q.ltime) (length s.query_core.buffer)

  -- What a call can return: it is rejected or has been seen, and nothing but the clock has changed; or
  -- it is recorded in its slot and processed.
  pub data Outcome (r : Serf I A × Bool) : Type 0 where
    rejected : is_rejected ≡ true → r ≡ (witnessed, false) → Outcome r
    known :
        (seen : Option Queries)
        → is_rejected ≡ false
        → get_elem? s.query_core.buffer slot_of ≡ some seen
        → record_query seen q.ltime q.id ≡ none
        → r ≡ (witnessed, false)
        → Outcome r
    processed :
        (seen : Option Queries) (slot : Queries)
        → is_rejected ≡ false
        → get_elem? s.query_core.buffer slot_of ≡ some seen
        → record_query seen q.ltime q.id ≡ some slot
        → r ≡ process_query codec draws q ty (stored_query q s slot)
        → Outcome r

  -- On a buffer with slots a call has one of the outcomes, or it panics on a filter.
  handle_query-cases :
      0 < length s.query_core.buffer
      → ((r : Serf I A × Bool) × (handle_query codec draws q ty s ≡ some r) × Outcome r)
        ⊎ ((slot : Queries) × (handle_query codec draws q ty s ≡ none)
            × (filters_panic codec q.filters (stored_query q s slot) ≡ true))
  unfolding handle_query
  handle_query-cases h =
      let (seen, found) = get_elem?-some s.query_core.buffer slot_of (omega arith) in
      elim (Bool-cases (ltb q.ltime s.query_core.min_time)) [
        | inl early ↦
            inl ((witnessed, false), rw (early, handle_query) refl, rejected (rw early refl) refl)
        | inr timely ↦
            elim (Bool-cases
              (is_query_stale (witness s.query_clock q.ltime) (length s.query_core.buffer))) [
                | inl stale ↦ inl (
                  (witnessed, false),
                  rw (timely, stale, handle_query) refl,
                  rejected (rw (timely, stale) refl) refl,
                )
                | inr fresh ↦ elim (Option-cases (record_query seen q.ltime q.id)) [
                  | inl old ↦ inl (
                    (witnessed, false),
                    rw (timely, fresh, found, old, handle_query) refl,
                    known seen (rw (timely, fresh) refl) found old refl,
                  )
                  | inr (slot, new) ↦
                      elim (Bool-cases (filters_panic codec q.filters (stored_query q s slot))) [
                        | inl panics ↦ inr (
                          slot,
                          rw (timely, fresh, found, new, panics, handle_query) refl,
                          panics,
                        )
                        | inr reads ↦ inl (
                          process_query codec draws q ty (stored_query q s slot),
                          rw (timely, fresh, found, new, reads, handle_query) refl,
                          processed seen slot (rw (timely, fresh) refl) found new refl,
                        )
                      ]
                ]
              ]
      ]

  -- A call that returns has one of the outcomes.
  pub returned-Outcome :
      (r : Serf I A × Bool)
      → 0 < length s.query_core.buffer
      → handle_query codec draws q ty s ≡ some r
      → Outcome r
  returned-Outcome r h returns = elim (handle_query-cases h) [
    | inl (r', done, o) ↦
        let same = value_unique (handle_query codec draws q ty s) r' r done returns in rw (← same) o
    | inr (slot, panics, bad) ↦ cc
  ]

  -- If no filter panics its decoder, a call returns.
  pub handle_query-Outcome :
      0 < length s.query_core.buffer
      → All (λ b. codec.filter_panics b ≡ false) q.filters
      → (r : Serf I A × Bool) × (handle_query codec draws q ty s ≡ some r) × Outcome r
  handle_query-Outcome h reads = elim (handle_query-cases h) [
    | inl r ↦ r
    | inr (slot, panics, bad) ↦
        let fine = filters_panic_none codec q.filters (stored_query q s slot) reads in cc
  ]

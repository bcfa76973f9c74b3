-- ===== src/Coalesce/Delivered.antt =====
-- What a flush of the coalescer of user events sends (core/src/coalesce/user.rs): the map of
-- `Coalesce.Newest` read out in the order of its names.
use ruserf.Prelude.{
  ℕ, ◌≡◌, refl, ap, sym, ◌∙◌, Bool, true, false, Option, none, some, List, [], ◌∷◌, ◌++◌, ltb,
  nat_eq, list_eq, list_beq_iff, ◌==◌, lookup, insert, keys, occurs-insert, lookup_of_occurs,
  retain, take, All, All-append, arith, inl, inr, Option-cases, Bool-cases, map, IsDistinct, length,
  leb, zero, suc,
}
use mathlib.Core.List.{append-nil, append_assoc}
use ruserf.Types.{Bytes, UserEventMessage, CrateEvent}
use ruserf.Coalesce.{OutTx, send, send_all}
use ruserf.Coalesce.User.{LatestUserEvents, UserEventCoalescer, coalesce_user, drained, flush}
use ruserf.Coalesce.Newest.{
  newest, newest_time, is_named, slot, no_names, slot-push, lookup-coalesce_user, retain-append,
}

-- `coalesce` for each event in turn.
unfoldable pub coalesce_all : List UserEventMessage → UserEventCoalescer → UserEventCoalescer
unfolding coalesce_user
coalesce_all [] c = c
coalesce_all (e ∷ es) c = coalesce_all es (coalesce_user e c)

-- Each slot holds events of its name, and each name has one slot.
abbrev HoldsName : Bytes × LatestUserEvents → Type 0
HoldsName s = All (λ m. is_named s.0 m ≡ true) s.1.events

record IsOrdered (c : UserEventCoalescer) : Type 0 where
  named : All HoldsName c
  single : IsDistinct (keys c)

named-insert :
    (name : Bytes) (latest : LatestUserEvents) (c : UserEventCoalescer)
    → All HoldsName c
    → All (λ m. is_named name m ≡ true) latest.events
    → All HoldsName (insert name latest c)
unfolding insert
named-insert name latest [] h new = (new, tt)
named-insert name latest ((own, old) ∷ c) h new = elim (Bool-cases (own == name)) [
  | inl same ↦ rw same (new, h.1)
  | inr other ↦ rw other (h.0, named-insert name latest c h.1 new)
]

named-lookup :
    (name : Bytes) (latest : LatestUserEvents) (c : UserEventCoalescer)
    → All HoldsName c
    → lookup name c ≡ some latest
    → All (λ m. is_named name m ≡ true) latest.events
unfolding lookup
named-lookup name latest [] h found = absurd (ground arith)
named-lookup name latest ((own, old) ∷ c) h found = elim (Bool-cases (own == name)) [
  | inl same ↦
      let at : own ≡ name = (list_beq_iff own name).0 same in
      let this : old ≡ latest = ground (arith, found, same) in rw (← at, ← this) h.0
  | inr other ↦ named-lookup name latest c h.1 (ground (arith, found, other))
]

single-insert :
    (name : Bytes) (latest : LatestUserEvents) (c : UserEventCoalescer)
    → IsDistinct (keys c)
    → IsDistinct (keys (insert name latest c))
single-insert name latest c h other =
    let most = h other in ground (arith, most, occurs-insert name other latest c)

-- A slot of its name may be written.
IsOrdered-insert :
    (name : Bytes) (latest : LatestUserEvents) (c : UserEventCoalescer)
    → IsOrdered c
    → All (λ m. is_named name m ≡ true) latest.events
    → IsOrdered (insert name latest c)
IsOrdered-insert name latest c h new = record {
  named = named-insert name latest c h.named new;
  single = single-insert name latest c h.single;
}

coalesce_user-IsOrdered :
    (e : UserEventMessage) (c : UserEventCoalescer) → IsOrdered c → IsOrdered (coalesce_user e c)
unfolding coalesce_user
coalesce_user-IsOrdered e c h =
    let own : is_named e.name e ≡ true = (list_beq_iff e.name e.name).1 refl in
    elim (Option-cases (lookup e.name c)) [
      | inl absent ↦ rw (absent, coalesce_user) (IsOrdered-insert e.name _ c h (own, tt))
      | inr (latest, found) ↦
          let old = named-lookup e.name latest c h.named found in
          rw (found, coalesce_user)
            (elim (Bool-cases (ltb latest.ltime e.ltime)) [
              | inl later ↦ rw later (IsOrdered-insert e.name _ c h (own, tt))
              | inr not_later ↦ rw not_later (elim (Bool-cases (latest.ltime == e.ltime)) [
                | inl same ↦ rw same (
                    IsOrdered-insert e.name (record latest { events = latest.events ++ e ∷ [] }) c h
                      (All-append (λ m. is_named e.name m ≡ true) latest.events (e ∷ []) old
                        (own, tt)))
                | inr older ↦ rw older h
              ])
            ])
    ]

pub retain-All {ℓ} :
    {T : Type ℓ} (p : T → Bool) (xs : List T) → All (λ x. p x ≡ true) xs → retain p xs ≡ xs
retain-All p [] h = refl
retain-All p (x ∷ xs) h = ground (arith, h.0, retain-All p xs h.1)

other_name :
    (name own : Bytes) (es : List UserEventMessage)
    → (own == name) ≡ false
    → All (λ m. is_named own m ≡ true) es
    → retain (is_named name) es ≡ []
other_name name own [] ne h = refl
other_name name own (e ∷ es) ne h = ground (
  arith,
  h.0,
  list_beq_iff e.name own,
  list_beq_iff e.name name,
  list_beq_iff own name,
  other_name name own es ne h.1,
)

-- The events of a slot.
abbrev held : Option LatestUserEvents → List UserEventMessage
held none = []
held (some latest) = latest.events

drained_named :
    (name : Bytes) (c : UserEventCoalescer)
    → IsOrdered c
    → retain (is_named name) (drained c) ≡ held (lookup name c)
unfolding drained lookup
drained_named name [] h = refl
drained_named name ((own, latest) ∷ c) h =
    let rest : IsOrdered c = record {
      named = h.named.1;
      single = λ a. ground (arith, h.single a);
    } in
    let more = drained_named name c rest in
    let split = retain-append (is_named name) latest.events (drained c) in
    elim (Bool-cases (own == name)) [
      | inl same ↦
          let at : own ≡ name = (list_beq_iff own name).0 same in
          let all : All (λ m. is_named name m ≡ true) latest.events = rw (← at) h.named.0 in
          let absent : lookup name c ≡ none =
            lookup_of_occurs name c (let most = h.single name in ground (arith, most, same)) in
          rw (split, retain-All (is_named name) latest.events all, more, absent, same)
            (append-nil latest.events)
      | inr other ↦ rw (split, other_name name own latest.events other h.named.0, other) more
    ]

-- From empty, or any map that stands for the events `seen`.
coalesce_all-slot :
    (es seen : List UserEventMessage) (c : UserEventCoalescer)
    → ((name : Bytes) → lookup name c ≡ slot name seen)
    → (name : Bytes) → lookup name (coalesce_all es c) ≡ slot name (seen ++ es)
unfolding coalesce_all
coalesce_all-slot [] seen c h name = rw (append-nil seen) (h name)
coalesce_all-slot (e ∷ es) seen c h name =
    let next : (n : Bytes) → lookup n (coalesce_user e c) ≡ slot n (seen ++ e ∷ []) =
      λ n. lookup-coalesce_user n e c ∙ rw (h n) (sym (slot-push n seen e)) in
    let moved = coalesce_all-slot es (seen ++ e ∷ []) (coalesce_user e c) next name in
    moved ∙ ap (slot name) (append_assoc seen (e ∷ []) es)

coalesce_all-IsOrdered :
    (es : List UserEventMessage) (c : UserEventCoalescer)
    → IsOrdered c
    → IsOrdered (coalesce_all es c)
unfolding coalesce_all
coalesce_all-IsOrdered [] c h = h
coalesce_all-IsOrdered (e ∷ es) c h =
    coalesce_all-IsOrdered es (coalesce_user e c) (coalesce_user-IsOrdered e c h)

held-slot : (name : Bytes) (es : List UserEventMessage) → held (slot name es) ≡ newest name es
held-slot name es = ground (arith, no_names name (newest_time name es) es)

module _ {E : Type 0} where
  -- What a channel takes of a list.
  abbrev pub taken : Option ℕ → List E → List E
  taken none es = es
  taken (some n) es = take n es

  abbrev pub takes_all : Option ℕ → List E → Bool
  takes_all none es = true
  takes_all (some n) es = leb (length es) n

  abbrev outlet : List E → Option ℕ → OutTx E
  outlet sent room = record { sent = sent; closes_after = room }

  send_all-room :
      (es sent : List E) (room : Option ℕ)
      → ((send_all es (outlet sent room)).0.sent ≡ sent ++ taken room es)
        × ((send_all es (outlet sent room)).1 ≡ takes_all room es)
  unfolding send_all send
  send_all-room [] sent none = (sym (append-nil sent), refl)
  send_all-room [] sent (some zero) = (sym (append-nil sent), refl)
  send_all-room [] sent (some (suc n)) = (sym (append-nil sent), ground arith)
  send_all-room (e ∷ es) sent none =
      let rest = send_all-room es (sent ++ e ∷ []) none in
      (rest.0 ∙ append_assoc sent (e ∷ []) es, rest.1)
  send_all-room (e ∷ es) sent (some zero) = (sym (append-nil sent), ground arith)
  send_all-room (e ∷ es) sent (some (suc n)) =
      let rest = send_all-room es (sent ++ e ∷ []) (some n) in
      (rest.0 ∙ append_assoc sent (e ∷ []) (take n es), rest.1 ∙ ground arith)

  -- A closed channel cuts the list off, and that shows.
  pub send_all-sent :
      (es : List E) (out : OutTx E)
      → ((send_all es out).0.sent ≡ out.sent ++ taken out.closes_after es)
        × ((send_all es out).1 ≡ takes_all out.closes_after es)
  send_all-sent es out = send_all-room es out.sent out.closes_after

-- A flush after any events sends, of each name, the events of the newest time of that name in their
-- order and nothing else, as far as the channel stays open. It fails exactly if the channel closes
-- before the last of them, and leaves the coalescer empty either way.
pub flush_newest :
    {I A : Type 0} (es : List UserEventMessage) (out : OutTx (CrateEvent I A))
    → let (left, after) = flush (coalesce_all es []) out in
      (evs : List UserEventMessage) × (left ≡ [])
      × (after.0.sent ≡ out.sent ++ taken out.closes_after (map CrateEvent.user evs))
      × (after.1 ≡ takes_all {E = CrateEvent I A} out.closes_after (map CrateEvent.user evs))
      × ((name : Bytes) → retain (is_named name) evs ≡ newest name es)
unfolding flush
flush_newest es out =
    let c = coalesce_all es [] in
    let ordered : IsOrdered c =
      coalesce_all-IsOrdered es [] (record { named = tt; single = λ a. omega arith }) in
    let sent = send_all-sent (map CrateEvent.user (drained c)) out in
    (
      drained c,
      refl,
      sent.0,
      sent.1,
      λ name.
          drained_named name c ordered
          ∙ ap held (coalesce_all-slot es [] [] (λ n. unfold lookup in refl) name)
          ∙ held-slot name es,
    )

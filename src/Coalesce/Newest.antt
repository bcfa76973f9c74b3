-- ===== src/Coalesce/Newest.antt =====
-- What a flush of the coalescer of user events (core/src/coalesce/user.rs) delivers: for each name
-- the events of its newest time.
use ruserf.Prelude.{
  ℕ, ◌<◌, ◌≡◌, refl, ap, max, Bool, false, ◌&&◌, Option, none, some, List, [], ◌∷◌, ◌++◌, ltb,
  nat_eq, list_eq, list_beq_iff, ◌==◌, lookup, lookup-insert, retain, any, ◌||◌, arith, inl, inr,
  Option-cases, if◌then◌else◌,
}
use ruserf.Types.{Bytes, UserEventMessage}
use ruserf.Coalesce.User.{LatestUserEvents, UserEventCoalescer, coalesce_user}

-- The newest time of an event of that name, or 0.
abbrev pub newest_time : Bytes → List UserEventMessage → ℕ
newest_time name [] = 0
newest_time name (e ∷ es) =
    let rest = newest_time name es in if e.name == name then max e.ltime rest else rest

abbrev pub is_named : Bytes → UserEventMessage → Bool
is_named name e = e.name == name

abbrev pub is_at : Bytes → ℕ → UserEventMessage → Bool
is_at name ltime e = e.name == name && e.ltime == ltime

-- The events of that name at its newest time.
abbrev pub newest : Bytes → List UserEventMessage → List UserEventMessage
newest name es = retain (is_at name (newest_time name es)) es

-- What the slot of a name holds after the events.
abbrev pub slot : Bytes → List UserEventMessage → Option LatestUserEvents
slot name es =
    if any (is_named name) es
    then some (record { ltime = newest_time name es; events = newest name es })
    else none

newest_time-push :
    (name : Bytes) (es : List UserEventMessage) (e : UserEventMessage)
    → newest_time name (es ++ e ∷ [])
      ≡ (if e.name == name then max e.ltime (newest_time name es) else newest_time name es)
newest_time-push name [] e = ground arith
newest_time-push name (x ∷ es) e = ground (arith, newest_time-push name es e)

pub retain-append {ℓ} :
    {T : Type ℓ} (p : T → Bool) (xs ys : List T) → retain p (xs ++ ys) ≡ retain p xs ++ retain p ys
retain-append p [] ys = refl
retain-append p (x ∷ xs) ys = ground (arith, retain-append p xs ys)

-- No event of the name is later than its newest time.
retain_later :
    (name : Bytes) (t : ℕ) (es : List UserEventMessage)
    → newest_time name es < t
    → retain (is_at name t) es ≡ []
retain_later name t [] h = refl
retain_later name t (e ∷ es) h = ground (arith, retain_later name t es)

-- What one event does to the slot of its name.
abbrev absorb : UserEventMessage → Option LatestUserEvents → Option LatestUserEvents
absorb e none = some (record { ltime = e.ltime; events = e ∷ [] })
absorb e (some latest) =
    if ltb latest.ltime e.ltime
    then some (record { ltime = e.ltime; events = e ∷ [] })
    else if latest.ltime == e.ltime
    then some (record latest { events = latest.events ++ e ∷ [] })
    else some latest

pub lookup-coalesce_user :
    (name : Bytes) (e : UserEventMessage) (c : UserEventCoalescer)
    → lookup name (coalesce_user e c)
      ≡ (if e.name == name then absorb e (lookup name c) else lookup name c)
unfolding coalesce_user
lookup-coalesce_user name e c = elim (Option-cases (lookup e.name c)) [
  | inl absent ↦
      rw (absent, coalesce_user)
        (ground (
          arith,
          absent,
          list_beq_iff e.name name,
          lookup-insert e.name name (record { ltime = e.ltime; events = e ∷ [] }) c,
        ))
  | inr (latest, found) ↦
      rw (found, coalesce_user)
        (ground (
          arith,
          found,
          list_beq_iff e.name name,
          lookup-insert e.name name (record { ltime = e.ltime; events = e ∷ [] }) c,
          lookup-insert e.name name (record latest { events = latest.events ++ e ∷ [] }) c,
        ))
]

any-append {ℓ} :
    {T : Type ℓ} (p : T → Bool) (xs ys : List T) → any p (xs ++ ys) ≡ (any p xs || any p ys)
any-append p [] ys = refl
any-append p (x ∷ xs) ys = ground (arith, any-append p xs ys)

pub no_names :
    (name : Bytes) (t : ℕ) (es : List UserEventMessage)
    → any (is_named name) es ≡ false
    → retain (is_at name t) es ≡ []
no_names name t [] h = refl
no_names name t (e ∷ es) h = ground (arith, no_names name t es)

no_time :
    (name : Bytes) (es : List UserEventMessage)
    → any (is_named name) es ≡ false
    → newest_time name es ≡ 0
no_time name [] h = refl
no_time name (e ∷ es) h = ground (arith, no_time name es)

-- The new events of a time are the old ones of that time, and the pushed one if it is of that time.
retain-push :
    (name : Bytes) (t : ℕ) (es : List UserEventMessage) (e : UserEventMessage)
    → retain (is_at name t) (es ++ e ∷ [])
      ≡ (if is_at name t e then retain (is_at name t) es ++ e ∷ [] else retain (is_at name t) es)
retain-push name t [] e = ground arith
retain-push name t (x ∷ es) e = ground (arith, retain-push name t es e)

pub slot-push :
    (name : Bytes) (es : List UserEventMessage) (e : UserEventMessage)
    → slot name (es ++ e ∷ []) ≡ (if e.name == name then absorb e (slot name es) else slot name es)
slot-push name es e =
    let t = newest_time name (es ++ e ∷ []) in
    let old = newest_time name es in
    let same : t ≡ old → retain (is_at name t) es ≡ retain (is_at name old) es =
      λ h. ap (λ x. retain (is_at name x) es) h in
    ground (
      arith,
      same,
      newest_time-push name es e,
      any-append (is_named name) es (e ∷ []),
      retain-push name t es e,
      retain_later name t es,
      no_names name t es,
      no_time name es,
    )

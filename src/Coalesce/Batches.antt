-- ===== src/Coalesce/Batches.antt =====
-- Batches of events that a `Coalescer` (core/src/coalesce.rs) gets between its flushes.
use ruserf.Prelude.{
  Bool, true, not, Option, none, some, List, [], ◌∷◌, ◌++◌, ◌≡◌, refl, sym, ap, ◌∙◌, All, retain,
  arith, inl, inr, Option-cases,
}
use mathlib.Core.List.{append-nil, append_assoc}
use ruserf.Coalesce.{OutTx, send, send_all, Coalescer}

module _ {E : Type 0} where
  abbrev pub nothing_sent : OutTx E
  nothing_sent = record { sent = []; closes_after = none }

  abbrev pub concat : List (List E) → List E
  concat [] = []
  concat (b ∷ bs) = b ++ concat bs

  abbrev pub sent_so_far : List E → OutTx E
  sent_so_far sent = record { sent = sent; closes_after = none }

  pub send_all_open :
      (es sent : List E) → send_all es (sent_so_far sent) ≡ (sent_so_far (sent ++ es), true)
  unfolding send_all send
  send_all_open [] sent = rw append-nil refl
  send_all_open (e ∷ es) sent =
      send_all_open es (sent ++ e ∷ [])
      ∙ ap (λ l. (sent_so_far l, true)) (append_assoc sent (e ∷ []) es)

  pub concat-push : (bs : List (List E)) (b : List E) → concat (bs ++ b ∷ []) ≡ concat bs ++ b
  concat-push [] b = append-nil b
  concat-push (x ∷ bs) b = ap (λ l. x ++ l) (concat-push bs b) ∙ sym (append_assoc x (concat bs) b)

  pub retain_none :
      (p : E → Bool) (es : List E) → All (λ e. p e ≡ true) es → retain (λ e. not (p e)) es ≡ []
  retain_none p [] h = refl
  retain_none p (e ∷ es) h = ground (arith, h.0, retain_none p es h.1)

module _ {C E : Type 0} (co : Coalescer C E) where
  -- The batches in turn, and what each flush sends, from the coalescer `c`; `none` after a panic.
  unfoldable pub coalesce_batch : List E → C → Option C
  coalesce_batch [] c = some c
  coalesce_batch (e ∷ es) c = elim (co.coalesce e c) [
    | none ↦ none
    | some next ↦ coalesce_batch es next
  ]

  -- One batch, and what the flush after it sends.
  unfoldable pub flush_batch : List E → C → Option (C × List E)
  unfolding coalesce_batch
  flush_batch es c = elim (coalesce_batch es c) [
    | none ↦ none
    | some full ↦ let (left, sent) = co.flush full nothing_sent in some (left, sent.0.sent)
  ]

  abbrev plus : List E → Option (C × List E) → Option (C × List E)
  plus evs none = none
  plus evs (some r) = some (r.0, evs ++ r.1)

  unfoldable pub flush_batches : List (List E) → C → Option (C × List E)
  unfolding flush_batch
  flush_batches [] c = some (c, [])
  flush_batches (b ∷ bs) c = elim (flush_batch b c) [
    | none ↦ none
    | some r ↦ plus r.1 (flush_batches bs r.0)
  ]

  pub coalesce_batch-push :
      (es : List E) (e : E) (c mid next : C)
      → coalesce_batch es c ≡ some mid
      → co.coalesce e mid ≡ some next
      → coalesce_batch (es ++ e ∷ []) c ≡ some next
  unfolding coalesce_batch
  coalesce_batch-push [] e c mid next h k = let at : c ≡ mid = cc in rw (at, k) refl
  coalesce_batch-push (x ∷ es) e c mid next h k = elim (Option-cases (co.coalesce x c)) [
    | inl stop ↦ cc (rw (stop, coalesce_batch) at h)
    | inr (y, found) ↦
        rw (found, coalesce_batch)
          (coalesce_batch-push es e y mid next (rw (found, coalesce_batch) at h) k)
  ]

  pub flush_batches-push :
      (bs : List (List E)) (b : List E) (c mid left : C) (sent evs : List E)
      → flush_batches bs c ≡ some (mid, sent)
      → flush_batch b mid ≡ some (left, evs)
      → flush_batches (bs ++ b ∷ []) c ≡ some (left, sent ++ evs)
  unfolding flush_batches
  flush_batches-push [] b c mid left sent evs h k =
      let at : c ≡ mid = cc in
      let none_sent : [] ≡ sent = cc in
      rw (at, k, flush_batches, ← none_sent) (ap (λ l. some (left, l)) (append-nil evs))
  flush_batches-push (x ∷ bs) b c mid left sent evs h k = elim (Option-cases (flush_batch x c)) [
    | inl stop ↦ cc (rw (stop, flush_batches) at h)
    | inr (r, found) ↦ elim (Option-cases (flush_batches bs r.0)) [
      | inl stop ↦ cc (rw (found, stop, flush_batches) at h)
      | inr (q, rest) ↦
          let parts : some (q.0, r.1 ++ q.1) ≡ some (mid, sent) =
            rw (found, rest, flush_batches) at h in
          let at : q.0 ≡ mid =
            ap (λ (o : Option (C × List E)). elim o [ none ↦ q.0 | some z ↦ z.0 ]) parts in
          let all : r.1 ++ q.1 ≡ sent =
            ap (λ (o : Option (C × List E)). elim o [ none ↦ [] | some z ↦ z.1 ]) parts in
          let more =
            flush_batches-push bs b r.0 mid left q.1 evs (rest ∙ ap (λ z. some (z, q.1)) at) k in
          rw (found, more, flush_batches, ← all)
            (ap (λ l. some (left, l)) (sym (append_assoc r.1 q.1 evs)))
    ]
  ]

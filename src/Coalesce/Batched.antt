-- ===== src/Coalesce/Batched.antt =====
-- States of `coalesce_loop` (core/src/coalesce.rs) whose events are cut into batches, and the changes
-- of state that keep this.
use ruserf.Prelude.{
  ℕ, Bool, true, false, not, Option, none, some, List, [], ◌∷◌, ◌++◌, ◌≡◌, refl, sym, ap, ◌∙◌, All,
  retain,
}
use mathlib.Core.List.{append-nil, append_assoc}
use ruserf.Coalesce.{OutTx, send_all, Coalescer}
use ruserf.Coalesce.Loop.{CoalesceLoop}
use ruserf.Coalesce.Delivered.{retain-All}
use ruserf.Coalesce.Newest.{retain-append}
use ruserf.Coalesce.Batches.{
  nothing_sent, sent_so_far, concat, coalesce_batch, flush_batch, flush_batches, send_all_open,
  concat-push, retain_none, coalesce_batch-push, flush_batches-push,
}

module _ {E : Type 0} (p : E → Bool) (xs : List E) (e : E) where
  retain-keep : p e ≡ true → retain p (xs ++ e ∷ []) ≡ retain p xs ++ e ∷ []
  retain-keep h = retain-append p xs (e ∷ []) ∙ rw h refl

  retain-skip : p e ≡ false → retain p (xs ++ e ∷ []) ≡ retain p xs
  retain-skip h = retain-append p xs (e ∷ []) ∙ rw h (append-nil (retain p xs))

module _ {C E : Type 0} (co : Coalescer C E) where
  -- The events that are not handled.
  abbrev pub unhandled : List E → List E
  unhandled = retain (λ e. not (co.handle e))

  -- The events so far are batches that were flushed and a rest that the coalescer holds, and what was
  -- sent is what the flushes of the batches send, and the events that are not handled.
  pub record Batched (c0 : C) (seen : List E) (s : CoalesceLoop C E) : Type 0 where
    pub batches : List (List E)
    pub rest : List E
    pub left : C
    pub flushed : List E
    pub cut : concat batches ++ rest ≡ retain co.handle seen
    pub all_flushed : flush_batches co batches c0 ≡ some (left, flushed)
    pub held : coalesce_batch co rest left ≡ some s.coalescer
    pub is_open : s.out_tx.closes_after ≡ none
    pub handled : retain co.handle s.out_tx.sent ≡ flushed
    pub passed : unhandled s.out_tx.sent ≡ unhandled seen
    pub is_held : co.Holds s.coalescer

  -- The two ways on from a state that is batched, by what changes.
  pub Batched-pass :
      (c0 : C) (seen : List E) (s next : CoalesceLoop C E) (e : E)
      → co.handle e ≡ false
      → next.coalescer ≡ s.coalescer
      → next.out_tx ≡ sent_so_far (s.out_tx.sent ++ e ∷ [])
      → Batched c0 seen s
      → Batched c0 (seen ++ e ∷ []) next
  Batched-pass c0 seen s next e other same out b =
      let sent : next.out_tx.sent ≡ s.out_tx.sent ++ e ∷ [] = ap (λ o. o.sent) out in
      let passes : not (co.handle e) ≡ true = rw other refl in
      let test : E → Bool = λ x. not (co.handle x) in
      record {
        batches = b.batches;
        rest = b.rest;
        left = b.left;
        flushed = b.flushed;
        cut = b.cut ∙ sym (retain-skip co.handle seen e other);
        all_flushed = b.all_flushed;
        held = b.held ∙ ap some (sym same);
        is_open = rw out refl;
        handled = rw sent (retain-skip co.handle s.out_tx.sent e other) ∙ b.handled;
        passed =
            rw sent (retain-keep test s.out_tx.sent e passes)
            ∙ ap (λ l. l ++ e ∷ []) b.passed
            ∙ sym (retain-keep test seen e passes);
        is_held = rw same b.is_held;
      }

  pub Batched-take :
      (c0 : C) (seen : List E) (s next : CoalesceLoop C E) (e : E)
      → co.handle e ≡ true
      → co.coalesce e s.coalescer ≡ some next.coalescer
      → co.Holds next.coalescer
      → next.out_tx ≡ s.out_tx
      → Batched c0 seen s
      → Batched c0 (seen ++ e ∷ []) next
  Batched-take c0 seen s next e own same h out b =
      let sent : next.out_tx.sent ≡ s.out_tx.sent = ap (λ o. o.sent) out in
      let stays : not (co.handle e) ≡ false = rw own refl in
      let test : E → Bool = λ x. not (co.handle x) in
      record {
        batches = b.batches;
        rest = b.rest ++ e ∷ [];
        left = b.left;
        flushed = b.flushed;
        cut =
            sym (append_assoc (concat b.batches) b.rest (e ∷ []))
            ∙ ap (λ l. l ++ e ∷ []) b.cut
            ∙ sym (retain-keep co.handle seen e own);
        all_flushed = b.all_flushed;
        held = coalesce_batch-push co b.rest e b.left s.coalescer next.coalescer b.held same;
        is_open = rw out b.is_open;
        handled = rw sent b.handled;
        passed = rw sent b.passed ∙ sym (retain-skip test seen e stays);
        is_held = h;
      }

  pub Batched-flush :
      (c0 : C) (seen : List E) (s next : CoalesceLoop C E) (evs : List E)
      → ((out : OutTx E) → co.flush s.coalescer out ≡ (next.coalescer, send_all evs out))
      → All (λ e. co.handle e ≡ true) evs
      → co.Holds next.coalescer
      → next.out_tx ≡ sent_so_far (s.out_tx.sent ++ evs)
      → Batched c0 seen s
      → Batched c0 seen next
  unfolding flush_batch coalesce_batch
  Batched-flush c0 seen s next evs flush own h out b =
      let sent : next.out_tx.sent ≡ s.out_tx.sent ++ evs = ap (λ o. o.sent) out in
      let test : E → Bool = λ x. not (co.handle x) in
      let this : flush_batch co b.rest b.left ≡ some (next.coalescer, evs) =
        rw (b.held, flush_batch)
          (ap (λ (r : C × (OutTx E × Bool)). some (r.0, r.1.0.sent))
            (flush nothing_sent ∙ ap (λ r. (next.coalescer, r)) (send_all_open evs []))) in
      record {
        batches = b.batches ++ b.rest ∷ [];
        rest = [];
        left = next.coalescer;
        flushed = b.flushed ++ evs;
        cut = append-nil (concat (b.batches ++ b.rest ∷ [])) ∙ concat-push b.batches b.rest ∙ b.cut;
        all_flushed =
            flush_batches-push co b.batches b.rest c0 b.left next.coalescer b.flushed evs
              b.all_flushed this;
        held = refl;
        is_open = rw out refl;
        handled =
            rw
              (
                sent,
                retain-append co.handle s.out_tx.sent evs,
                b.handled,
                retain-All co.handle evs own,
              )
              refl;
        passed =
            rw (sent, retain-append test s.out_tx.sent evs, retain_none co.handle evs own)
              (append-nil (retain test s.out_tx.sent) ∙ b.passed);
        is_held = h;
      }

  -- What a batched state says does not depend on the timers or on the shutdown.
  pub Batched-timers :
      (c0 : C) (seen : List E) (s : CoalesceLoop C E) (quantum quiescent : Option ℕ) (down : Bool)
      → Batched c0 seen s
      → Batched c0 seen (record s { quantum = quantum; quiescent = quiescent; shutdown = down })
  Batched-timers c0 seen s quantum quiescent down b = record {
    batches = b.batches;
    rest = b.rest;
    left = b.left;
    flushed = b.flushed;
    cut = b.cut;
    all_flushed = b.all_flushed;
    held = b.held;
    is_open = b.is_open;
    handled = b.handled;
    passed = b.passed;
    is_held = b.is_held;
  }

-- ===== src/Coalesce/Runs.antt =====
-- Runs of `coalesce_loop` (core/src/coalesce.rs): the loop cuts the events that it handles into
-- batches, one for each flush, and lets the others through.
use ruserf.Prelude.{
  ℕ, ◌+◌, true, false, none, some, List, [], ◌∷◌, ◌++◌, ◌≡◌, ◌⊎◌, refl, sym, ap, ◌∙◌, retain, inl,
  inr, Bool-cases,
}
use ruserf.Coalesce.{OutTx, send, send_all, Coalescer}
use ruserf.Coalesce.Loop.{
  Arm, Poll, CoalesceLoop, Turn, take_timer, has_elapsed, start_if_none, on_event, on_timer, select,
}
use ruserf.Coalesce.Batches.{
  nothing_sent, sent_so_far, concat, coalesce_batch, flush_batches, send_all_open,
}
use ruserf.Coalesce.Batched.{
  unhandled, Batched, Batched-pass, Batched-take, Batched-flush, Batched-timers,
}

module _ {C E : Type 0} (co : Coalescer C E) (coalesce_period quiescent_period : ℕ) where
  -- The loop as it is spawned, on an open channel.
  abbrev pub spawned : C → CoalesceLoop C E
  spawned c = record {
    quiescent = none;
    quantum = none;
    shutdown = false;
    coalescer = c;
    out_tx = nothing_sent;
  }

  -- A run of the loop, and the events that it received.
  pub data Run (start : CoalesceLoop C E) : List E → CoalesceLoop C E → Type 0 where
    begins : Run start [] start
    receives :
        {seen : List E} {s next : CoalesceLoop C E} (p : Poll) (e : E)
        → Run start seen s
        → select co coalesce_period quiescent_period p (Arm.received e) s ≡ Turn.running next
        → Run start (seen ++ e ∷ []) next
    elapses :
        {seen : List E} {s next : CoalesceLoop C E} (p : Poll) (arm : Arm E)
        → arm ≡ Arm.quantum ⊎ arm ≡ Arm.quiescent
        → Run start seen s
        → select co coalesce_period quiescent_period p arm s ≡ Turn.running next
        → Run start seen next
    signals :
        {seen : List E} {s next : CoalesceLoop C E} (p : Poll)
        → Run start seen s
        → select co coalesce_period quiescent_period p Arm.shutdown s ≡ Turn.running next
        → Run start seen next

  -- A state that is batched takes any event, and stays batched.
  received-Batched :
      (c0 : C) (seen : List E) (s : CoalesceLoop C E) (p : Poll) (e : E)
      → Batched co c0 seen s
      → (next : CoalesceLoop C E) × (select co coalesce_period quiescent_period p (Arm.received e) s
          ≡ Turn.running next)
        × Batched co c0 (seen ++ e ∷ []) next
  unfolding select on_event send
  received-Batched c0 seen s p e b = elim (Bool-cases (co.handle e)) [
    | inl own ↦
        let (c, same, h) = co.coalesce-Holds e s.coalescer own b.is_held in
        let next : CoalesceLoop C E = record s {
          quantum = start_if_none (p.now + coalesce_period) (take_timer p.quantum s.quantum);
          quiescent = some (p.now + quiescent_period);
          coalescer = c;
        } in
        (
          next,
          rw (own, same, select, on_event) refl,
          Batched-take co c0 seen s next e own same h refl b,
        )
    | inr other ↦
        let next : CoalesceLoop C E = record s {
          quantum = take_timer p.quantum s.quantum;
          quiescent = take_timer p.quiescent s.quiescent;
          out_tx = sent_so_far (s.out_tx.sent ++ e ∷ []);
        } in
        (
          next,
          rw (other, b.is_open, select, on_event, send)
              (ap
                (λ r.
                  Turn.running (record next { out_tx = record next.out_tx { closes_after = r } }))
                b.is_open),
          Batched-pass co c0 seen s next e other refl refl b,
        )
  ]

  -- The state of a loop that goes on, or else the one given.
  abbrev state_or : CoalesceLoop C E → Turn C E → CoalesceLoop C E
  state_or s (Turn.running next) = next
  state_or s _ = s

  -- After the arm of a timer the loop is batched if it goes on, which it does before a shutdown.
  timer-Batched :
      (c0 : C) (seen : List E) (s next : CoalesceLoop C E)
      → Batched co c0 seen s
      → on_timer co s ≡ Turn.running next
      → Batched co c0 seen next
  unfolding on_timer
  timer-Batched c0 seen s next b h =
      let (evs, left, flush, own, holds) = co.flush-Holds s.coalescer b.is_held in
      let out : OutTx E = sent_so_far (s.out_tx.sent ++ evs) in
      let opened : s.out_tx ≡ sent_so_far s.out_tx.sent =
        ap (λ r. record { sent = s.out_tx.sent; closes_after = r }) b.is_open in
      let sends : co.flush s.coalescer s.out_tx ≡ (left, (out, true)) =
        flush s.out_tx
        ∙ ap (λ o. (left, send_all evs o)) opened
        ∙ ap (λ r. (left, r)) (send_all_open evs s.out_tx.sent) in
      elim (Bool-cases s.shutdown) [
        | inl down ↦ cc (rw (sends, down, on_timer) at h)
        | inr up ↦
            let flushed : CoalesceLoop C E = record {
              coalescer = left;
              out_tx = out;
              quiescent = none;
              quantum = none;
              shutdown = false;
            } in
            let on : Turn.running flushed ≡ Turn.running next = rw (sends, up, on_timer) at h in
            let same : flushed ≡ next = ap (state_or s) on in
            rw (← same) (Batched-flush co c0 seen s flushed evs flush own holds refl b)
      ]

  turned :
      (c0 : C) (seen : List E) (s next : CoalesceLoop C E) (p : Poll) (arm : Arm E)
      → arm ≡ Arm.quantum ⊎ arm ≡ Arm.quiescent
      → Batched co c0 seen s
      → select co coalesce_period quiescent_period p arm s ≡ Turn.running next
      → Batched co c0 seen next
  unfolding select
  turned c0 seen s next p arm which b h =
      let polled : CoalesceLoop C E = record s {
        quantum = take_timer p.quantum s.quantum;
        quiescent = take_timer p.quiescent s.quiescent;
      } in
      let same : Batched co c0 seen polled =
        Batched-timers co c0 seen s polled.quantum polled.quiescent s.shutdown b in
      elim which [
        | inl at ↦ elim (Bool-cases (has_elapsed p.now s.quantum)) [
          | inl ready ↦ timer-Batched c0 seen polled next same (rw (at, ready, select) at h)
          | inr waits ↦ cc (rw (at, waits, select) at h)
        ]
        | inr at ↦ elim (Bool-cases (has_elapsed p.now s.quiescent)) [
          | inl ready ↦ timer-Batched c0 seen polled next same (rw (at, ready, select) at h)
          | inr waits ↦ cc (rw (at, waits, select) at h)
        ]
      ]

  Run-Batched :
      (c0 : C) (seen : List E) (s : CoalesceLoop C E)
      → co.Holds c0
      → Run (spawned c0) seen s
      → Batched co c0 seen s
  unfolding select flush_batches coalesce_batch
  Run-Batched c0 [] s h Run.begins = record {
    batches = [];
    rest = [];
    left = c0;
    flushed = [];
    cut = refl;
    all_flushed = refl;
    held = refl;
    is_open = refl;
    handled = refl;
    passed = refl;
    is_held = h;
  }
  Run-Batched c0 seen s h (Run.receives p e run on) =
      let (next, same, b) = received-Batched c0 _ _ p e (Run-Batched c0 _ _ h run) in
      let at : next ≡ s = ap (state_or s) (sym same ∙ on) in rw (← at) b
  Run-Batched c0 seen s h (Run.elapses p arm which run on) =
      turned c0 seen _ s p arm which (Run-Batched c0 _ _ h run) on
  Run-Batched c0 seen s h (Run.signals {s = before} p run on) =
      let signalled : CoalesceLoop C E = record before {
        quantum = take_timer p.quantum before.quantum;
        quiescent = take_timer p.quiescent before.quiescent;
        shutdown = true;
      } in
      let at : signalled ≡ s = ap (state_or s) on in
      rw (← at) (
        Batched-timers co c0 seen before signalled.quantum signalled.quiescent true
          (Run-Batched c0 _ _ h run))

  -- While the channel stays open, the loop cuts the events that the coalescer handles, in the order
  -- in which they arrive, into batches, whatever the timers do: what it has sent of them is what
  -- the flushes of the batches send in turn, and the coalescer holds the rest. It sends every other
  -- event in the order in which it arrived. It takes each event that comes, without a panic.
  pub loop_batches :
      (c0 : C) (seen : List E) (s : CoalesceLoop C E)
      → co.Holds c0
      → Run (spawned c0) seen s
      → ((batches : List (List E)) × (rest : List E) × (left : C) × (flushed : List E) × (concat
                batches
              ++ rest
            ≡ retain co.handle seen)
          × (flush_batches co batches c0 ≡ some (left, flushed))
          × (coalesce_batch co rest left ≡ some s.coalescer)
          × (retain co.handle s.out_tx.sent ≡ flushed)
          × (unhandled co s.out_tx.sent ≡ unhandled co seen))
        × ((p : Poll) (e : E)
            → (next : CoalesceLoop C E) × (select co coalesce_period quiescent_period p
                  (Arm.received e)
                  s
                ≡ Turn.running next))
  loop_batches c0 seen s h run =
      let b = Run-Batched c0 seen s h run in
      (
        (b.batches, b.rest, b.left, b.flushed, b.cut, b.all_flushed, b.held, b.handled, b.passed),
        λ p e. let (next, same, more) = received-Batched c0 seen s p e b in (next, same),
      )

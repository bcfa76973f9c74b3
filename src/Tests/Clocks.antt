-- ===== src/Tests/Clocks.antt =====
-- The clock's theorems at concrete inputs.
use ruserf.Prelude.{◌<◌, ◌≤◌, ◌≡◌, true, List, [], ◌∷◌, arith}
use ruserf.Clock.{increment}
use ruserf.Clock.Order as Order
use ruserf.Clock.Concurrent as Concurrent

abbrev heard : List Order.Tick
heard = Order.receive 7 ∷ Order.stamp ∷ Order.receive 2 ∷ []

stamp-lt-stamp_example :
    (3 < Order.run (increment 3).0 heard)
    × ((increment 3).1 < (increment (Order.run (increment 3).0 heard)).1)
stamp-lt-stamp_example =
    Order.stamp-lt-stamp 3 10 heard (omega arith) (omega arith)
      (omega arith, (tt, (omega arith, tt)))

abbrev schedule : List Concurrent.Action
schedule =
    Concurrent.load
    ∷ Concurrent.others_increment
    ∷ Concurrent.attempt true
    ∷ Concurrent.load
    ∷ Concurrent.attempt true
    ∷ []

witness_interleaved_example :
    (3 ≤ (Concurrent.run 5 schedule (record { value = 3; pc = Concurrent.start })).value)
    × ((Concurrent.run 5 schedule (record { value = 3; pc = Concurrent.start })).pc
          ≡ Concurrent.done
        → 5 < (Concurrent.run 5 schedule (record { value = 3; pc = Concurrent.start })).value)
witness_interleaved_example =
    Concurrent.witness_interleaved 5 10 3 schedule (omega arith) (omega arith) (omega arith)
      (tt, (tt, (tt, (tt, (tt, tt)))))

witness_returns_example :
    (Concurrent.run 5
      (Concurrent.attempt true ∷ Concurrent.load ∷ Concurrent.attempt true ∷ [])
      (record { value = 3; pc = Concurrent.loaded 2 })).pc
    ≡ Concurrent.done
witness_returns_example =
    Concurrent.witness_returns 5 (record { value = 3; pc = Concurrent.loaded 2 })

-- ===== src/Timers/Tests.antt =====
-- The theorems on kernel/src/timer.rs at concrete timers.
use nexo_os.Prelude.{◌≡◌, List, [], ◌∷◌, ◌++◌, map, arith}
use mathlib.Core.List.{Perm}
use nexo_os.Timers.{Pending, Fired, Timers, fire, renew, next_deadline_after, on_tick}
use nexo_os.Timers.Order.{Op, after, periodic, cancels, ticks, Sorted, run, run-Sorted}
use nexo_os.Timers.Ticks.{due, later, on_tick_lem, Next, next_deadline_after_lem}

abbrev idle : Timers
idle = record { pending = []; fired = []; next_id = 1 }

abbrev calls : List Op
calls = periodic 0 50 7 1 ∷ after 0 20 8 2 ∷ ticks 30 ∷ cancels 2 ∷ []

run-Sorted_example : Sorted (run idle calls).pending
run-Sorted_example = run-Sorted idle calls tt

-- One timer that is due at 20 and a periodic one that is due at 50.
abbrev two : Timers
two = record {
  pending =
      record { id = 2; deadline_ns = 20; period_ns = 0; callback = 8; arg = 2 }
      ∷ record { id = 1; deadline_ns = 50; period_ns = 50; callback = 7; arg = 1 }
      ∷ [];
  fired = [];
  next_id = 3;
}

two-Sorted : Sorted two.pending
two-Sorted = omega arith

on_tick_lem_example :
    ((on_tick two 60).fired ≡ two.fired ++ map fire (due 60 two.pending))
    × Perm
        (on_tick two 60).pending
        (later 60 two.pending ++ map renew (nexo_os.Timers.Ticks.periodic (due 60 two.pending)))
    × ((on_tick two 60).next_id ≡ two.next_id)
on_tick_lem_example = on_tick_lem two 60 two-Sorted

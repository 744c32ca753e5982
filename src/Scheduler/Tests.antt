-- ===== src/Scheduler/Tests.antt =====
-- The theorems on the event queue at concrete inputs.
use gba_eval.Base.{◌<◌, ◌≤◌, ◌≡◌, ◌↔◌, arith, some, none, List, [], ◌∷◌}
use gba_eval.Scheduler.{Scheduled, Scheduler, h_blank, h_draw, advance, pop_due, cycles_until_next}
use gba_eval.Scheduler.Due.{IsIn, IsNext, IsTaken, pop_due-earliest, advance-cycles_until_next}

abbrev blank : Scheduled
blank = record { at_time = 960; event = h_blank }

abbrev draw : Scheduled
draw = record { at_time = 900; event = h_draw }

abbrev two_events : Scheduler
two_events = record { now = 1000; queue = blank ∷ draw ∷ [] }

pop_due-earliest_example :
    (e : Scheduled) × (rest : List Scheduled) × IsNext e two_events.queue
    × (e.at_time ≤ two_events.now)
    × IsTaken e two_events.queue rest
    × (pop_due two_events ≡ (record two_events { queue = rest }, some e.event))
pop_due-earliest_example = pop_due-earliest blank two_events IsIn.here (omega arith)

abbrev waiting : Scheduler
waiting = record { now = 100; queue = blank ∷ draw ∷ [] }

advance-cycles_until_next_example :
    ((pop_due (advance 799 waiting)).1 ≡ none) ↔ (799 < cycles_until_next waiting)
advance-cycles_until_next_example =
    advance-cycles_until_next 799 waiting (omega arith) (omega arith)

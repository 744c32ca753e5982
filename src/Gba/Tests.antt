-- ===== src/Gba/Tests.antt =====
-- The machine after a few cycles.
use gba_eval.Base.{◌+◌, ◌≡◌, arith, some}
use gba_eval.Gba.{Gba, gba_new, clock_sequencer, ◌>>=◌}
use gba_eval.Gba.Sequencer.{clock_sequencer-add}

-- A sequencer in its last step that is about to wrap.
abbrev late : Gba
late = record gba_new { sequencer_counter = 32760; sequencer_step = 7 }

clock_sequencer-add_example :
    (after : Gba) × (clock_sequencer (5 + 70000) late ≡ some after)
    × ((clock_sequencer 5 late >>= clock_sequencer 70000) ≡ some after)
clock_sequencer-add_example = clock_sequencer-add 5 70000 late (omega arith) (omega arith)

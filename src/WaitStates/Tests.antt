-- ===== src/WaitStates/Tests.antt =====
-- The theorems on the access times at concrete inputs.
use gba_eval.Base.{◌≡◌, arith, field, low_bits, test_bit, ◌&&◌, ◌!=◌}
use gba_eval.WaitStates.{wait_states_new, regenerate_lut, get, region_time}
use gba_eval.WaitStates.Table.{get_lem}

get_lem_example :
    get 0x0802_0000 3 (regenerate_lut wait_states_new)
    ≡ region_time
        (field 24 8 0x0802_0000)
        (test_bit 0 3 && (low_bits 17 0x0802_0000 != 0))
        (test_bit 1 3)
        wait_states_new
get_lem_example = get_lem 0x0802_0000 3 wait_states_new (omega arith)

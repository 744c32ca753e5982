-- ===== src/Gpio/Commands.antt =====
-- The command byte of the clock chip.
use gba_eval.Base.{ℕ, ◌/◌, ◌%◌, ◌<◌, ◌≡◌, false, arith, test_bit, bit_or-fields}
use gba_eval.Gpio.{Rtc, write_data, process_command, reverse_bits, to_bcd}

-- Every two-digit number has its decimal digits in the two halves of its code.
to_bcd_lem : (val : ℕ) → val < 100 → (to_bcd val / 16 ≡ val / 10) × (to_bcd val % 16 ≡ val % 10)
unfolding to_bcd
to_bcd_lem val h =
    let sum = bit_or-fields 4 (val / 10) (val % 10) (omega arith) in
    (omega (arith, sum), omega (arith, sum))

-- A command byte as the chip's documentation has it starts with the four bits 0, 1, 1, 0 and ends
-- with the read bit. The code takes the first bit for the read bit, so that every such command is a
-- write, whatever its last bit.
pub process_command-writes :
    (r : Rtc)
    → r.cmd % 16 ≡ 6
    → process_command r ≡ record r { state = write_data; data_bits = 0; data_byte = 0 }
unfolding process_command
process_command-writes r h =
    let first : test_bit 7 (reverse_bits r.cmd) ≡ false = ground arith in rw first

-- ===== src/Gpio/Tests.antt =====
-- The theorems on the clock chip at concrete inputs.
use gba_eval.Base.{◌≡◌, refl, arith, true, false}
use gba_eval.Gpio.{Rtc, rtc_new, process_command, write_data}
use gba_eval.Gpio.Commands.{process_command-writes}
use gba_eval.Gpio.Pulses.{pulses, selected_chip, pulses-process_command}

-- The command that reads the date and the time: 0, 1, 1, 0, then 2, then the read bit.
abbrev read_date : Rtc
read_date = record rtc_new { cmd = 0b1010_0110 }

process_command-writes_example :
    process_command read_date
    ≡ record read_date { state = write_data; data_bits = 0; data_byte = 0 }
process_command-writes_example = process_command-writes read_date refl

pulses-process_command_example :
    pulses 8 0b1010_0110 (selected_chip rtc_new)
    ≡ record (process_command
        (record (selected_chip rtc_new) { cmd = 0b1010_0110; cmd_bits = 8; last_sck = false })) {
          last_sck = true;
        }
pulses-process_command_example = pulses-process_command 0b1010_0110 rtc_new (omega arith)

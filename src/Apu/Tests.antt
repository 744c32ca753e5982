-- ===== src/Apu/Tests.antt =====
-- The theorems on the sound unit at concrete inputs.
use gba_eval.Base.{
  suc, ◌+◌, ◌-◌, ◌*◌, ◌/◌, ◌^◌, ◌≤◌, ◌≡◌, ◌≢◌, refl, arith, none, some, length, pos,
}
use gba_eval.Apu.Fifo.{Fifo, fifo_write, fifo_read, signed8}
use gba_eval.Apu.Fifo.Queue.{IsFifo, contents, push, pop, fifo-refines}
use gba_eval.Apu.Square.{square_new, square_step, square_output, write_nr11_12, write_nr13_14}
use gba_eval.Apu.Square.Inv
use gba_eval.Apu.Square.Inv.{IsSquare, square_step-terminates}
use gba_eval.Apu.Unit.{Apu, apu_new, tick_until}
use gba_eval.Apu.Unit.Clock.{IsApu, tick_until-samples, tick_until-diverges}

-- A ring with one sample, about to wrap.
abbrev ring : Fifo
ring = record { samples = λ i. pos i; read_pos = 31; write_pos = 0; len = 1 }

ring-IsFifo : IsFifo ring
ring-IsFifo = record { read_in = omega arith; len_in = omega arith; write_at = refl }

fifo-refines_example :
    (contents (fifo_write 1 0xff ring) ≡ push (signed8 0xff) (push (signed8 1) (contents ring)))
    × ((contents (fifo_read ring).0, (fifo_read ring).1) ≡ pop (contents ring))
    × IsFifo (fifo_write 1 0xff ring)
    × IsFifo (fifo_read ring).0
fifo-refines_example = fifo-refines 1 0xff ring ring-IsFifo

square_step-terminates_example :
    let c = write_nr13_14 0x87ff (write_nr11_12 0xf080 square_new) in
    (square_step 512 c ≢ none) × (square_output c ≤ 15)
square_step-terminates_example = square_step-terminates 512 (
    Inv.Reach.next (Inv.Reach.next Inv.Reach.power_on (Inv.Step.sets_envelope 0xf080))
      (Inv.Step.sets_frequency 0x87ff))

abbrev playing : Apu
playing = record apu_new { soundcnt_x = 0x80; sample_clock = 1000 }

square_new-IsSquare : IsSquare square_new
square_new-IsSquare = record {
  frequency_in = omega arith;
  shadow_in = omega arith;
  duty_in = omega arith;
  pos_in = omega arith;
  initial_in = omega arith;
  volume_in = omega arith;
  length_in = omega arith;
  runs = λ e. cc;
}

playing-IsApu : IsApu playing
playing-IsApu = record {
  ch1 = square_new-IsSquare;
  ch2 = square_new-IsSquare;
  ch3 = record { frequency_in = omega arith; pos_in = omega arith; runs = λ e. cc };
  ch4 = record {
    divisor_in = omega arith;
    shift_in = omega arith;
    initial_in = omega arith;
    volume_in = omega arith;
    length_in = omega arith;
    runs = λ e. cc;
  };
}

tick_until-samples_example :
    let n = 3000 / 512 - playing.sample_clock / 512 in
    (b : Apu) × (tick_until (suc n) 3000 playing ≡ some b)
    × (b.sample_clock ≡ 3000)
    × (length b.buffer ≡ length playing.buffer + 2 * n)
tick_until-samples_example =
    tick_until-samples 3000 playing playing-IsApu refl (omega arith) (omega arith)

abbrev late : Apu
late = record playing { sample_clock = 2 ^ 32 - 300 }

tick_until-diverges_example : tick_until 1000 (2 ^ 32 - 200) late ≡ none
tick_until-diverges_example =
    tick_until-diverges 1000 (2 ^ 32 - 200) late refl (omega arith) (omega arith) (omega arith)

-- ===== src/Bus/Tests.antt =====
-- The bus on small states.
use gba_eval.Base.{
  ℕ, false, ◌*◌, ◌+◌, ◌<◌, ◌/◌, ◌%◌, ◌^◌, ◌==◌, ◌≡◌, refl, true, arith, if◌then◌else◌, none, some,
}
use gba_eval.Dma.{channel_default, channel_enabled, timing, src_adj}
use gba_eval.Io.{io_new}
use gba_eval.Timer.{TimerOverflow, no_overflow}
use gba_eval.Bus.{Bus, bus_new}
use gba_eval.Bus.Reads.{bus_read32, bus_read16, bus_read8, fetch32, fetch16}
use gba_eval.Bus.Reads.Protection.{IsBlind, reads-IsBlind}
use gba_eval.Bus.Writes.{write8_inner}
use gba_eval.Bus.Writes.Bytes.{write8_inner-loses_requests}
use gba_eval.Bus.Transfers.{run_immediate_dma, transfer_write32}
use gba_eval.Bus.Transfers.Hang.{run_immediate_dma-hangs}
use gba_eval.Bus.Access.{bus_write32}
use gba_eval.Ppu.{word_at}
use gba_eval.Bus.Access.Copy.{AreBytes}
use gba_eval.Bus.Access.Channel.{run_immediate_dma-copies}
use gba_eval.Bus.Access.Memory.{same_word, bus_read32-write32_iwram}
use gba_eval.Bus.Access.Nested.{bus_write32-transfer}
use gba_eval.Apu.Square.{square_new}
use gba_eval.Apu.Square.Inv.{IsSquare}
use gba_eval.Bus.Transfers.Sound.{IsSound}
use gba_eval.Bus.Tick.{next_overflow, merge_overflows, overflow_at}
use gba_eval.Bus.Tick.Merge.{merge_overflows-ends}

-- Reads of the BIOS by a program in the cartridge.
abbrev another : ℕ → ℕ
another i = i % 2 ^ 8

abbrev replaced : Bus
replaced = record bus_new { bios = another }

reads-IsBlind_example :
    IsBlind another (bus_read32 0x100 0x0800_0008 bus_new) (bus_read32 0x100 0x0800_0008 replaced)
    × IsBlind another (bus_read16 0x100 0x0800_0008 bus_new) (bus_read16 0x100 0x0800_0008 replaced)
    × IsBlind another (bus_read8 0x100 0x0800_0008 bus_new) (bus_read8 0x100 0x0800_0008 replaced)
    × IsBlind another (fetch32 0x0800_0008 bus_new) (fetch32 0x0800_0008 replaced)
    × IsBlind another (fetch16 0x0800_0008 bus_new) (fetch16 0x0800_0008 replaced)
reads-IsBlind_example = reads-IsBlind another bus_new 0x100 0x0800_0008 (omega arith)

-- A word at an address that is not aligned, read in a mirror of the same word.
bus_read32-write32_iwram_example :
    (after : Bus) × (bus_write32 1 0x0300_7ffe 0xdead_beef bus_new ≡ some after)
    × ((bus_read32 0x03ff_fffd 0 after).0 ≡ (
        if same_word 15 0x0300_7ffe 0x03ff_fffd
        then 0xdead_beef
        else (bus_read32 0x03ff_fffd 0 bus_new).0))
bus_read32-write32_iwram_example =
    bus_read32-write32_iwram 1 0x0300_7ffe 0x03ff_fffd 0 0xdead_beef bus_new refl refl (omega arith)

-- The requests of a DMA channel and the vertical blank, of which the program acknowledges the one.
abbrev requested : Bus
requested = record bus_new { io = record io_new { if_ = 0x0101 } }

write8_inner-loses_requests_example : (write8_inner 0x0400_0202 1 requested).0.io.if_ / 2 ^ 8 ≡ 0
write8_inner-loses_requests_example =
    write8_inner-loses_requests 1 requested (omega arith) (omega arith)

-- Channel 0 as a program sets it: on, at once, repeating, to a fixed address.
abbrev repeating : Bus
repeating = record bus_new {
  dma = λ i.
      if i == 0
      then record channel_default {
        control = 0x8240;
        internal_src = 0x0300_0000;
        internal_dst = 0x0200_0000;
        internal_count = 4;
      }
      else channel_default;
}

run_immediate_dma-hangs_example : run_immediate_dma 1000 repeating ≡ none
unfolding timing
run_immediate_dma-hangs_example = run_immediate_dma-hangs 1000 repeating (record {
  on = refl;
  at_once = refl;
  repeats = refl;
  fixed = refl;
  external = refl;
  off₁ = refl;
  off₂ = refl;
  off₃ = refl;
})

-- A transfer that writes the control register of channel 0 to start it.
abbrev running : Bus
running = record bus_new { dma_running = true }

bus_write32-transfer_example :
    bus_write32 0 0x0400_00b8 0x8000_0001 running
    ≡ some (transfer_write32 0x0400_00b8 0x8000_0001 running)
bus_write32-transfer_example = bus_write32-transfer 0 0x0400_00b8 0x8000_0001 running refl

-- Three overflows of timer 0 and two of timer 1.
abbrev three : TimerOverflow
three = record no_overflow { count = 3; first_cycle = 5 }

abbrev two : TimerOverflow
two = record no_overflow { count = 2; first_cycle = 7 }

-- The sound unit is on, as a program sets it.
abbrev sounding : Bus
sounding = record bus_new { apu = record bus_new.apu { soundcnt_x = 0x80 } }

square_new-IsSquare : IsSquare square_new
square_new-IsSquare = record {
  frequency_in = omega arith;
  shadow_in = omega arith;
  duty_in = omega arith;
  pos_in = omega arith;
  initial_in = omega arith;
  volume_in = omega arith;
  length_in = omega arith;
  runs = λ e. cc;
}

sounding-IsSound : IsSound sounding
sounding-IsSound = record {
  apu = record {
    ch1 = square_new-IsSquare;
    ch2 = square_new-IsSquare;
    ch3 = record { frequency_in = omega arith; pos_in = omega arith; runs = λ e. cc };
    ch4 = record {
      divisor_in = omega arith;
      shift_in = omega arith;
      initial_in = omega arith;
      volume_in = omega arith;
      length_in = omega arith;
      runs = λ e. cc;
    };
  };
}

merge_overflows-ends_example :
    (after : Bus) × (merge_overflows 6
        (next_overflow three two 10 20)
        (overflow_at 4 1000 48)
        0
        0
        sounding
      ≡ some after)
    × IsSound after
merge_overflows-ends_example =
    merge_overflows-ends 6 three two 10 20 0 0 4 1000 48 sounding sounding-IsSound
      (record { in_range = omega arith; fuel_in = omega arith }) (omega arith)

-- Channel 0 as a program sets it to copy 16 words to the last bytes of the internal memory.
abbrev copying : Bus
copying = record bus_new {
  ewram = λ i. i % 2 ^ 8;
  dma = λ i.
      if i == 0
      then record channel_default {
        control = 0x8400;
        internal_src = 0x0200_0000 + 0x100;
        internal_dst = 0x0300_0000 + 0x7fc0;
        internal_count = 16;
      }
      else channel_default;
}

copying-AreBytes : AreBytes copying.ewram
unfolding AreBytes
copying-AreBytes i = omega arith

run_immediate_dma-copies_example :
    (after : Bus) × (run_immediate_dma 2 copying ≡ some after)
    × (channel_enabled (after.dma 0) ≡ false)
    × ((k : ℕ)
        → k < 16
        → word_at after.iwram (0x7fc0 + k * 4) ≡ word_at copying.ewram (0x100 + k * 4))
unfolding timing src_adj
run_immediate_dma-copies_example =
    run_immediate_dma-copies 2 0x100 0x7fc0 copying
      (record {
        on = refl;
        at_once = refl;
        once = refl;
        silent = refl;
        wide = refl;
        src_up = refl;
        dst_up = refl;
        src = refl;
        dst = refl;
        off₁ = refl;
        off₂ = refl;
        off₃ = refl;
      })
      refl refl (omega arith) (omega arith) copying-AreBytes (omega arith)

-- ===== src/Gba.antt =====
-- The machine: candidates/gba-core/src/gba.rs. Fuel is given to the bus; the stub of the BIOS, a
-- binary file that is embedded, is an argument.
pub mod Sequencer
mod Tests
use gba_eval.Base.{
  ℕ, zero, suc, ◌+◌, ◌-◌, ◌*◌, ◌/◌, ◌%◌, ◌^◌, ◌==◌, ◌&&◌, ◌||◌, not, Bool, true, false,
  if◌then◌else◌, Option, some, none, List, ltb, min, max, u8, u16, u32, test_bit, set_bit, bit_and,
  not16, update, ◌!=◌,
}
use gba_eval.Apu.Unit.{Apu, frame_sequencer_step}
use gba_eval.Cpu.{Cpu, cpu_new}
use gba_eval.Cpu.Pipeline.{flush_pipeline}
use gba_eval.Cpu.Step.{step}
use gba_eval.DmaMemory.{half_at, put_half}
use gba_eval.Ppu.{word_at}
use gba_eval.Scheduler.{cycles_until_next}
use gba_eval.Bus.{Bus, bus_new, load_bios, load_rom}
use gba_eval.Bus.Access.{bus_ops}
use gba_eval.Bus.Tick.{bus_tick}

abbrev max_cycles_per_frame : ℕ
max_cycles_per_frame = 280896 * 4

pub record Gba : Type 0 where
  pub cpu : Cpu
  pub bus : Bus
  pub sequencer_counter : ℕ
  pub sequencer_step : ℕ

abbrev pub gba_new : Gba
gba_new = record { cpu = cpu_new; bus = bus_new; sequencer_counter = 0; sequencer_step = 0 }

infixl 5 ◌>>=◌
abbrev pub ◌>>=◌ {ℓ} : {A : Type ℓ} → Option A → (A → Option Gba) → Option Gba
none >>= f = none
some a >>= f = f a

pub gba_load_rom : List ℕ → Gba → Gba
gba_load_rom image g = record g { bus = load_rom image g.bus }

-- The processor fills its pipeline from the bus.
refilled : Cpu → Bus → Gba → Option Gba
refilled cpu bus g =
    let (cpu', bus') = flush_pipeline (bus_ops 0) cpu (some bus) in
    bus' >>= λ b. some (record g { cpu = cpu'; bus = b })

-- The processor starts in the BIOS, in supervisor mode with both interrupts off.
pub gba_load_bios : List ℕ → Gba → Option Gba
unfolding refilled
gba_load_bios image g =
    let cpu = record g.cpu { r = update g.cpu.r 15 0; cpsr = 0b11010011 } in
    refilled cpu (load_bios image g.bus) g

pub skip_bios : List ℕ → Gba → Option Gba
unfolding refilled
skip_bios stub g = refilled cpu_new (load_bios stub g.bus) g

-- The interrupt of the vertical blank is turned on for a game that waits for it and has a handler
-- in memory.
pub check_late_irq_init : Gba → Gba
check_late_irq_init g =
    let bus = g.bus in
    if test_bit 3 bus.ppu.dispstat
    then g
    else if not (test_bit 0 bus.io.ie)
    then g
    else if not bus.io.ime
    then g
    else if ltb (word_at bus.iwram 0x7ffc) 0x0200_0000
    then g
    else record g {
      bus = record bus { ppu = record bus.ppu { dispstat = set_bit 3 bus.ppu.dispstat } };
    }

-- A write of HALTCNT takes effect after its instruction.
enter_halt : Gba → Gba
enter_halt g =
    if g.bus.io.haltcnt
    then record g {
      cpu = record g.cpu { halted = true };
      bus = record g.bus { io = record g.bus.io { haltcnt = false } };
    }
    else g

-- The cycles that pass in a halted processor, with no limit but the next event.
abbrev pub idle_cycles : Gba → ℕ
idle_cycles g = max (cycles_until_next g.bus.sched) 1

-- The given number of cycles in a halted processor, or else one instruction; with the cycles.
pub advance_one : ℕ → ℕ → Gba → Option (ℕ × Gba)
unfolding enter_halt
advance_one fuel idle g =
    if g.cpu.halted
    then elim (bus_tick fuel idle g.bus) [
      | none ↦ none
      | some bus ↦ some (idle, record g { bus = bus })
    ]
    else let bus₀ = record g.bus { pending_extra_cycles = 0 } in
      let (base, cpu, stepped) = step (bus_ops fuel) g.cpu (some bus₀) in
      elim stepped [
        | none ↦ none
        | some bus₁ ↦
            let cycles = u32 (base + bus₁.pending_extra_cycles) in
            elim (bus_tick fuel cycles bus₁) [
              | none ↦ none
              | some bus ↦ some (cycles, enter_halt (record g { cpu = cpu; bus = bus }))
            ]
      ]

-- The frame sequencer of the sound unit acts every 32768 cycles: the rounds left, the counter and
-- the step.
pub sequencer_loop : ℕ → ℕ → ℕ → Apu → Option (ℕ × ℕ × Apu)
sequencer_loop zero counter step apu = none
sequencer_loop (suc n) counter step apu = elim (ltb counter 32768) [
  | true ↦ some (counter, step, apu)
  | false ↦ sequencer_loop n (counter - 32768) ((step + 1) % 8) (frame_sequencer_step step apu)
]

pub clock_sequencer : ℕ → Gba → Option Gba
clock_sequencer cycles g =
    let counter = u32 (g.sequencer_counter + cycles) in
    sequencer_loop (counter / 32768 + 1) counter g.sequencer_step g.bus.apu
    >>= λ (counter', step', apu'). some (record g {
      bus = record g.bus { apu = apu' };
      sequencer_counter = counter';
      sequencer_step = step';
    })

-- The flags that a wait of the BIOS has been asked for are cleared in its word at 0x03007ff8.
matched : Gba → Gba
matched g =
    let cleared = bit_and (half_at g.bus.iwram 0x7ff8) (not16 g.cpu.intr_wait_flags) in
    record g {
      cpu = record g.cpu { halted = false; intr_wait_flags = 0 };
      bus = record g.bus { iwram = put_half g.bus.iwram 0x7ff8 cleared };
    }

pub wake : Gba → Gba
unfolding matched
wake g =
    let pending = bit_and g.bus.io.ie g.bus.io.if_ in
    if not g.cpu.halted || pending == 0
    then g
    else if g.cpu.intr_wait_flags == 0
    then record g { cpu = record g.cpu { halted = false } }
    else if bit_and pending g.cpu.intr_wait_flags == 0
    then g
    else matched g

-- The rounds left, the fuel of the bus and the time at the start.
pub frame_loop : ℕ → ℕ → ℕ → Gba → Option Gba
frame_loop zero fuel start g = none
frame_loop (suc n) fuel start g = elim (ltb max_cycles_per_frame (g.bus.sched.now - start)) [
  | true ↦ some g
  | false ↦ advance_one fuel (idle_cycles g) g >>= λ (cycles, g'). elim g'.bus.ppu.frame_ready [
    | true ↦ some g'
    | false ↦ clock_sequencer cycles g' >>= λ g''. frame_loop n fuel start (wake g'')
  ]
]

pub run_frame : ℕ → ℕ → Gba → Option Gba
run_frame rounds fuel g₀ =
    let g = check_late_irq_init g₀ in
    let bus = record g.bus { ppu = record g.bus.ppu { frame_ready = false } } in
    frame_loop rounds fuel bus.sched.now (record g { bus = bus })

pub cycle_loop : ℕ → ℕ → ℕ → ℕ → Gba → Option Gba
cycle_loop zero fuel target start g = none
cycle_loop (suc n) fuel target start g = elim (ltb (g.bus.sched.now - start) target) [
  | false ↦ some g
  | true ↦
      let until_target = u32 (target - (g.bus.sched.now - start)) in
      advance_one fuel (min (idle_cycles g) (max until_target 1)) g >>= λ (cycles, g').
      clock_sequencer cycles g' >>= λ g''. cycle_loop n fuel target start (wake g'')
]

pub run_cycles : ℕ → ℕ → ℕ → Gba → Option Gba
run_cycles rounds fuel target g₀ =
    let g = check_late_irq_init g₀ in cycle_loop rounds fuel target g.bus.sched.now g

pub set_keyinput : ℕ → Gba → Gba
set_keyinput keys g = record g { bus = record g.bus { io = record g.bus.io { keyinput = keys } } }

-- One instruction or one idle stretch, where a wait of the BIOS is not looked at; with the cycles.
pub step_one : ℕ → Gba → Option (ℕ × Gba)
step_one fuel g₀ =
    let g = check_late_irq_init g₀ in
    elim (advance_one fuel (idle_cycles g) g) [
      | none ↦ none
      | some (cycles, g') ↦ elim (clock_sequencer cycles g') [
        | none ↦ none
        | some after ↦
            let pending = bit_and after.bus.io.ie after.bus.io.if_ in
            some (
              cycles,
              if after.cpu.halted && pending != 0 && (after.cpu.intr_wait_flags == 0)
                  then record after { cpu = record after.cpu { halted = false } }
                  else after,
            )
      ]
    ]

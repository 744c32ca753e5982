-- ===== src/Cpu/Tests.antt =====
-- The theorems on the processor at concrete inputs.
mod Instructions
use gba_eval.Base.{
  ◌+◌, ◌*◌, ◌/◌, ◌%◌, ◌^◌, ◌≡◌, ◌≢◌, ◌↔◌, refl, arith, true, false, leb, iterate, of_bool, sub32,
  signed32, pos, ◌+ℤ◌, ◌-ℤ◌,
}
use gba_eval.Cpu.{
  fiq, irq, supervisor, system, Cpu, cpu_new, switch_mode, bank, set_cpsr_bits, cpsr_bits,
  mode_code,
}
use gba_eval.Cpu.Alu.{lsl, asr, imm_amount, ror, add_flags, sub_flags, alu_sub_setflags}
use gba_eval.Cpu.Alu.Shifts.{lsl_one, lsl_iterated}
use gba_eval.Cpu.Alu.SignedShifts.{asr_one, asr_iterated}
use gba_eval.Cpu.Alu.Rotates.{ror_one, ror_iterated}
use gba_eval.Cpu.Alu.Sums.{add_flags_lem, sub_flags_lem}
use gba_eval.Cpu.Alu.Compare.{Decides, compare-Decides}
use gba_eval.Cpu.Banks.{switch_mode-switch_mode, handler_keeps_stack}
use gba_eval.Cpu.Status.{IsStatus, set_cpsr_bits-flags, set_cpsr_bits-control, cpsr_bits-stale}

add_flags_lem_example :
    let (r, carry, overflow) = add_flags 0x7fff_ffff 1 0 in
    (r + of_bool carry * 2 ^ 32 ≡ 0x7fff_ffff + 1 + 0)
    × ((overflow ≡ false) ↔ (signed32 r ≡ signed32 0x7fff_ffff +ℤ signed32 1 +ℤ pos 0))
add_flags_lem_example = add_flags_lem 0x7fff_ffff 1 0 (omega arith) (omega arith) (omega arith)

compare-Decides_example : Decides 3 0xffff_ffff (alu_sub_setflags 3 0xffff_ffff cpu_new).1
compare-Decides_example = compare-Decides 3 0xffff_ffff cpu_new (omega arith) (omega arith)

irq_bank : bank irq ≢ bank cpu_new.mode
unfolding bank cpu_new
irq_bank e = absurd (omega (arith, e))

abbrev settled : Cpu
settled = record cpu_new { cpsr = 0x2000_0000 }

settled-IsStatus : IsStatus settled
settled-IsStatus = record { word = omega arith; no_mode = refl }

supervisor_code : 0x9000_0013 % 32 ≡ mode_code supervisor
unfolding mode_code
supervisor_code = refl

cpsr_bits-stale_example : cpsr_bits (switch_mode irq cpu_new) % 32 ≡ mode_code system
cpsr_bits-stale_example = cpsr_bits-stale irq

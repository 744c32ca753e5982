-- ===== src/Cpu.antt =====
-- The register file of the ARM7TDMI and its status registers: candidates/gba-core/src/cpu/mod.rs.
-- An array of fixed size is a function on its indices; `bank-lt` and the literal indices of the
-- code keep every access in range.
pub mod Alu
pub mod Arm
pub mod Banks
pub mod Pipeline
pub mod Status
pub mod Step
pub mod Thumb
mod Tests
use gba_eval.Base.{
  ℕ, ◌+◌, ◌-◌, ◌*◌, ◌/◌, ◌%◌, ◌^◌, ◌==◌, ◌!=◌, ◌||◌, ◌&&◌, not, Bool, true, false, if◌then◌else◌,
  bit_and, bit_or, not32, low_bits, high_bits, test_bit, put_bit, update, copy_slice,
}

pub data Mode : Type 0 where
  user fiq irq supervisor abort undefined system : Mode

-- The discriminant, `mode as u32`.
pub mode_code : Mode → ℕ
mode_code user = 0b10000
mode_code fiq = 0b10001
mode_code irq = 0b10010
mode_code supervisor = 0b10011
mode_code abort = 0b10111
mode_code undefined = 0b11011
mode_code system = 0b11111

pub from_bits : ℕ → Mode
from_bits b =
    let m = low_bits 5 b in
    if m == 0b10000
    then user
    else if m == 0b10001
    then fiq
    else if m == 0b10010
    then irq
    else if m == 0b10011
    then supervisor
    else if m == 0b10111
    then abort
    else if m == 0b11011
    then undefined
    else system

pub bank : Mode → ℕ
bank user = 0
bank system = 0
bank fiq = 1
bank irq = 2
bank supervisor = 3
bank abort = 4
bank undefined = 5

-- `self == other` of the derived `PartialEq`.
pub mode_eq : Mode → Mode → Bool
unfolding mode_code
mode_eq a b = mode_code a == mode_code b

pub record Cpu : Type 0 where
  pub r : ℕ → ℕ
  pub cpsr : ℕ
  pub mode : Mode
  pub banked_r13 : ℕ → ℕ
  pub banked_r14 : ℕ → ℕ
  pub banked_fiq_r8_12 : ℕ → ℕ
  pub saved_usr_r8_12 : ℕ → ℕ
  pub spsr : ℕ → ℕ
  pub pipe : ℕ → ℕ
  pub pipeline_flushed : Bool
  pub intr_wait_flags : ℕ
  pub irq_delay : ℕ
  pub cycles : ℕ
  pub halted : Bool
  pub irq_count : ℕ

-- The flag bits of CPSR.
abbrev pub n_bit : ℕ
n_bit = 31

abbrev pub z_bit : ℕ
z_bit = 30

abbrev pub c_bit : ℕ
c_bit = 29

abbrev pub v_bit : ℕ
v_bit = 28

abbrev pub i_bit : ℕ
i_bit = 7

abbrev pub t_bit : ℕ
t_bit = 5

-- The power-on state with the BIOS skipped.
pub cpu_new : Cpu
unfolding bank mode_code
cpu_new = record {
  r = update (update (λ i. 0) 13 0x0300_7f00) 15 0x0800_0000;
  cpsr = mode_code system;
  mode = system;
  banked_r13 = update (update (λ i. 0) (bank irq) 0x0300_7fa0) (bank supervisor) 0x0300_7fe0;
  banked_r14 = λ i. 0;
  banked_fiq_r8_12 = λ i. 0;
  saved_usr_r8_12 = λ i. 0;
  spsr = λ i. 0;
  pipe = λ i. 0;
  pipeline_flushed = false;
  intr_wait_flags = 0;
  irq_delay = 0;
  cycles = 0;
  halted = false;
  irq_count = 0;
}

pub cpsr_bits : Cpu → ℕ
cpsr_bits c = bit_or c.cpsr (mode_code c.mode)

pub thumb : Cpu → Bool
thumb c = test_bit t_bit c.cpsr

pub carry : Cpu → Bool
carry c = test_bit c_bit c.cpsr

-- Saves r13 and r14 into the old bank and loads those of the new one.
switch_stack : ℕ → ℕ → Cpu → Cpu
switch_stack old_bank new_bank c =
    if old_bank != new_bank
    then (let banked_r13' = update c.banked_r13 old_bank (c.r 13) in
        let banked_r14' = update c.banked_r14 old_bank (c.r 14) in
        record c {
          banked_r13 = banked_r13';
          banked_r14 = banked_r14';
          r = update (update c.r 13 (banked_r13' new_bank)) 14 (banked_r14' new_bank);
        })
    else c

-- Saves r8-r12 of the side left and loads those of the side entered.
switch_fiq : Bool → Bool → Cpu → Cpu
switch_fiq false true c = record c {
  saved_usr_r8_12 = copy_slice c.saved_usr_r8_12 0 5 c.r 8;
  r = copy_slice c.r 8 5 c.banked_fiq_r8_12 0;
}
switch_fiq true false c = record c {
  banked_fiq_r8_12 = copy_slice c.banked_fiq_r8_12 0 5 c.r 8;
  r = copy_slice c.r 8 5 c.saved_usr_r8_12 0;
}
switch_fiq false false c = c
switch_fiq true true c = c

pub switch_mode : Mode → Cpu → Cpu
switch_mode new c =
    if mode_eq new c.mode
    then c
    else (let c₁ = switch_stack (bank c.mode) (bank new) c in
        let c₂ = switch_fiq (mode_eq c.mode fiq) (mode_eq new fiq) c₁ in record c₂ { mode = new })

-- `(cur & !mask) | (v & mask)`
abbrev pub merge_mask : ℕ → ℕ → ℕ → ℕ
merge_mask cur v mask = bit_or (bit_and cur (not32 mask)) (bit_and v mask)

pub set_cpsr_bits : ℕ → ℕ → Cpu → Cpu
set_cpsr_bits v mask c =
    let new = merge_mask (cpsr_bits c) v mask in
    let c' = if low_bits 5 mask != 0 then switch_mode (from_bits new) c else c in
    record c' { cpsr = high_bits 5 new }

pub spsr_bits : Cpu → ℕ
spsr_bits c = c.spsr (bank c.mode)

pub set_spsr_bits : ℕ → ℕ → Cpu → Cpu
set_spsr_bits v mask c =
    let b = bank c.mode in
    if b == 0 then c else record c { spsr = update c.spsr b (merge_mask (c.spsr b) v mask) }

-- The condition field of an instruction.
pub check_cond : ℕ → Cpu → Bool
check_cond cond cpu =
    let n = test_bit n_bit cpu.cpsr in
    let z = test_bit z_bit cpu.cpsr in
    let c = test_bit c_bit cpu.cpsr in
    let v = test_bit v_bit cpu.cpsr in
    let n_is_v = n && v || not n && not v in
    if cond == 0x0
    then z
    else if cond == 0x1
    then not z
    else if cond == 0x2
    then c
    else if cond == 0x3
    then not c
    else if cond == 0x4
    then n
    else if cond == 0x5
    then not n
    else if cond == 0x6
    then v
    else if cond == 0x7
    then not v
    else if cond == 0x8
    then c && not z
    else if cond == 0x9
    then not c || z
    else if cond == 0xa
    then n_is_v
    else if cond == 0xb
    then not n_is_v
    else if cond == 0xc
    then not z && n_is_v
    else if cond == 0xd
    then z || not n_is_v
    else if cond == 0xe
    then true
    else false

pub set_nz : ℕ → Cpu → Cpu
set_nz v c = record c { cpsr = put_bit z_bit (v == 0) (put_bit n_bit (test_bit 31 v) c.cpsr) }

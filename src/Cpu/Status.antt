-- ===== src/Cpu/Status.antt =====
-- Writes of the status register, and the mode that it reads back.
use gba_eval.Base.{
  ℕ, ◌+◌, ◌-◌, ◌*◌, ◌/◌, ◌%◌, ◌^◌, ◌<◌, ◌≤◌, ◌≡◌, refl, Bool, true, false, arith, ap, ap₂, ◌∙◌,
  bit_or, bit_or-fields, bit_or_comm, bit_and-mask, bit_and-mul_pow, Bool-cases, inl, inr, sym,
}
use gba_eval.Cpu.{
  Mode, user, fiq, irq, supervisor, abort, undefined, system, Cpu, bank, mode_code, from_bits,
  mode_eq, switch_mode, switch_stack, switch_fiq, set_cpsr_bits, cpsr_bits, merge_mask, cpu_new,
}

-- The stored word keeps the flags and controls, and leaves the mode field to `mode`.
pub record IsStatus (c : Cpu) : Type 0 where
  pub word : c.cpsr < 2 ^ 32
  pub no_mode : c.cpsr % 32 ≡ 0

mode_code-lt : (m : Mode) → (16 ≤ mode_code m) × (mode_code m < 32)
unfolding mode_code
mode_code-lt user = omega arith
mode_code-lt fiq = omega arith
mode_code-lt irq = omega arith
mode_code-lt supervisor = omega arith
mode_code-lt abort = omega arith
mode_code-lt undefined = omega arith
mode_code-lt system = omega arith

-- The mode field decodes the codes of the seven modes.
from_bits-mode_code : (m : Mode) (q : ℕ) → from_bits (q * 32 + mode_code m) ≡ m
unfolding from_bits mode_code
from_bits-mode_code user q = ground arith
from_bits-mode_code fiq q = ground arith
from_bits-mode_code irq q = ground arith
from_bits-mode_code supervisor q = ground arith
from_bits-mode_code abort q = ground arith
from_bits-mode_code undefined q = ground arith
from_bits-mode_code system q = ground arith

cpsr_bits-sum : {c : Cpu} → IsStatus c → cpsr_bits c ≡ c.cpsr + mode_code c.mode
unfolding cpsr_bits
cpsr_bits-sum {c} s =
    let parts : c.cpsr ≡ c.cpsr / 32 * 2 ^ 5 = omega arith in
    ap (λ (t : ℕ). bit_or t (mode_code c.mode)) parts
    ∙ bit_or-fields 5 (c.cpsr / 32) (mode_code c.mode) (omega (arith, mode_code-lt c.mode))
    ∙ omega arith

-- A saved status word gives the mode and the status register back.
pub saved_status :
    {c : Cpu}
    → IsStatus c
    → (from_bits (cpsr_bits c) ≡ c.mode) × (cpsr_bits c / 2 ^ 5 * 2 ^ 5 ≡ c.cpsr)
saved_status {c} s = (
  ap from_bits (omega (arith, cpsr_bits-sum s)) ∙ from_bits-mode_code c.mode (c.cpsr / 32),
  omega (arith, cpsr_bits-sum s, mode_code-lt c.mode),
)

-- The masks of the control and the flag field.
merge_control : (x v : ℕ) → x < 2 ^ 32 → merge_mask x v 0xff ≡ x / 2 ^ 8 * 2 ^ 8 + v % 2 ^ 8
merge_control x v h =
    ap₂ bit_or
      (bit_and-mul_pow 8 x (2 ^ 24 - 1) ∙ ap (λ (t : ℕ). t * 2 ^ 8) (bit_and-mask 24 (x / 2 ^ 8)))
      (bit_and-mask 8 v)
    ∙ bit_or-fields 8 (x / 2 ^ 8 % 2 ^ 24) (v % 2 ^ 8) (omega arith)
    ∙ omega arith

merge_flags : (x v : ℕ) → v < 2 ^ 32 → merge_mask x v 0xff00_0000 ≡ v / 2 ^ 24 * 2 ^ 24 + x % 2 ^ 24
merge_flags x v h =
    ap₂ bit_or (bit_and-mask 24 x)
      (bit_and-mul_pow 24 v (2 ^ 8 - 1) ∙ ap (λ (t : ℕ). t * 2 ^ 24) (bit_and-mask 8 (v / 2 ^ 24)))
    ∙ bit_or_comm (x % 2 ^ 24) (v / 2 ^ 24 % 2 ^ 8 * 2 ^ 24)
    ∙ bit_or-fields 24 (v / 2 ^ 24 % 2 ^ 8) (x % 2 ^ 24) (omega arith)
    ∙ omega arith

-- A change of mode in parts: what each exchange does to the mode and the status word.
stack_status :
    (ob nb : ℕ) (c : Cpu)
    → ((switch_stack ob nb c).cpsr ≡ c.cpsr) × ((switch_stack ob nb c).mode ≡ c.mode)
unfolding switch_stack
stack_status ob nb c = ground arith

fiq_status : (was is : Bool) (c : Cpu) → (switch_fiq was is c).cpsr ≡ c.cpsr
unfolding switch_fiq
fiq_status false false c = refl
fiq_status false true c = refl
fiq_status true false c = refl
fiq_status true true c = refl

mode_eq_lem : (a b : Mode) → mode_eq a b ≡ true → a ≡ b
unfolding mode_eq mode_code
mode_eq_lem a b h = ground arith

pub mode_switch : (m : Mode) (c : Cpu) → (switch_mode m c).mode ≡ m
unfolding switch_mode
mode_switch m c = elim (Bool-cases (mode_eq m c.mode)) [
  | inl same ↦ rw same (sym (mode_eq_lem m c.mode same))
  | inr other ↦ rw other
]

pub cpsr-switch : (m : Mode) (c : Cpu) → (switch_mode m c).cpsr ≡ c.cpsr
unfolding switch_mode
cpsr-switch m c = elim (Bool-cases (mode_eq m c.mode)) [
  | inl same ↦ rw same
  | inr other ↦ rw other (
      fiq_status (mode_eq c.mode fiq) (mode_eq m fiq) (switch_stack (bank c.mode) (bank m) c)
      ∙ (stack_status (bank c.mode) (bank m) c).0)
]

-- `MSR CPSR_f`: writing the flag field replaces the top eight bits and keeps the mode, the
-- controls and the invariant of the status word.
pub set_cpsr_bits-flags :
    {c : Cpu} (v : ℕ)
    → IsStatus c
    → v < 2 ^ 32
    → let c' = set_cpsr_bits v 0xff00_0000 c in
      (cpsr_bits c' ≡ v / 2 ^ 24 * 2 ^ 24 + cpsr_bits c % 2 ^ 24) × (c'.mode ≡ c.mode) × IsStatus c'
unfolding set_cpsr_bits
set_cpsr_bits-flags {c} v s h = (
  omega (
    arith,
    merge_flags (cpsr_bits c) v h,
    cpsr_bits-sum s,
    cpsr_bits-sum status,
    mode_code-lt c.mode,
  ),
  refl,
  status,
)
  where
    status : IsStatus (set_cpsr_bits v 0xff00_0000 c)
    status = record { word = omega (arith, merge_flags (cpsr_bits c) v h); no_mode = omega arith }

-- `MSR CPSR_c`: writing the code of a mode with its controls enters that mode, replaces the low
-- eight bits and keeps the others and the invariant.
pub set_cpsr_bits-control :
    {c : Cpu} (m : Mode) (v : ℕ)
    → IsStatus c
    → v % 32 ≡ mode_code m
    → let c' = set_cpsr_bits v 0xff c in
      (cpsr_bits c' ≡ cpsr_bits c / 2 ^ 8 * 2 ^ 8 + v % 2 ^ 8) × (c'.mode ≡ m) × IsStatus c'
unfolding set_cpsr_bits
set_cpsr_bits-control {c} m v s h =
    (cpsr_bits-sum status ∙ omega (arith, merged, h, ap mode_code entered), entered, status)
  where
    x-lt : cpsr_bits c < 2 ^ 32
    x-lt = omega (arith, cpsr_bits-sum s, mode_code-lt c.mode)

    merged : merge_mask (cpsr_bits c) v 0xff ≡ cpsr_bits c / 2 ^ 8 * 2 ^ 8 + v % 2 ^ 8
    merged = merge_control (cpsr_bits c) v x-lt

    low_field :
        merge_mask (cpsr_bits c) v 0xff ≡ merge_mask (cpsr_bits c) v 0xff / 32 * 32 + mode_code m
    low_field = omega (arith, merged, h)

    entered : (set_cpsr_bits v 0xff c).mode ≡ m
    entered =
        mode_switch (from_bits (merge_mask (cpsr_bits c) v 0xff)) c
        ∙ ap from_bits low_field
        ∙ from_bits-mode_code m (merge_mask (cpsr_bits c) v 0xff / 32)

    status : IsStatus (set_cpsr_bits v 0xff c)
    status = record { word = omega (arith, merged, x-lt); no_mode = omega arith }

-- From the power-on state the mode field that the status register reads back stays that of
-- System mode, whichever mode is entered.
pub cpsr_bits-stale : (m : Mode) → cpsr_bits (switch_mode m cpu_new) % 32 ≡ mode_code system
unfolding cpsr_bits cpu_new mode_code
cpsr_bits-stale m =
    ap₂ (λ w k. bit_or w (mode_code k) % 32) (cpsr-switch m cpu_new) (mode_switch m cpu_new)
    ∙ all_modes m
  where
    all_modes : (k : Mode) → bit_or cpu_new.cpsr (mode_code k) % 32 ≡ mode_code system
    all_modes user = refl
    all_modes fiq = refl
    all_modes irq = refl
    all_modes supervisor = refl
    all_modes abort = refl
    all_modes undefined = refl
    all_modes system = refl

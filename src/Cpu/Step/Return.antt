-- ===== src/Cpu/Step/Return.antt =====
-- Entry into an exception and the return from it.
use gba_eval.Base.{ℕ, ◌≡◌, ◌≢◌, refl, Bool, true, false, arith, ◌∙◌, update, Bool-cases, inl, inr}
use gba_eval.Cpu.{
  Mode, Cpu, bank, fiq, mode_eq, switch_mode, switch_stack, switch_fiq, cpsr_bits, spsr_bits,
}
use gba_eval.Cpu.Banks.{handler_keeps_stack}
use gba_eval.Cpu.Status.{IsStatus, saved_status, mode_switch}
use gba_eval.Cpu.Arm.DataProcessing.{restore_status}

-- A change of mode reads and moves the registers and their banks alone.
module _ (c : Cpu) (r' : ℕ → ℕ) (w : ℕ) (spsr' pipe' : ℕ → ℕ) (flag : Bool) (delay count : ℕ) where
  abbrev disturbed : Cpu
  disturbed = record c {
    r = r';
    cpsr = w;
    spsr = spsr';
    pipe = pipe';
    pipeline_flushed = flag;
    irq_delay = delay;
    irq_count = count;
  }

  fiq_r :
      (was is : Bool) (ob nb i : ℕ)
      → (switch_fiq was is (switch_stack ob nb disturbed)).r i
        ≡ (switch_fiq was is (switch_stack ob nb (record c { r = r' }))).r i
  unfolding switch_fiq switch_stack
  fiq_r false false ob nb i = ground arith
  fiq_r false true ob nb i = ground arith
  fiq_r true false ob nb i = ground arith
  fiq_r true true ob nb i = ground arith

  pub r-switch :
      (m : Mode) (i : ℕ) → (switch_mode m disturbed).r i ≡ (switch_mode m (record c { r = r' })).r i
  unfolding switch_mode
  r-switch m i = elim (Bool-cases (mode_eq m c.mode)) [
    | inl same ↦ rw same refl
    | inr other ↦ rw other (fiq_r (mode_eq c.mode fiq) (mode_eq m fiq) (bank c.mode) (bank m) i)
  ]

fiq_pc :
    (was is : Bool) (ob nb : ℕ) (c : Cpu) → (switch_fiq was is (switch_stack ob nb c)).r 15 ≡ c.r 15
unfolding switch_fiq switch_stack
fiq_pc false false ob nb c = ground arith
fiq_pc false true ob nb c = ground arith
fiq_pc true false ob nb c = ground arith
fiq_pc true true ob nb c = ground arith

pub pc-switch : (m : Mode) (c : Cpu) → (switch_mode m c).r 15 ≡ c.r 15
unfolding switch_mode
pc-switch m c = elim (Bool-cases (mode_eq m c.mode)) [
  | inl same ↦ rw same refl
  | inr other ↦ rw other (fiq_pc (mode_eq c.mode fiq) (mode_eq m fiq) (bank c.mode) (bank m) c)
]

-- The state that a handler leaves: any registers and flags, in the mode of the exception and with
-- the status that the entry saved.
module _ (m : Mode) (c : Cpu) (r' : ℕ → ℕ) (w : ℕ) (pipe' : ℕ → ℕ) (flag : Bool) (delay n : ℕ) where
  abbrev pub handled : Cpu
  handled =
      disturbed (switch_mode m c) r' w (update (switch_mode m c).spsr (bank m) (cpsr_bits c)) pipe'
        flag delay n

  saved : spsr_bits handled ≡ cpsr_bits c
  unfolding spsr_bits
  saved = rw (mode_switch m c) (ground arith)

  restored :
      IsStatus c → restore_status handled ≡ record (switch_mode c.mode handled) { cpsr = c.cpsr }
  unfolding restore_status
  restored s = rw (saved, (saved_status s).0, (saved_status s).1) refl

  -- The return gives the mode, the status and the stack of the program back, and goes on at the
  -- address that the handler has put into PC.
  pub restore_status-handled :
      IsStatus c
      → bank m ≢ bank c.mode
      → let c' = restore_status handled in
        (c'.mode ≡ c.mode)
        × (c'.cpsr ≡ c.cpsr)
        × (c'.r 13 ≡ c.r 13)
        × (c'.r 14 ≡ c.r 14)
        × (c'.r 15 ≡ r' 15)
  restore_status-handled s ne = rw (restored s) (
    mode_switch c.mode handled,
    refl,
    r-switch (switch_mode m c) r' w spsr' pipe' flag delay n c.mode 13
        ∙ (handler_keeps_stack c m r' ne).0,
    r-switch (switch_mode m c) r' w spsr' pipe' flag delay n c.mode 14
        ∙ (handler_keeps_stack c m r' ne).1,
    pc-switch c.mode handled,
  )
    where
      spsr' : ℕ → ℕ
      spsr' = update (switch_mode m c).spsr (bank m) (cpsr_bits c)

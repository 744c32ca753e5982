-- ===== src/Cpu/Banks.antt =====
-- Banked registers across changes of mode.
use gba_eval.Base.{
  ℕ, ◌<◌, ◌≡◌, refl, Bool, true, false, arith, ap, ==_refl, Bool-cases, inl, inr, ◌≢◌,
}
use gba_eval.Cpu.{
  Mode, user, fiq, irq, supervisor, abort, undefined, system, Cpu, bank, mode_code, mode_eq,
  switch_mode, switch_stack, switch_fiq,
}

bank-lt : (m : Mode) → bank m < 6
unfolding bank
bank-lt user = omega arith
bank-lt fiq = omega arith
bank-lt irq = omega arith
bank-lt supervisor = omega arith
bank-lt abort = omega arith
bank-lt undefined = omega arith
bank-lt system = omega arith

mode_eq_lem : (a b : Mode) → mode_eq a b ≡ true → a ≡ b
unfolding mode_eq
mode_eq_lem a b h = ground arith

-- The two exchanges there and back, around any change of the mode field.
module _ (ob nb : ℕ) (m : Mode) (c : Cpu) (i : ℕ) where
  abbrev there_and_back : Bool → Bool → Cpu
  there_and_back was is =
      switch_fiq is was
        (switch_stack nb ob (record (switch_fiq was is (switch_stack ob nb c)) { mode = m }))

  round_trip : (was is : Bool) → (there_and_back was is).r i ≡ c.r i
  unfolding switch_stack switch_fiq
  round_trip false false = ground arith
  round_trip false true = ground arith
  round_trip true false = ground arith
  round_trip true true = ground arith

-- The same, with other registers in between.
module _ (ob nb : ℕ) (m : Mode) (c : Cpu) (r' : ℕ → ℕ) (ne : nb ≢ ob) where
  abbrev handled : Bool → Bool → Cpu
  handled was is =
      switch_fiq is was (
        switch_stack nb ob (record (switch_fiq was is (switch_stack ob nb c)) { mode = m; r = r' }))

  stack_kept : (was is : Bool) → ((handled was is).r 13 ≡ c.r 13) × ((handled was is).r 14 ≡ c.r 14)
  unfolding switch_stack switch_fiq
  stack_kept false false = ground arith
  stack_kept false true = ground arith
  stack_kept true false = ground arith
  stack_kept true true = ground arith

mode_eq_refl : (a : Mode) → mode_eq a a ≡ true
unfolding mode_eq
mode_eq_refl a = ==_refl (mode_code a)

mode_eq_comm : (a b : Mode) → mode_eq a b ≡ mode_eq b a
unfolding mode_eq
mode_eq_comm a b = ground arith

-- Leaving a mode for any other and coming back gives every visible register and the mode back.
pub switch_mode-switch_mode :
    (c : Cpu) (m : Mode) (i : ℕ)
    → let back = switch_mode c.mode (switch_mode m c) in (back.r i ≡ c.r i) × (back.mode ≡ c.mode)
unfolding switch_mode
switch_mode-switch_mode c m i = elim (Bool-cases (mode_eq m c.mode)) [
  | inl same ↦ rw (same, mode_eq_refl c.mode) (refl, refl)
  | inr other ↦
      rw (other, mode_eq_comm c.mode m, other)
        (round_trip (bank c.mode) (bank m) m c i (mode_eq c.mode fiq) (mode_eq m fiq), refl)
]

-- A handler that runs in a mode with another bank, and leaves any values in the registers,
-- disturbs neither the stack pointer nor the link register of the mode that it returns to.
pub handler_keeps_stack :
    (c : Cpu) (m : Mode) (r' : ℕ → ℕ)
    → bank m ≢ bank c.mode
    → let back = switch_mode c.mode (record (switch_mode m c) { r = r' }) in
      (back.r 13 ≡ c.r 13) × (back.r 14 ≡ c.r 14)
unfolding switch_mode
handler_keeps_stack c m r' h = elim (Bool-cases (mode_eq m c.mode)) [
  | inl same ↦ absurd (h (ap bank (mode_eq_lem m c.mode same)))
  | inr other ↦
      rw (other, mode_eq_comm c.mode m, other)
        (stack_kept (bank c.mode) (bank m) m c r' h (mode_eq c.mode fiq) (mode_eq m fiq))
]

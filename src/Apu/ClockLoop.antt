-- ===== src/Apu/ClockLoop.antt =====
-- The loop that the PSG channels step by: candidates/gba-core/src/apu.rs, the `while` of
-- `SquareChannel::step`, `WaveChannel::step` and `NoiseChannel::step`.
use native.Mathlib.Nat.{div-eq_of_lt, mod-eq_of_lt, div-eq-sub-div, mod-eq-sub-mod, mod-lt}
use gba_eval.Base.{
  ℕ, zero, suc, ◌-◌, ◌/◌, ◌%◌, ◌<◌, ◌≤◌, ◌≡◌, refl, ltb, leb, true, false, if◌then◌else◌, arith, ap,
  sym, Bool-cases, inl, inr, Option, some, none, iterate,
}

-- While the timer fits into the cycles left, it is taken off, reloaded with `period`, and the
-- phase advances; `none` when the fuel runs out.
pub clock_loop {ℓ} : {P : Type ℓ} → ℕ → ℕ → (P → P) → ℕ → ℕ → P → Option (ℕ × P)
clock_loop zero period advance cycles timer phase = none
clock_loop (suc fuel) period advance cycles timer phase =
    let rest = clock_loop fuel period advance (cycles - timer) period (advance phase) in
    if leb timer cycles then rest else some (timer - cycles, phase)

-- The same without a loop: how often the timer ran out, and what it then shows.
pub runs_out : ℕ → ℕ → ℕ → ℕ
runs_out period cycles timer = if ltb cycles timer then 0 else suc ((cycles - timer) / period)

pub left_over : ℕ → ℕ → ℕ → ℕ
left_over period cycles timer =
    if ltb cycles timer then timer - cycles else period - (cycles - timer) % period

pub left_over-pos :
    (period cycles timer : ℕ) → 1 ≤ period → 1 ≤ timer → 1 ≤ left_over period cycles timer
unfolding left_over
left_over-pos period cycles timer h k = ground (arith, mod-lt (cycles - timer) h)

-- A timer that has just been reloaded.
reloaded :
    (period e : ℕ)
    → 1 ≤ period
    → (runs_out period e period ≡ e / period) × (left_over period e period ≡ period - e % period)
unfolding runs_out left_over
reloaded period e h = elim (Bool-cases (ltb e period)) [
  | inl before ↦
      let small : e < period = ground arith in
      rw (before, div-eq_of_lt small, mod-eq_of_lt small) (refl, refl)
  | inr due ↦
      let large : period ≤ e = ground arith in
      rw due (
        omega (arith, div-eq-sub-div h large),
        ap (λ (t : ℕ). period - t) (sym (mod-eq-sub-mod large)),
      )
]

module _ {ℓ} {P : Type ℓ} (advance : P → P) where
  iterate-suc : (n : ℕ) (x : P) → iterate n advance (advance x) ≡ iterate (suc n) advance x
  iterate-suc zero x = refl
  iterate-suc (suc n) x = ap advance (iterate-suc n x)

  -- With as much fuel as there are cycles, and one more, the loop of a timer that runs ends, in
  -- the closed form.
  pub clock_loop_closed :
      (fuel period cycles timer : ℕ) (x : P)
      → 1 ≤ period
      → 1 ≤ timer
      → cycles < fuel
      → clock_loop fuel period advance cycles timer x
        ≡ some (left_over period cycles timer, iterate (runs_out period cycles timer) advance x)
  unfolding clock_loop left_over runs_out
  clock_loop_closed zero period cycles timer x h k l = absurd (omega arith)
  clock_loop_closed (suc fuel) period cycles timer x h k l = elim (Bool-cases (ltb cycles timer)) [
    | inl before ↦ let stop : leb timer cycles ≡ false = ground arith in rw (before, stop)
    | inr due ↦
        let go : leb timer cycles ≡ true = ground arith in
        let (runs, left) = reloaded period (cycles - timer) h in
        rw
          (
            due,
            go,
            clock_loop_closed fuel period (cycles - timer) period (advance x) h h (ground arith),
            runs,
            left,
          )
          (ap (λ (y : P). some (period - (cycles - timer) % period, y))
            (iterate-suc ((cycles - timer) / period) x))
  ]

-- ===== src/Bus/Tick/Merge.antt =====
-- The loop over the overflows of two timers.
use gba_eval.Base.{
  ℕ, zero, suc, ◌+◌, ◌-◌, ◌/◌, ◌^◌, ◌<◌, ◌≤◌, ◌≡◌, refl, arith, ltb, leb, Bool, true, false, ◌||◌,
  if◌then◌else◌, Option, some, Bool-cases, inl, inr, ◌⊎◌, min, add32,
}
use gba_eval.Apu.Unit.{on_timer_overflow, fifo_a_needs_data, fifo_b_needs_data}
use gba_eval.Apu.Unit.Ends.{tick_until-ends, on_timer_overflow-IsApu}
use gba_eval.Timer.{TimerOverflow}
use gba_eval.Bus.{Bus, ◌>>=◌}
use gba_eval.Bus.Tick.{
  done, zeroth, first, next_overflow, merge_overflows, overflow_cycle, sound_until, overflow_at,
}
use gba_eval.Bus.Transfers.Sound.{IsSound, check_sound_fifo_dma-IsSound}

-- The next overflow is one that is left.
next_overflow-cases :
    (ov0 ov1 : TimerOverflow) (period0 period1 k0 k1 : ℕ)
    → let next = next_overflow ov0 ov1 period0 period1 k0 k1 in
      (next ≡ done)
      ⊎ (((c : ℕ) × (next ≡ zeroth c) × (k0 < ov0.count))
          ⊎ ((c : ℕ) × (next ≡ first c) × (k1 < ov1.count)))
unfolding next_overflow
next_overflow-cases ov0 ov1 period0 period1 k0 k1 =
    let c0 = overflow_cycle ov0 period0 k0 in
    let c1 = overflow_cycle ov1 period1 k1 in
    elim (Bool-cases (ltb k0 ov0.count)) [
      | inl e ↦ elim (Bool-cases (ltb k1 ov1.count)) [
        | inl f ↦ elim (Bool-cases (leb c0 c1)) [
          | inl g ↦ inr (inl (c0, rw (e, f, g) refl, ground (arith, e)))
          | inr g ↦ inr (inr (c1, rw (e, f, g) refl, ground (arith, f)))
        ]
        | inr f ↦ inr (inl (c0, rw (e, f) refl, ground (arith, e)))
      ]
      | inr e ↦ elim (Bool-cases (ltb k1 ov1.count)) [
        | inl f ↦ inr (inr (c1, rw (e, f) refl, ground (arith, f)))
        | inr f ↦ inl (rw (e, f) refl)
      ]
    ]

-- What a step that ends gives.
abbrev pub Ends : Option Bus → Type 0
Ends o = (after : Bus) × (o ≡ some after) × IsSound after

then-Ends :
    {o : Option Bus} {f : Bus → Option Bus}
    → Ends o
    → ((b : Bus) → IsSound b → Ends (f b))
    → Ends (o >>= f)
then-Ends (b, e, v) next = rw e (next b v)

-- The fuel for the samples up to the end of a batch, which does not wrap the clock of the samples.
pub record IsEnough (fuel base cycles : ℕ) : Type 0 where
  pub in_range : base + cycles + 512 < 2 ^ 32
  pub fuel_in : (base + cycles) / 512 + 2 ≤ fuel

sound_until-Ends :
    (fuel target : ℕ) (bus : Bus)
    → IsSound bus
    → target + 512 < 2 ^ 32
    → target / 512 + 2 ≤ fuel
    → Ends (sound_until fuel target bus)
unfolding sound_until
sound_until-Ends fuel target bus v l h =
    let (a, e, w) = tick_until-ends fuel target bus.apu v.apu l h in
    rw (e, sound_until) (record bus { apu = a }, refl, record { apu = w })

either : (t : Bool) {a b : Bus} → IsSound a → IsSound b → IsSound (if t then a else b)
either true v w = v
either false v w = w

overflow_at-Ends :
    (fuel base cycles cyc i : ℕ) (bus : Bus)
    → IsSound bus
    → IsEnough fuel base cycles
    → Ends (overflow_at fuel base cycles cyc i bus)
unfolding overflow_at
overflow_at-Ends fuel base cycles cyc i bus v enough =
    let target = add32 base (min cyc cycles) in
    then-Ends
      (sound_until-Ends fuel target bus v (omega (arith, enough.in_range))
        (omega (arith, enough.in_range, enough.fuel_in)))
      (λ b w.
        let b' = record b { apu = on_timer_overflow i b.apu } in
        let w' : IsSound b' = record { apu = on_timer_overflow-IsApu i b.apu w.apu } in
        (
          _,
          refl,
          either (fifo_a_needs_data b'.apu || fifo_b_needs_data b'.apu)
              (check_sound_fifo_dma-IsSound i b' w') w',
        ))

-- When the four channels of the sound unit are within the bounds that their registers keep, the loop
-- over the overflows of timers 0 and 1 comes to its end, in such a state again, whatever it feeds into
-- the queues. It needs one round more than the overflows that are left, and two samples of fuel more
-- than up to the end of the batch, which does not get to the last 512 cycles of the samples' clock.
pub merge_overflows-ends :
    (n : ℕ) (ov0 ov1 : TimerOverflow) (period0 period1 k0 k1 fuel base cycles : ℕ) (bus : Bus)
    → IsSound bus
    → IsEnough fuel base cycles
    → (ov0.count - k0) + (ov1.count - k1) < n
    → (after : Bus) × (merge_overflows n
          (next_overflow ov0 ov1 period0 period1)
          (overflow_at fuel base cycles)
          k0
          k1
          bus
        ≡ some after)
      × IsSound after
unfolding merge_overflows
merge_overflows-ends zero ov0 ov1 p0 p1 k0 k1 fuel base cycles bus v enough h = absurd (omega arith)
merge_overflows-ends (suc n) ov0 ov1 p0 p1 k0 k1 fuel base cycles bus v enough h =
    elim (next_overflow-cases ov0 ov1 p0 p1 k0 k1) [
      | inl e ↦ rw (e, merge_overflows) (bus, refl, v)
      | inr (inl (c, e, l)) ↦
          rw (e, merge_overflows)
            (then-Ends (overflow_at-Ends fuel base cycles c 0 bus v enough) (λ b w.
              merge_overflows-ends n ov0 ov1 p0 p1 (k0 + 1) k1 fuel base cycles b w enough
                (omega (arith, l, h))))
      | inr (inr (c, e, l)) ↦
          rw (e, merge_overflows)
            (then-Ends (overflow_at-Ends fuel base cycles c 1 bus v enough) (λ b w.
              merge_overflows-ends n ov0 ov1 p0 p1 k0 (k1 + 1) fuel base cycles b w enough
                (omega (arith, l, h))))
    ]

-- ===== src/Apu/Wave/Inv.antt =====
-- The invariant of the wave channel: its period is positive, so that its loop ends.
use gba_eval.Apu.ClockLoop.{clock_loop_closed, left_over, runs_out, left_over-pos}
use gba_eval.Base.{
  ℕ, zero, suc, ◌+◌, ◌%◌, ◌<◌, ◌≤◌, ◌≡◌, refl, ◌||◌, not, Bool, true, false, if◌then◌else◌, arith,
  Bool-cases, inl, inr, some, iterate,
}
use gba_eval.Apu.Wave.{WaveChannel, wave_step, wave_period, wave_length}

pub record IsWave (c : WaveChannel) : Type 0 where
  pub frequency_in : c.frequency ≤ 2047
  pub pos_in : c.position < 64
  pub runs : c.active ≡ true → 1 ≤ c.timer

pos-lt :
    (b : Bool) (n p : ℕ) → p < 64 → iterate n (λ (q : ℕ). (q + 1) % (if b then 64 else 32)) p < 64
pos-lt b zero p h = h
pos-lt true (suc n) p h = omega arith
pos-lt false (suc n) p h = omega arith

pub step-IsWave :
    (cycles : ℕ) (c : WaveChannel)
    → IsWave c
    → (d : WaveChannel) × (wave_step cycles c ≡ some d) × IsWave d
unfolding wave_step
step-IsWave cycles c v = elim (Bool-cases (not c.active || not c.enabled)) [
  | inl off ↦ (c, rw off refl, v)
  | inr on ↦
      let playing : c.active ≡ true = ground arith in
      let p : 1 ≤ wave_period c = omega (arith, v.frequency_in) in
      let closed =
        clock_loop_closed (λ (q : ℕ). (q + 1) % wave_length c) (suc cycles) (wave_period c) cycles
          c.timer c.position p (v.runs playing) (omega arith) in
      (
        record c {
          timer = left_over (wave_period c) cycles c.timer;
          position =
              iterate (runs_out (wave_period c) cycles c.timer) (λ (q : ℕ). (q + 1) % wave_length c)
                c.position;
        },
        simp (on, closed) refl,
        record {
          frequency_in = v.frequency_in;
          pos_in = pos-lt c.dimension (runs_out (wave_period c) cycles c.timer) c.position v.pos_in;
          runs = λ e. left_over-pos (wave_period c) cycles c.timer p (v.runs playing);
        },
      )
]

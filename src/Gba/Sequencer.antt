-- ===== src/Gba/Sequencer.antt =====
-- The frame sequencer over any batch of cycles.
use gba_eval.Base.{
  ℕ, zero, suc, ◌+◌, ◌-◌, ◌*◌, ◌/◌, ◌%◌, ◌^◌, ◌<◌, ◌≡◌, refl, ap, ◌∙◌, arith, some, u32, ltb, true,
  false,
}
use gba_eval.Apu.Unit.{Apu, frame_sequencer_step}
use gba_eval.Gba.{Gba, ◌>>=◌, sequencer_loop, clock_sequencer}

-- The sound unit after `k` steps from step `s`.
pub sequenced : ℕ → ℕ → Apu → Apu
sequenced zero s a = a
sequenced (suc k) s a = sequenced k ((s + 1) % 8) (frame_sequencer_step s a)

loop_lem :
    (f k c s : ℕ) (a : Apu)
    → c < 32768
    → k < f
    → s < 8
    → sequencer_loop f (k * 32768 + c) s a ≡ some (c, (s + k) % 8, sequenced k s a)
unfolding sequencer_loop sequenced
loop_lem zero k c s a hc hk hs = absurd (omega arith)
loop_lem (suc f) zero c s a hc hk hs =
    let start : 0 * 32768 + c ≡ c = omega arith in
    let below : ltb (0 * 32768 + c) 32768 ≡ true = ground arith in
    let same : (s + 0) % 8 ≡ s = omega arith in
    rw (below, same, sequencer_loop) (ap (λ (t : ℕ). some (t, s, a)) start)
loop_lem (suc f) (suc k) c s a hc hk hs =
    let above : ltb (suc k * 32768 + c) 32768 ≡ false = ground arith in
    let rest : suc k * 32768 + c - 32768 ≡ k * 32768 + c = omega arith in
    let count : ((s + 1) % 8 + k) % 8 ≡ (s + suc k) % 8 = omega arith in
    rw (above, rest, sequencer_loop)
      (loop_lem f k c ((s + 1) % 8) (frame_sequencer_step s a) hc (omega arith) (omega arith)
        ∙ ap (λ (t : ℕ). some (c, t, sequenced k ((s + 1) % 8) (frame_sequencer_step s a))) count)

sequenced-add :
    (j k s : ℕ) (a : Apu)
    → s < 8
    → sequenced k ((s + j) % 8) (sequenced j s a) ≡ sequenced (j + k) s a
unfolding sequenced
sequenced-add zero k s a hs =
    let same : (s + 0) % 8 ≡ s = omega arith in
    let none_first : 0 + k ≡ k = omega arith in rw (same, none_first) refl
sequenced-add (suc j) k s a hs =
    let count : (s + suc j) % 8 ≡ ((s + 1) % 8 + j) % 8 = omega arith in
    let one_first : suc j + k ≡ suc (j + k) = omega arith in
    rw (count, one_first) (sequenced-add j k ((s + 1) % 8) (frame_sequencer_step s a) (omega arith))

-- The machine after a number of cycles.
abbrev pub clocked : ℕ → Gba → Gba
clocked cycles g =
    let counter = g.sequencer_counter + cycles in
    record g {
      bus = record g.bus { apu = sequenced (counter / 32768) g.sequencer_step g.bus.apu };
      sequencer_counter = counter % 32768;
      sequencer_step = (g.sequencer_step + counter / 32768) % 8;
    }

-- The loop ends, and takes one step of the sound unit for each 32768 cycles that have passed.
pub clock_sequencer_lem :
    (cycles : ℕ) (g : Gba)
    → g.sequencer_counter + cycles < 2 ^ 32
    → g.sequencer_step < 8
    → clock_sequencer cycles g ≡ some (clocked cycles g)
unfolding clock_sequencer
clock_sequencer_lem cycles g h hs =
    let counter : ℕ = g.sequencer_counter + cycles in
    let whole : u32 counter ≡ counter / 32768 * 32768 + counter % 32768 = omega arith in
    let rounds : u32 counter / 32768 ≡ counter / 32768 = omega arith in
    let e =
      loop_lem (counter / 32768 + 1) (counter / 32768) (counter % 32768) g.sequencer_step g.bus.apu
        (omega arith) (omega arith) hs in
    rw (rounds, whole, e) refl

clocked-add :
    (m n : ℕ) (g : Gba) → g.sequencer_step < 8 → clocked n (clocked m g) ≡ clocked (m + n) g
clocked-add m n g hs =
    let j : ℕ = (g.sequencer_counter + m) / 32768 in
    let k : ℕ = ((g.sequencer_counter + m) % 32768 + n) / 32768 in
    let counter : ((g.sequencer_counter + m) % 32768 + n) % 32768
        ≡ (g.sequencer_counter + (m + n)) % 32768 =
      omega arith in
    let steps : j + k ≡ (g.sequencer_counter + (m + n)) / 32768 = omega arith in
    let step : ((g.sequencer_step + j) % 8 + k) % 8 ≡ (g.sequencer_step + (j + k)) % 8 =
      omega arith in
    rw (counter, step, sequenced-add j k g.sequencer_step g.bus.apu hs, steps) refl

-- Two batches of cycles clock the sound unit as one batch of their sum does, and the loops end: how
-- the cycles are cut into instructions does not matter, as long as the counter stays in
-- 32 bits and the step is one of the eight.
pub clock_sequencer-add :
    (m n : ℕ) (g : Gba)
    → g.sequencer_counter + m + n < 2 ^ 32
    → g.sequencer_step < 8
    → (after : Gba) × (clock_sequencer (m + n) g ≡ some after)
      × ((clock_sequencer m g >>= clock_sequencer n) ≡ some after)
clock_sequencer-add m n g h hs = (
  clocked (m + n) g,
  clock_sequencer_lem (m + n) g (omega arith) hs,
  rw (clock_sequencer_lem m g (omega arith) hs) (
      clock_sequencer_lem n (clocked m g) (omega arith) (omega arith)
      ∙ ap some (clocked-add m n g hs)),
)

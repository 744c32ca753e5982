-- ===== src/Bus/Access/Channel.antt =====
-- A channel that copies once.
use gba_eval.Base.{
  ℕ, zero, suc, ◌+◌, ◌*◌, ◌/◌, ◌%◌, ◌^◌, ◌<◌, ◌≤◌, ◌≡◌, refl, true, false, arith, ap, ◌∙◌, some,
  clear_bit,
}
use gba_eval.Dma.{
  DmaChannel, immediate, channel_enabled, timing, repeat, dst_adj, irq, is_32bit, src_adj, step_of,
}
use gba_eval.Ppu.{word_at}
use gba_eval.Bus.{Bus}
use gba_eval.Bus.Writes.{at_channel}
use gba_eval.Bus.Transfers.{
  transfer_units, run_channel, run_channels, any_pending, run_immediate_dma, retire, timing_eq,
  complete,
}
use gba_eval.Bus.Transfers.Hang.{idle}
use gba_eval.Bus.Access.Copy.{IsCopied, AreBytes, transfer_units-IsCopied}

-- Channel 0 is set to copy words upwards, at once and once, and the others are off.
pub record IsCopying (s d : ℕ) (dma : ℕ → DmaChannel) : Type 0 where
  pub on : channel_enabled (dma 0) ≡ true
  pub at_once : timing (dma 0) ≡ immediate
  pub once : repeat (dma 0) ≡ false
  pub silent : irq (dma 0) ≡ false
  pub wide : is_32bit (dma 0) ≡ true
  pub src_up : src_adj (dma 0) ≡ 0
  pub dst_up : dst_adj (dma 0) ≡ 0
  pub src : (dma 0).internal_src ≡ 0x0200_0000 + s
  pub dst : (dma 0).internal_dst ≡ 0x0300_0000 + d
  pub off₁ : channel_enabled (dma 1) ≡ false
  pub off₂ : channel_enabled (dma 2) ≡ false
  pub off₃ : channel_enabled (dma 3) ≡ false

module _ (s d : ℕ) (bus : Bus) (c : IsCopying s d bus.dma) where
  abbrev copied : ℕ × ℕ × Bus
  copied =
      transfer_units (bus.dma 0).internal_count true 4 4 (0x0200_0000 + s) (0x0300_0000 + d)
        (record bus { dma_running = true })

  abbrev retired : Bus
  retired = at_channel 0 (retire 0 copied.0 copied.1) copied.2

  abbrev final : Bus
  final = record retired { dma_running = false }

  transfer : run_channel immediate 0 (record bus { dma_running = true }) ≡ complete 0 copied
  unfolding run_channel timing_eq step_of
  transfer = rw (c.on, c.at_once, c.wide, c.src_up, c.dst_up, c.src, c.dst) refl

  -- The channel is off after it.
  retired_off : (x y : ℕ) → channel_enabled (retire 0 x y (bus.dma 0)) ≡ false
  retired_off x y = rw c.once (ground arith)

  retired_silent : (x y : ℕ) → irq (retire 0 x y (bus.dma 0)) ≡ false
  retired_silent x y =
      let kept : clear_bit 15 (bus.dma 0).control / 2 ^ 14 % 2 ≡ (bus.dma 0).control / 2 ^ 14 % 2 =
        omega arith in
      rw (c.once, kept) c.silent

  module _ (same : copied.2.dma ≡ bus.dma) where
    completes : complete 0 copied ≡ retired
    unfolding complete
    completes =
        let quiet : irq (retired.dma 0) ≡ false =
          ap (λ dma. irq (retire 0 copied.0 copied.1 (dma 0))) same
          ∙ retired_silent copied.0 copied.1 in
        rw quiet refl

    off_at₁ : channel_enabled (retired.dma 1) ≡ false
    off_at₁ = ap (λ dma. channel_enabled (dma 1)) same ∙ c.off₁

    off_at₂ : channel_enabled (retired.dma 2) ≡ false
    off_at₂ = ap (λ dma. channel_enabled (dma 2)) same ∙ c.off₂

    off_at₃ : channel_enabled (retired.dma 3) ≡ false
    off_at₃ = ap (λ dma. channel_enabled (dma 3)) same ∙ c.off₃

    off_at₀ : channel_enabled (retired.dma 0) ≡ false
    off_at₀ =
        ap (λ dma. channel_enabled (retire 0 copied.0 copied.1 (dma 0))) same
        ∙ retired_off copied.0 copied.1

    runs : run_channels immediate bus ≡ final
    unfolding run_channels
    runs =
        let first : run_channel immediate 0 (record bus { dma_running = true }) ≡ retired =
          transfer ∙ completes in
        rw (first, idle 1 retired off_at₁, idle 2 retired off_at₂, idle 3 retired off_at₃) refl

    done : any_pending final ≡ false
    unfolding any_pending
    done = rw (off_at₀, off_at₁, off_at₂, off_at₃) refl

-- Channel 0 set to copy words once, at once, from the external to the internal memory, at aligned
-- addresses and within both, with the other channels off and two rounds of fuel: the loop over
-- the immediate transfers ends after one round, the words are copied, and the channel is off.
pub run_immediate_dma-copies :
    (fuel s d : ℕ) (bus : Bus)
    → IsCopying s d bus.dma
    → s % 4 ≡ 0
    → d % 4 ≡ 0
    → s + (bus.dma 0).internal_count * 4 ≤ 2 ^ 18
    → d + (bus.dma 0).internal_count * 4 ≤ 2 ^ 15
    → AreBytes bus.ewram
    → 2 ≤ fuel
    → (after : Bus) × (run_immediate_dma fuel bus ≡ some after)
      × (channel_enabled (after.dma 0) ≡ false)
      × ((k : ℕ)
          → k < (bus.dma 0).internal_count
          → word_at after.iwram (d + k * 4) ≡ word_at bus.ewram (s + k * 4))
unfolding run_immediate_dma any_pending
run_immediate_dma-copies zero s d bus c hs hd ls ld bytes h = absurd (omega arith)
run_immediate_dma-copies (suc zero) s d bus c hs hd ls ld bytes h = absurd (omega arith)
run_immediate_dma-copies (suc (suc fuel)) s d bus c hs hd ls ld bytes h =
    let all =
      transfer_units-IsCopied (bus.dma 0).internal_count s d (record bus { dma_running = true }) hs
        hd ls ld bytes in
    let same = IsCopied.channels all in
    (
      final s d bus c,
      rw (c.on, c.at_once, runs s d bus c same, done s d bus c same, run_immediate_dma)
          (ap some (runs s d bus c same)),
      off_at₀ s d bus c same,
      IsCopied.moved all,
    )

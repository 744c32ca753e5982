-- ===== src/Bus/Transfers/Hang.antt =====
-- A channel that starts at once and repeats.
use gba_eval.Base.{
  ℕ, zero, suc, ◌+◌, ◌==◌, ◌≡◌, refl, Bool, true, false, arith, ap, ◌∙◌, if◌then◌else◌, none, field,
  add32, u16, ◌>>>◌, update,
}
use gba_eval.Dma.{
  DmaChannel, immediate, channel_enabled, timing, repeat, dst_adj, irq, is_32bit, word_size,
  src_adj, step_of,
}
use gba_eval.Io.{request_irq}
use gba_eval.Ppu.{align2, align4}
use gba_eval.Bus.{Bus, charge_data}
use gba_eval.Bus.Reads.Frame.{IsFramed, bus_read16-frame, bus_read32-frame}
use gba_eval.Bus.Writes.{write16_inner, write_even, at_channel}
use gba_eval.Bus.Transfers.{
  transfer_write16, transfer_write32, transfer_unit, transfer_units, run_channel, run_channels,
  any_pending, run_immediate_dma, retire, timing_eq, complete,
}

-- Writes to the external memory change no channel.
dma-write16_inner :
    (addr v : ℕ) (bus : Bus) → field 24 4 addr ≡ 2 → (write16_inner addr v bus).0.dma ≡ bus.dma
unfolding write16_inner write_even
dma-write16_inner addr v bus h = let even : field 24 4 (align2 addr) ≡ 2 = omega arith in simp even

dma-write32 :
    (addr v : ℕ) (bus : Bus) → field 24 4 addr ≡ 2 → (transfer_write32 addr v bus).dma ≡ bus.dma
unfolding transfer_write32 charge_data
dma-write32 addr v bus h =
    let low : field 24 4 (align4 addr) ≡ 2 = omega arith in
    let high : field 24 4 (align4 addr + 2) ≡ 2 = omega arith in
    rw low (
      dma-write16_inner (align4 addr + 2) (u16 (v >>> 16)) _ high
      ∙ dma-write16_inner (align4 addr) (u16 v) _ low)

dma-unit :
    (wide : Bool) (src dst : ℕ) (bus : Bus)
    → field 24 4 dst ≡ 2
    → (transfer_unit wide src dst bus).dma ≡ bus.dma
unfolding transfer_unit transfer_write16 charge_data
dma-unit true src dst bus h =
    dma-write32 dst _ _ h ∙ ap Bus.dma (IsFramed.same (bus_read32-frame src 0 bus))
dma-unit false src dst bus h =
    dma-write16_inner dst _ _ h ∙ ap Bus.dma (IsFramed.same (bus_read16-frame src 0 bus))

-- A transfer to a fixed address of that memory.
dma-units :
    (n : ℕ) (wide : Bool) (src_step src dst : ℕ) (bus : Bus)
    → field 24 4 dst ≡ 2
    → let (src', dst', bus') = transfer_units n wide src_step 0 src dst bus in
      (field 24 4 dst' ≡ 2) × (bus'.dma ≡ bus.dma)
unfolding transfer_units
dma-units zero wide src_step src dst bus h = (h, refl)
dma-units (suc n) wide src_step src dst bus h =
    let (d, e) =
      dma-units n wide src_step (add32 src src_step) (add32 dst 0) (transfer_unit wide src dst bus)
        (omega arith) in
    (d, e ∙ dma-unit wide src dst bus h)

-- Channel 0 repeats at once into a fixed address of the external memory; the others are off.
pub record IsStuck (dma : ℕ → DmaChannel) : Type 0 where
  pub on : channel_enabled (dma 0) ≡ true
  pub at_once : timing (dma 0) ≡ immediate
  pub repeats : repeat (dma 0) ≡ true
  pub fixed : dst_adj (dma 0) ≡ 2
  pub external : field 24 4 (dma 0).internal_dst ≡ 2
  pub off₁ : channel_enabled (dma 1) ≡ false
  pub off₂ : channel_enabled (dma 2) ≡ false
  pub off₃ : channel_enabled (dma 3) ≡ false

pub idle :
    (ch : ℕ) (bus : Bus) → channel_enabled (bus.dma ch) ≡ false → run_channel immediate ch bus ≡ bus
unfolding run_channel
idle ch bus h = rw h refl

-- The transfer ends with the channel on, at an address of the same memory.
retired :
    {dma : ℕ → DmaChannel} (src dst : ℕ)
    → IsStuck dma
    → field 24 4 dst ≡ 2
    → IsStuck (update dma 0 (retire 0 src dst (dma 0)))
unfolding timing
retired {dma} src dst s h =
    let stays : (dst_adj (dma 0) == 3) ≡ false = rw s.fixed refl in
    record {
      on = rw s.repeats s.on;
      at_once = rw s.repeats s.at_once;
      repeats = rw s.repeats s.repeats;
      fixed = rw s.repeats s.fixed;
      external = rw (s.repeats, stays) h;
      off₁ = s.off₁;
      off₂ = s.off₂;
      off₃ = s.off₃;
    }

dma-complete :
    (ch : ℕ) (t : ℕ × ℕ × Bus)
    → (complete ch t).dma ≡ update t.2.dma ch (retire ch t.0 t.1 (t.2.dma ch))
unfolding complete
dma-complete ch (src, dst, bus) = kept (irq (update bus.dma ch (retire ch src dst (bus.dma ch)) ch))
  where
    bus' : Bus
    bus' = at_channel ch (retire ch src dst) bus

    kept :
        (b : Bool)
        → (if b then record bus' { io = request_irq (8 + ch) bus'.io } else bus').dma ≡ bus'.dma
    kept true = refl
    kept false = refl

module _ (bus : Bus) (s : IsStuck bus.dma) where
  abbrev moved : ℕ × ℕ × Bus
  moved =
      let c = bus.dma 0 in
      transfer_units c.internal_count (is_32bit c) (step_of (src_adj c) (word_size c)) 0
        c.internal_src c.internal_dst bus

  runs : run_channel immediate 0 bus ≡ complete 0 moved
  unfolding run_channel timing_eq step_of
  runs = rw (s.on, s.at_once, s.fixed) refl

  busy : IsStuck (run_channel immediate 0 bus).dma
  busy =
      let (d, e) =
        dma-units (bus.dma 0).internal_count (is_32bit (bus.dma 0))
          (step_of (src_adj (bus.dma 0)) (word_size (bus.dma 0))) (bus.dma 0).internal_src
          (bus.dma 0).internal_dst bus s.external in
      rw (runs, dma-complete 0 moved, e) (retired moved.0 moved.1 s d)

  pending : any_pending bus ≡ true
  unfolding any_pending
  pending = rw (s.on, s.at_once) refl

again : (bus : Bus) → IsStuck bus.dma → IsStuck (run_channels immediate bus).dma
unfolding run_channels
again bus s = rw (idle 1 next s'.off₁, idle 2 next s'.off₂, idle 3 next s'.off₃) s'
  where
    next : Bus
    next = run_channel immediate 0 (record bus { dma_running = true })

    s' : IsStuck next.dma
    s' = busy (record bus { dma_running = true }) s

-- Channel 0 set to start at once and to repeat, into a fixed address of the external memory, with the
-- other channels off, is never done: once it runs, the loop over the immediate transfers does not
-- end, however long it is given. The specification lets such a
-- channel transfer once for each time that its start condition becomes true.
pub run_immediate_dma-hangs :
    (fuel : ℕ) (bus : Bus) → IsStuck bus.dma → run_immediate_dma fuel bus ≡ none
unfolding run_immediate_dma
run_immediate_dma-hangs zero bus s = refl
run_immediate_dma-hangs (suc fuel) bus s =
    rw (pending bus s, run_immediate_dma)
      (run_immediate_dma-hangs fuel (run_channels immediate bus) (again bus s))

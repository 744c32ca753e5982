-- ===== src/Bus/Writes/Bytes.antt =====
-- Bytes of the interrupt request register.
use gba_eval.Base.{
  ℕ, zero, suc, ◌+◌, ◌-◌, ◌*◌, ◌/◌, ◌^◌, ◌<◌, ◌≡◌, arith, ap, ◌∙◌, bit_and, not16, bit_and-shr,
  bit_and_step, bit_and-zero,
}
use native.Mathlib.Nat.{pow-suc}
use gba_eval.Io.Registers.{io_write16, io_read16}
use gba_eval.Bus.{Bus}
use gba_eval.Bus.Reads.{read_io16}
use gba_eval.Bus.Writes.{write8_inner, write16_inner, write_even, write_register8}

-- A word shares no digit with its complement.
bit_and-complement : (k x : ℕ) → x < 2 ^ k → bit_and x (2 ^ k - 1 - x) ≡ 0
bit_and-complement zero x h =
    let none_set : x ≡ 0 = omega (arith, h) in rw none_set (bit_and-zero 0)
bit_and-complement (suc k) x h =
    ground (arith, bit_and_step x (2 ^ suc k - 1 - x), pow-suc 2 k, bit_and-complement k (x / 2))

-- A byte written to the low half of IF acknowledges every request in the high half too, since the
-- byte is merged with the pending requests before it is written back: the requests of the DMA
-- channels, the keys and the cartridge are lost.
pub write8_inner-loses_requests :
    (val : ℕ) (bus : Bus)
    → val < 2 ^ 8
    → bus.io.if_ < 2 ^ 16
    → (write8_inner 0x0400_0202 val bus).0.io.if_ / 2 ^ 8 ≡ 0
unfolding write8_inner write_register8 write16_inner write_even read_io16 io_read16 io_write16
write8_inner-loses_requests val bus hv hi =
    let pending : ℕ = bus.io.if_ in
    let written : not16 (pending / 2 ^ 8 * 2 ^ 8 + val) / 2 ^ 8 ≡ 2 ^ 8 - 1 - pending / 2 ^ 8 =
      omega arith in
    bit_and-shr 8 pending (not16 (pending / 2 ^ 8 * 2 ^ 8 + val))
    ∙ ap (λ (t : ℕ). bit_and (pending / 2 ^ 8) t) written
    ∙ bit_and-complement 8 (pending / 2 ^ 8) (omega arith)

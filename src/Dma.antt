-- ===== src/Dma.antt =====
-- The DMA controller: candidates/gba-core/src/dma.rs, `DmaChannel`, `Dma` and `run_dma_transfer`.
-- An operation on channel `ch` is a function of its number and of `self.channels[ch]`. A step of a
-- transfer is a 32-bit word, a decrement its two's complement.
pub mod Inv
pub mod Addresses
mod Tests
use gba_eval.DmaMemory.{DmaBusAccess, read16, read32, write16, write32}
use gba_eval.Base.{
  ℕ, zero, suc, ◌+◌, ◌-◌, ◌*◌, ◌/◌, ◌%◌, ◌^◌, ◌==◌, ◌&&◌, not, Bool, true, false, if◌then◌else◌,
  field, low_bits, high_bits, test_bit, ◌<<<◌, bit_or, u32, add32, clear_bit,
}

pub data DmaTiming : Type 0 where
  immediate v_blank h_blank special : DmaTiming

pub record DmaChannel : Type 0 where
  pub src : ℕ
  pub dst : ℕ
  pub count : ℕ
  pub control : ℕ
  pub internal_src : ℕ
  pub internal_dst : ℕ
  pub internal_count : ℕ

abbrev pub channel_default : DmaChannel
channel_default = record {
  src = 0;
  dst = 0;
  count = 0;
  control = 0;
  internal_src = 0;
  internal_dst = 0;
  internal_count = 0;
}

abbrev pub channel_enabled : DmaChannel → Bool
channel_enabled c = test_bit 15 c.control

abbrev pub irq : DmaChannel → Bool
irq c = test_bit 14 c.control

abbrev pub is_32bit : DmaChannel → Bool
is_32bit c = test_bit 10 c.control

abbrev pub repeat : DmaChannel → Bool
repeat c = test_bit 9 c.control

abbrev pub game_pak_drq : DmaChannel → Bool
game_pak_drq c = test_bit 11 c.control

unfoldable pub timing : DmaChannel → DmaTiming
timing c =
    let t = field 12 2 c.control in
    if t == 0 then immediate else if t == 1 then v_blank else if t == 2 then h_blank else special

abbrev pub dst_adj : DmaChannel → ℕ
dst_adj c = field 5 2 c.control

-- 3 is prohibited, and taken for 0.
unfoldable pub src_adj : DmaChannel → ℕ
src_adj c = let a = field 7 2 c.control in if a == 3 then 0 else a

pub write_src_lo : ℕ → DmaChannel → DmaChannel
write_src_lo val c = record c { src = bit_or (high_bits 16 c.src) val }

-- `val & 0x07FF` on channel 0, `val & 0x0FFF` on the others.
pub write_src_hi : ℕ → ℕ → DmaChannel → DmaChannel
write_src_hi ch val c =
    let high = if ch == 0 then low_bits 11 val else low_bits 12 val in
    record c { src = bit_or (low_bits 16 c.src) (high <<< 16) }

pub write_dst_lo : ℕ → DmaChannel → DmaChannel
write_dst_lo val c = record c { dst = bit_or (high_bits 16 c.dst) val }

-- `val & 0x0FFF` on channel 3, `val & 0x07FF` on the others.
pub write_dst_hi : ℕ → ℕ → DmaChannel → DmaChannel
write_dst_hi ch val c =
    let high = if ch == 3 then low_bits 12 val else low_bits 11 val in
    record c { dst = bit_or (low_bits 16 c.dst) (high <<< 16) }

pub write_count : ℕ → DmaChannel → DmaChannel
write_count val c = record c { count = val }

-- A count of 0 stands for the largest one.
abbrev pub full_count : ℕ → ℕ → ℕ
full_count ch count = if count == 0 then (if ch == 3 then 0x1_0000 else 0x4000) else count

pub write_channel_control : ℕ → ℕ → DmaChannel → DmaChannel
write_channel_control ch val c =
    let c' = record c { control = val } in
    if not (channel_enabled c) && channel_enabled c'
    then record c' {
      internal_src = c.src;
      internal_dst = c.dst;
      internal_count = full_count ch c.count;
    }
    else c'

abbrev pub word_size : DmaChannel → ℕ
word_size c = if is_32bit c then 4 else 2

-- `0 - size` in 32 bits for a decrement, 0 for a fixed address.
unfoldable pub step_of : ℕ → ℕ → ℕ
step_of adj size = if adj == 1 then 2 ^ 32 - size else if adj == 2 then 0 else size

-- One unit from `src` to `dst`.
pub copy_unit : Bool → ℕ → ℕ → DmaBusAccess → DmaBusAccess
copy_unit true src dst bus = write32 dst (read32 src bus) bus
copy_unit false src dst bus = write16 dst (read16 src bus) bus

-- The loop: the units, the steps, the addresses and the memory.
pub copy_units : ℕ → Bool → ℕ → ℕ → ℕ → ℕ → DmaBusAccess → ℕ × ℕ × DmaBusAccess
copy_units zero wide src_step dst_step src dst bus = (src, dst, bus)
copy_units (suc n) wide src_step dst_step src dst bus =
    copy_units n wide src_step dst_step (add32 src src_step) (add32 dst dst_step)
      (copy_unit wide src dst bus)

-- The channel and the memory afterwards, and the bytes that were moved.
pub run_dma_transfer : ℕ → DmaChannel → DmaBusAccess → DmaChannel × DmaBusAccess × ℕ
unfolding src_adj
run_dma_transfer ch dma bus =
    if not (channel_enabled dma)
    then (dma, bus, 0)
    else (let size = word_size dma in
        let src_step = step_of (src_adj dma) size in
        let dst_step = step_of (dst_adj dma) size in
        let count = dma.internal_count in
        let (src, dst, bus') =
          copy_units count (is_32bit dma) src_step dst_step dma.internal_src dma.internal_dst bus in
        let dma₁ = record dma {
          internal_src = src;
          internal_dst = if dst_adj dma == 3 then dma.dst else dst;
        } in
        let dma₂ =
          if not (repeat dma)
          then record dma₁ { control = clear_bit 15 dma.control }
          else record dma₁ { internal_count = full_count ch dma.count } in
        (dma₂, bus', u32 (count * size)))

-- ===== src/Dma/Inv.antt =====
-- The invariant of a DMA channel.
use gba_eval.Base.{
  ℕ, ◌+◌, ◌*◌, ◌/◌, ◌%◌, ◌^◌, ◌<◌, ◌≤◌, ◌≡◌, ◌∙◌, ◌==◌, true, if◌then◌else◌, arith, low_bits,
  high_bits, bit_or, bit_or-fields, bit_or_comm,
}
use gba_eval.Dma.{
  DmaChannel, channel_default, channel_enabled, write_src_lo, write_src_hi, write_dst_lo,
  write_dst_hi, write_count, write_channel_control,
}
use gba_eval.Bus.Transfers.{retire, feed}

-- The addresses of the registers are 28 bits wide, those of a transfer are words of 32 bits, and a
-- channel that is on has a count from 1 to 0x10000.
pub record IsChannel (c : DmaChannel) : Type 0 where
  pub src_in : c.src < 2 ^ 28
  pub dst_in : c.dst < 2 ^ 28
  pub internal_src_in : c.internal_src < 2 ^ 32
  pub internal_dst_in : c.internal_dst < 2 ^ 32
  pub count_in : c.count < 2 ^ 16
  pub running : channel_enabled c ≡ true → (1 ≤ c.internal_count) × (c.internal_count ≤ 0x1_0000)

low_write :
    (old val : ℕ) → val < 2 ^ 16 → bit_or (high_bits 16 old) val ≡ old / 2 ^ 16 * 2 ^ 16 + val
low_write old val h = bit_or-fields 16 (old / 2 ^ 16) val h

high_write :
    (old high : ℕ) → bit_or (low_bits 16 old) (high * 2 ^ 16) ≡ high * 2 ^ 16 + old % 2 ^ 16
high_write old high =
    bit_or_comm (low_bits 16 old) (high * 2 ^ 16)
    ∙ bit_or-fields 16 high (old % 2 ^ 16) (omega arith)

src_lo-IsChannel :
    (val : ℕ) (c : DmaChannel) → val < 2 ^ 16 → IsChannel c → IsChannel (write_src_lo val c)
unfolding write_src_lo
src_lo-IsChannel val c h v = record {
  src_in = omega (arith, low_write c.src val h, v.src_in);
  dst_in = v.dst_in;
  internal_src_in = v.internal_src_in;
  internal_dst_in = v.internal_dst_in;
  count_in = v.count_in;
  running = v.running;
}

dst_lo-IsChannel :
    (val : ℕ) (c : DmaChannel) → val < 2 ^ 16 → IsChannel c → IsChannel (write_dst_lo val c)
unfolding write_dst_lo
dst_lo-IsChannel val c h v = record {
  src_in = v.src_in;
  dst_in = omega (arith, low_write c.dst val h, v.dst_in);
  internal_src_in = v.internal_src_in;
  internal_dst_in = v.internal_dst_in;
  count_in = v.count_in;
  running = v.running;
}

src_hi-IsChannel : (ch val : ℕ) (c : DmaChannel) → IsChannel c → IsChannel (write_src_hi ch val c)
unfolding write_src_hi
src_hi-IsChannel ch val c v =
    let high = if ch == 0 then low_bits 11 val else low_bits 12 val in
    let high_in : high < 2 ^ 12 = ground arith in
    record {
      src_in = omega (arith, high_write c.src high, high_in);
      dst_in = v.dst_in;
      internal_src_in = v.internal_src_in;
      internal_dst_in = v.internal_dst_in;
      count_in = v.count_in;
      running = v.running;
    }

dst_hi-IsChannel : (ch val : ℕ) (c : DmaChannel) → IsChannel c → IsChannel (write_dst_hi ch val c)
unfolding write_dst_hi
dst_hi-IsChannel ch val c v =
    let high = if ch == 3 then low_bits 12 val else low_bits 11 val in
    let high_in : high < 2 ^ 12 = ground arith in
    record {
      src_in = v.src_in;
      dst_in = omega (arith, high_write c.dst high, high_in);
      internal_src_in = v.internal_src_in;
      internal_dst_in = v.internal_dst_in;
      count_in = v.count_in;
      running = v.running;
    }

count-IsChannel :
    (val : ℕ) (c : DmaChannel) → val < 2 ^ 16 → IsChannel c → IsChannel (write_count val c)
unfolding write_count
count-IsChannel val c h v = ground arith

control-IsChannel :
    (ch val : ℕ) (c : DmaChannel) → IsChannel c → IsChannel (write_channel_control ch val c)
unfolding write_channel_control
control-IsChannel ch val c v = ground (arith, v.src_in, v.dst_in, v.count_in, v.running)

retire-IsChannel :
    (ch src dst : ℕ) (c : DmaChannel)
    → src < 2 ^ 32
    → dst < 2 ^ 32
    → IsChannel c
    → IsChannel (retire ch src dst c)
retire-IsChannel ch src dst c h k v = ground arith

feed-IsChannel : (src : ℕ) (c : DmaChannel) → IsChannel c → IsChannel (feed src c)
feed-IsChannel src c v = ground arith

-- What the bus does to channel `ch`: writes of its registers, the end of a transfer that has come to
-- two addresses, and four words from an address into a queue.
pub data Step (ch : ℕ) (c : DmaChannel) : DmaChannel → Type 0 where
  sets_src_lo : (val : ℕ) → val < 2 ^ 16 → Step ch c (write_src_lo val c)
  sets_src_hi : (val : ℕ) → Step ch c (write_src_hi ch val c)
  sets_dst_lo : (val : ℕ) → val < 2 ^ 16 → Step ch c (write_dst_lo val c)
  sets_dst_hi : (val : ℕ) → Step ch c (write_dst_hi ch val c)
  sets_count : (val : ℕ) → val < 2 ^ 16 → Step ch c (write_count val c)
  sets_control : (val : ℕ) → Step ch c (write_channel_control ch val c)
  retires : (src dst : ℕ) → src < 2 ^ 32 → dst < 2 ^ 32 → Step ch c (retire ch src dst c)
  feeds : (src : ℕ) → Step ch c (feed src c)

pub data Reach (ch : ℕ) : DmaChannel → Type 0 where
  power_on : Reach ch channel_default
  next : {c d : DmaChannel} → Reach ch c → Step ch c d → Reach ch d

Step-IsChannel : (ch : ℕ) {c d : DmaChannel} → Step ch c d → IsChannel c → IsChannel d
Step-IsChannel ch {c} (sets_src_lo val h) v = src_lo-IsChannel val c h v
Step-IsChannel ch {c} (sets_src_hi val) v = src_hi-IsChannel ch val c v
Step-IsChannel ch {c} (sets_dst_lo val h) v = dst_lo-IsChannel val c h v
Step-IsChannel ch {c} (sets_dst_hi val) v = dst_hi-IsChannel ch val c v
Step-IsChannel ch {c} (sets_count val h) v = count-IsChannel val c h v
Step-IsChannel ch {c} (sets_control val) v = control-IsChannel ch val c v
Step-IsChannel ch {c} (retires src dst h k) v = retire-IsChannel ch src dst c h k v
Step-IsChannel ch {c} (feeds src) v = feed-IsChannel src c v

-- Whatever registers are written, transfers end and queues are fed after power-on, the addresses in
-- the registers of a channel stay within 28 bits, those its transfers use are words of 32 bits, and a
-- channel that is on has a count from 1 to 0x10000.
pub Reach-IsChannel : (ch : ℕ) {c : DmaChannel} → Reach ch c → IsChannel c
Reach-IsChannel ch power_on = record {
  src_in = omega arith;
  dst_in = omega arith;
  internal_src_in = omega arith;
  internal_dst_in = omega arith;
  count_in = omega arith;
  running = λ e. cc;
}
Reach-IsChannel ch (next r s) = Step-IsChannel ch s (Reach-IsChannel ch r)

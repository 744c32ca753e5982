-- ===== src/Apu/Fifo.antt =====
-- The sample queues of the DMA sound channels: candidates/gba-core/src/apu.rs, `Fifo`.
pub mod Queue
use gba_eval.Base.{
  ℕ, zero, suc, ◌+◌, ◌-◌, ◌*◌, ◌/◌, ◌%◌, ◌^◌, ◌==◌, ltb, Bool, true, false, if◌then◌else◌, u8,
  update, ℤ, pos, negsuc,
}

abbrev pub fifo_size : ℕ
fifo_size = 32

-- `w as i8`
abbrev pub signed8 : ℕ → ℤ
signed8 w = if ltb w 128 then pos w else negsuc (255 - w)

pub record Fifo : Type 0 where
  pub samples : ℕ → ℤ
  pub read_pos : ℕ
  pub write_pos : ℕ
  pub len : ℕ

abbrev pub fifo_new : Fifo
fifo_new = record { samples = λ i. pos 0; read_pos = 0; write_pos = 0; len = 0 }

pub fifo_reset : Fifo → Fifo
fifo_reset f = record f { read_pos = 0; write_pos = 0; len = 0 }

-- One half of `write`.
pub fifo_push : ℕ → Fifo → Fifo
fifo_push a f =
    if ltb f.len fifo_size
    then record f {
      samples = update f.samples f.write_pos (signed8 a);
      write_pos = (f.write_pos + 1) % fifo_size;
      len = f.len + 1;
    }
    else f

pub fifo_write : ℕ → ℕ → Fifo → Fifo
fifo_write a b f = fifo_push b (fifo_push a f)

pub fifo_read : Fifo → Fifo × ℤ
fifo_read f = if f.len == 0 then (f, pos 0) else (
  record f { read_pos = (f.read_pos + 1) % fifo_size; len = f.len - 1 },
  f.samples f.read_pos,
)

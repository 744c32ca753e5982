-- ===== src/Cpu/Pipeline/Refill.antt =====
-- What the refill of the pipeline changes.
use gba_eval.Base.{ℕ, ◌≡◌, true, if◌then◌else◌, add32, high_bits, update, Bool-cases, inl, inr}
use gba_eval.Cpu.{Cpu, thumb}
use gba_eval.Cpu.Pipeline.{BusOps, flush_pipeline}

-- The target rounded to the state, two opcodes on.
abbrev pub flush_pc : Cpu → ℕ
flush_pc c = if thumb c then add32 (high_bits 1 (c.r 15)) 4 else add32 (high_bits 2 (c.r 15)) 8

module _ {B : Type 0} (ops : BusOps B) (c : Cpu) (b : B) where
  pub flush_pipeline_lem : (flush_pipeline ops c b).0 ≡ record c {
    r = update c.r 15 (flush_pc c);
    pipe = (flush_pipeline ops c b).0.pipe;
    pipeline_flushed = true;
  }
  unfolding flush_pipeline thumb
  flush_pipeline_lem = elim (Bool-cases (thumb c)) [ inl e ↦ rw e | inr e ↦ rw e ]

-- ===== src/WaitStates.antt =====
-- The access times of the memory regions: candidates/gba-core/src/waitstates.rs. The table is a
-- function on its 0x400 indices.
pub mod Table
mod Tests
use gba_eval.Base.{
  ℕ, zero, suc, ◌+◌, ◌-◌, ◌*◌, ◌/◌, ◌%◌, ◌^◌, ◌==◌, ◌!=◌, ◌&&◌, ◌||◌, not, leb, ltb, Bool, true,
  false, if◌then◌else◌, field, low_bits, test_bit, of_bool, ◌>>>◌, ◌<<<◌, bit_and, bit_or, update,
}

-- A pair of cycles: of a first access, and of a sequential one.
pub record Slot : Type 0 where
  pub nonseq : ℕ
  pub seq : ℕ

pub record WaitStates : Type 0 where
  pub lut : ℕ → ℕ
  pub prg0 : Slot
  pub prg1 : Slot
  pub prg2 : Slot
  pub sram : ℕ

abbrev pub sequential : ℕ
sequential = 1

abbrev pub word : ℕ
word = 2

-- `N_TABLE`
pub n_table : ℕ → ℕ
n_table k = if k == 0 then 5 else if k == 1 then 4 else if k == 2 then 3 else 9

slot_time : Slot → Bool → Bool → ℕ
slot_time s is_seq is_word = (if is_seq then s.seq else s.nonseq) + (if is_word then s.seq else 0)

-- The time of an access to the region `i`.
pub region_time : ℕ → Bool → Bool → WaitStates → ℕ
region_time i is_seq is_word ws =
    if i == 0x02
    then (if is_word then 6 else 3)
    else if i == 0x05 || i == 0x06
    then (if is_word then 2 else 1)
    else if i == 0x08 || i == 0x09
    then slot_time ws.prg0 is_seq is_word
    else if i == 0x0a || i == 0x0b
    then slot_time ws.prg1 is_seq is_word
    else if i == 0x0c || i == 0x0d
    then slot_time ws.prg2 is_seq is_word
    else if i == 0x0e || i == 0x0f
    then ws.sram
    else 1

-- The inner loop of `regenerate_lut`: the regions from 0 up to `n`, in one mode.
fill_regions : ℕ → ℕ → WaitStates → (ℕ → ℕ) → ℕ → ℕ
fill_regions zero mode ws lut = lut
fill_regions (suc i) mode ws lut =
    update (fill_regions i mode ws lut) (bit_or (i <<< 2) mode)
      (region_time i (test_bit 0 mode) (test_bit 1 mode) ws)

-- The outer loop: the modes from 0 up to `n`.
fill_modes : ℕ → WaitStates → (ℕ → ℕ) → ℕ → ℕ
fill_modes zero ws lut = lut
fill_modes (suc mode) ws lut = fill_regions 0x100 mode ws (fill_modes mode ws lut)

pub regenerate_lut : WaitStates → WaitStates
regenerate_lut ws = record ws { lut = fill_modes 4 ws ws.lut }

pub wait_states_new : WaitStates
wait_states_new = regenerate_lut (record {
  lut = λ i. 0;
  prg0 = record { nonseq = 5; seq = 3 };
  prg1 = record { nonseq = 5; seq = 5 };
  prg2 = record { nonseq = 5; seq = 9 };
  sram = 5;
})

pub write_waitcnt : ℕ → WaitStates → WaitStates
write_waitcnt waitcnt ws = regenerate_lut (record ws {
  prg0 = record { nonseq = n_table (field 2 2 waitcnt); seq = if test_bit 4 waitcnt then 2 else 3 };
  prg1 = record { nonseq = n_table (field 5 2 waitcnt); seq = if test_bit 7 waitcnt then 2 else 5 };
  prg2 = record {
    nonseq = n_table (field 8 2 waitcnt);
    seq = if test_bit 10 waitcnt then 2 else 9;
  };
  sram = n_table (low_bits 2 waitcnt);
})

-- `(addr >> 22) & 0x3FC`
abbrev pub region_index : ℕ → ℕ
region_index addr = bit_and (addr >>> 22) 0x3fc

pub get : ℕ → ℕ → WaitStates → ℕ
get addr mode ws =
    let seq_mask = if low_bits 17 addr != 0 then sequential else 0 in
    ws.lut (bit_or (region_index addr) (bit_and mode (bit_or word seq_mask)))

-- For the prefetch unit: without the boundary mask.
pub get_prefetch : ℕ → ℕ → WaitStates → ℕ
get_prefetch addr mode ws =
    ws.lut (bit_or (region_index addr) (bit_and mode (bit_or word sequential)))

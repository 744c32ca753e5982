-- ===== src/WaitStates/Table.antt =====
-- What the table holds, and the time that `get` finds in it.
use gba_eval.Base.{
  ℕ, zero, suc, ◌+◌, ◌*◌, ◌/◌, ◌^◌, ◌<◌, ◌≤◌, ◌≡◌, ◌∙◌, ap, ap₂, ltb, ◌==◌, ◌!=◌, Bool, true, false,
  if◌then◌else◌, arith, Bool-cases, inl, inr, ◌&&◌, test_bit, low_bits, field, bit_or, bit_and,
  bit_or-fields, bit_and-mask, bit_and-mul_pow, ◌>>>◌,
}
use gba_eval.WaitStates.{
  WaitStates, Slot, n_table, slot_time, region_time, fill_regions, fill_modes, regenerate_lut, get,
  write_waitcnt, region_index,
}

fill_regions_lem :
    (n i m mode : ℕ) (ws : WaitStates) (lut : ℕ → ℕ)
    → m < 4
    → mode < 4
    → fill_regions n mode ws lut (i * 4 + m) ≡ (
        if ltb i n && m == mode
        then region_time i (test_bit 0 mode) (test_bit 1 mode) ws
        else lut (i * 4 + m))
unfolding fill_regions
fill_regions_lem zero i m mode ws lut h k = ground arith
fill_regions_lem (suc n) i m mode ws lut h k =
    let index : bit_or (n * 2 ^ 2) mode ≡ n * 4 + mode = bit_or-fields 2 n mode k in
    ground (arith, index, fill_regions_lem n i m mode ws lut h k)

fill_modes_lem :
    (n i m : ℕ) (ws : WaitStates) (lut : ℕ → ℕ)
    → i < 256
    → m < n
    → n ≤ 4
    → fill_modes n ws lut (i * 4 + m) ≡ region_time i (test_bit 0 m) (test_bit 1 m) ws
unfolding fill_modes
fill_modes_lem zero i m ws lut h k l = absurd (omega arith)
fill_modes_lem (suc n) i m ws lut h k l = elim (Bool-cases (m == n)) [
  | inl last ↦
      ground
        (arith, fill_regions_lem 256 i m n ws (fill_modes n ws lut) (omega arith) (omega arith))
  | inr before ↦ ground (
    arith,
    fill_regions_lem 256 i m n ws (fill_modes n ws lut) (omega arith) (omega arith),
    fill_modes_lem n i m ws lut h (ground arith) (omega arith),
  )
]

region_index_lem : (addr : ℕ) → region_index addr ≡ field 24 8 addr * 4
region_index_lem addr =
    bit_and-mul_pow 2 (addr >>> 22) 0xff
    ∙ ap (λ (t : ℕ). t * 2 ^ 2) (bit_and-mask 8 (addr / 2 ^ 22 / 2 ^ 2))
    ∙ omega arith

-- The mode bits that the masks leave.
masked :
    (crossing : Bool) (mode : ℕ)
    → mode < 4
    → bit_and mode (bit_or 2 (if crossing then 1 else 0))
      ≡ (if crossing then mode else mode / 2 * 2)
masked true mode h = bit_and-mask 2 mode ∙ omega arith
masked false mode h =
    bit_and-mul_pow 1 mode 1
    ∙ ap (λ (t : ℕ). t * 2 ^ 1) (bit_and-mask 1 (mode / 2 ^ 1))
    ∙ omega arith

lookup :
    (i m : ℕ) (ws : WaitStates)
    → i < 256
    → m < 4
    → (regenerate_lut ws).lut (bit_or (i * 4) m) ≡ region_time i (test_bit 0 m) (test_bit 1 m) ws
unfolding regenerate_lut
lookup i m ws h k =
    ap (λ (t : ℕ). fill_modes 4 ws ws.lut t) (bit_or-fields 2 i m k)
    ∙ fill_modes_lem 4 i m ws ws.lut h k (omega arith)

-- After the table is rebuilt, an access takes the time of its region and mode, and one at a 128 KB
-- boundary that of a first access.
pub get_lem :
    (addr mode : ℕ) (ws : WaitStates)
    → mode < 4
    → get addr mode (regenerate_lut ws)
      ≡ region_time
          (field 24 8 addr)
          (test_bit 0 mode && (low_bits 17 addr != 0))
          (test_bit 1 mode)
          ws
unfolding get
get_lem addr mode ws h =
    ap₂ (λ (x y : ℕ). (regenerate_lut ws).lut (bit_or x y)) (region_index_lem addr)
      (masked (low_bits 17 addr != 0) mode h)
    ∙ inside (low_bits 17 addr != 0)
  where
    inside :
        (b : Bool)
        → (regenerate_lut ws).lut (bit_or (field 24 8 addr * 4) (if b then mode else mode / 2 * 2))
          ≡ region_time (field 24 8 addr) (test_bit 0 mode && b) (test_bit 1 mode) ws
    inside true =
        lookup (field 24 8 addr) mode ws (omega arith) h
        ∙ ap (λ (p : Bool). region_time (field 24 8 addr) p (test_bit 1 mode) ws) (ground arith)
    inside false =
        lookup (field 24 8 addr) (mode / 2 * 2) ws (omega arith) (omega arith)
        ∙ ap₂ (λ (p q : Bool). region_time (field 24 8 addr) p q ws) (ground arith) (ground arith)

n_table-range : (k : ℕ) → (3 ≤ n_table k) × (n_table k ≤ 9)
unfolding n_table
n_table-range k = ground arith

-- The waits of a slot are at least 2 and at most 9.
record IsSlot (s : Slot) : Type 0 where
  nonseq_in : (2 ≤ s.nonseq) × (s.nonseq ≤ 9)
  seq_in : (2 ≤ s.seq) × (s.seq ≤ 9)

slot_time-range :
    (s : Slot) (is_seq is_word : Bool)
    → IsSlot s
    → (1 ≤ slot_time s is_seq is_word) × (slot_time s is_seq is_word ≤ 18)
unfolding slot_time
slot_time-range s is_seq is_word v = ground arith

region_time-range :
    (i : ℕ) (is_seq is_word : Bool) (ws : WaitStates)
    → IsSlot ws.prg0
    → IsSlot ws.prg1
    → IsSlot ws.prg2
    → 1 ≤ ws.sram
    → ws.sram ≤ 9
    → (1 ≤ region_time i is_seq is_word ws) × (region_time i is_seq is_word ws ≤ 18)
unfolding region_time
region_time-range i is_seq is_word ws u v w h k = ground (
  arith,
  slot_time-range ws.prg0 is_seq is_word u,
  slot_time-range ws.prg1 is_seq is_word v,
  slot_time-range ws.prg2 is_seq is_word w,
)

-- Whatever the wait control register holds, an access takes between 1 and 18 cycles, so that the
-- callers can take the base cycle off.
pub get-range :
    (addr mode waitcnt : ℕ) (ws : WaitStates)
    → mode < 4
    → let t = get addr mode (write_waitcnt waitcnt ws) in (1 ≤ t) × (t ≤ 18)
unfolding write_waitcnt
get-range addr mode waitcnt ws h = rw (get_lem addr mode _ h) (
    region_time-range (field 24 8 addr) _ _ _
      (slot (field 2 2 waitcnt) (test_bit 4 waitcnt) 3 (omega arith) (omega arith))
      (slot (field 5 2 waitcnt) (test_bit 7 waitcnt) 5 (omega arith) (omega arith))
      (slot (field 8 2 waitcnt) (test_bit 10 waitcnt) 9 (omega arith) (omega arith))
      (omega (arith, n_table-range (low_bits 2 waitcnt))) (n_table-range (low_bits 2 waitcnt)).1)
  where
    slot :
        (k : ℕ) (b : Bool) (slow : ℕ)
        → 2 ≤ slow
        → slow ≤ 9
        → IsSlot (record { nonseq = n_table k; seq = if b then 2 else slow })
    slot k b slow l m = ground (arith, n_table-range k)

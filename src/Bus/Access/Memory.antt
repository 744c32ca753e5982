-- ===== src/Bus/Access/Memory.antt =====
-- The work memories behind the bus.
use gba_eval.Base.{
  ℕ, ◌+◌, ◌%◌, ◌^◌, ◌<◌, ◌==◌, ◌≡◌, Bool, true, arith, ap, ◌∙◌, sym, if◌then◌else◌, field, low_bits,
  u16, some, ◌>>>◌,
}
use gba_eval.DmaMemory.{put_half}
use gba_eval.Ppu.{word_at, align4, align2}
use gba_eval.Bus.{Bus, charge_data}
use gba_eval.Bus.Reads.{bus_read32, read32_inner, read_aligned}
use gba_eval.Bus.Writes.{write16_inner, write_even}
use gba_eval.Bus.Access.{bus_write32}

-- A word stored as two halfwords, read at any word.
abbrev pub put_word : (ℕ → ℕ) → ℕ → ℕ → ℕ → ℕ
put_word m i v = put_half (put_half m i (u16 v)) (i + 2) (u16 (v >>> 16))

pub word-put_word :
    (m : ℕ → ℕ) (i j v : ℕ)
    → i % 4 ≡ 0
    → j % 4 ≡ 0
    → v < 2 ^ 32
    → word_at (put_word m i v) j ≡ (if j == i then v else word_at m j)
word-put_word m i j v hi hj hv = ground arith

-- The two halves of an aligned word lie in its region.
pub halves :
    (r addr : ℕ)
    → field 24 4 addr ≡ r
    → let a = align4 addr in
      (field 24 4 a ≡ r)
      × (field 24 4 (a + 2) ≡ r)
      × (align2 a ≡ a)
      × (align2 (a + 2) ≡ a + 2)
      × (align4 a ≡ a)
halves r addr h = omega arith

pub offsets :
    (addr : ℕ)
    → let a = align4 addr in
      (low_bits 15 (a + 2) ≡ low_bits 15 a + 2)
      × (low_bits 18 (a + 2) ≡ low_bits 18 a + 2)
      × (low_bits 15 a % 4 ≡ 0)
      × (low_bits 18 a % 4 ≡ 0)
offsets addr = omega arith

-- A word of the internal memory.
module _ (fuel addr v : ℕ) (bus : Bus) where
  pub write_iwram :
      field 24 4 addr ≡ 3
      → bus_write32 fuel addr v bus
        ≡ some (record (charge_data (align4 addr) true bus) {
          iwram = put_word bus.iwram (low_bits 15 (align4 addr)) v;
        })
  unfolding bus_write32 write16_inner write_even charge_data
  write_iwram h =
      let (f0, f2, a0, a2, a4) = halves 3 addr h in
      let (o15, o18, m15, m18) = offsets addr in simp (f0, f2, a0, a2, o15)

  write_ewram :
      field 24 4 addr ≡ 2
      → bus_write32 fuel addr v bus
        ≡ some (record (charge_data (align4 addr) true bus) {
          ewram = put_word bus.ewram (low_bits 18 (align4 addr)) v;
        })
  unfolding bus_write32 write16_inner write_even charge_data
  write_ewram h =
      let (f0, f2, a0, a2, a4) = halves 2 addr h in
      let (o15, o18, m15, m18) = offsets addr in simp (f0, f2, a0, a2, o18)

module _ (addr pc : ℕ) (bus : Bus) where
  read_iwram :
      field 24 4 addr ≡ 3
      → (bus_read32 addr pc bus).0 ≡ word_at bus.iwram (low_bits 15 (align4 addr))
  unfolding bus_read32 read32_inner read_aligned charge_data
  read_iwram h = let (f0, f2, a0, a2, a4) = halves 3 addr h in simp f0

  pub read_ewram :
      field 24 4 addr ≡ 2
      → (bus_read32 addr pc bus).0 ≡ word_at bus.ewram (low_bits 18 (align4 addr))
  unfolding bus_read32 read32_inner read_aligned charge_data
  read_ewram h = let (f0, f2, a0, a2, a4) = halves 2 addr h in simp f0

-- Two addresses of one word of a memory of `2 ^ k` bytes.
abbrev pub same_word : ℕ → ℕ → ℕ → Bool
same_word k a b = low_bits k (align4 b) == low_bits k (align4 a)

-- A word that the bus writes to the internal memory is what it reads at any address of that word,
-- aligned or not and in any mirror, and every other word keeps its value; the write never hangs.
pub bus_read32-write32_iwram :
    (fuel addr b pc v : ℕ) (bus : Bus)
    → field 24 4 addr ≡ 3
    → field 24 4 b ≡ 3
    → v < 2 ^ 32
    → (after : Bus) × (bus_write32 fuel addr v bus ≡ some after)
      × ((bus_read32 b pc after).0 ≡ (if same_word 15 addr b then v else (bus_read32 b pc bus).0))
bus_read32-write32_iwram fuel addr b pc v bus ha hb hv =
    let (o15, o18, m15, m18) = offsets addr in
    let (p15, p18, n15, n18) = offsets b in
    let after : Bus = record (charge_data (align4 addr) true bus) {
      iwram = put_word bus.iwram (low_bits 15 (align4 addr)) v;
    } in
    (
      after,
      write_iwram fuel addr v bus ha,
      read_iwram b pc after hb
          ∙ word-put_word bus.iwram (low_bits 15 (align4 addr)) (low_bits 15 (align4 b)) v m15 n15
              hv
          ∙ ap (λ (old : ℕ). if same_word 15 addr b then v else old) (sym (read_iwram b pc bus hb)),
    )

-- The same for the external memory, in its mirrors of 256 KB.
pub bus_read32-write32_ewram :
    (fuel addr b pc v : ℕ) (bus : Bus)
    → field 24 4 addr ≡ 2
    → field 24 4 b ≡ 2
    → v < 2 ^ 32
    → (after : Bus) × (bus_write32 fuel addr v bus ≡ some after)
      × ((bus_read32 b pc after).0 ≡ (if same_word 18 addr b then v else (bus_read32 b pc bus).0))
bus_read32-write32_ewram fuel addr b pc v bus ha hb hv =
    let (o15, o18, m15, m18) = offsets addr in
    let (p15, p18, n15, n18) = offsets b in
    let after : Bus = record (charge_data (align4 addr) true bus) {
      ewram = put_word bus.ewram (low_bits 18 (align4 addr)) v;
    } in
    (
      after,
      write_ewram fuel addr v bus ha,
      read_ewram b pc after hb
          ∙ word-put_word bus.ewram (low_bits 18 (align4 addr)) (low_bits 18 (align4 b)) v m18 n18
              hv
          ∙ ap (λ (old : ℕ). if same_word 18 addr b then v else old) (sym (read_ewram b pc bus hb)),
    )

-- ===== src/Bus/Access/Copy.antt =====
-- A transfer from the external to the internal memory.
use gba_eval.Base.{
  ℕ, zero, suc, ◌+◌, ◌*◌, ◌%◌, ◌^◌, ◌<◌, ◌≤◌, ◌==◌, ◌≡◌, refl, true, false, arith, ap, ap₂, ◌∙◌,
  sym, if◌then◌else◌, field, low_bits, add32,
}
use gba_eval.Ppu.{word_at, align4}
use gba_eval.Bus.{Bus, charge_data}
use gba_eval.Bus.Reads.{bus_read32}
use gba_eval.Bus.Reads.Frame.{IsFramed, bus_read32-frame}
use gba_eval.Bus.Writes.{write16_inner, write_even}
use gba_eval.Bus.Transfers.{transfer_write32, transfer_unit, transfer_units}
use gba_eval.Bus.Access.Memory.{put_word, word-put_word, halves, offsets, read_ewram}

-- What a word written to the internal memory does to both.
iwram-write32 :
    (addr v : ℕ) (bus : Bus)
    → field 24 4 addr ≡ 3
    → (transfer_write32 addr v bus).iwram ≡ put_word bus.iwram (low_bits 15 (align4 addr)) v
unfolding transfer_write32 write16_inner write_even charge_data
iwram-write32 addr v bus h =
    let (f0, f2, a0, a2, a4) = halves 3 addr h in
    let (o15, o18, m15, m18) = offsets addr in simp (f0, f2, a0, a2, o15)

ewram-write32 :
    (addr v : ℕ) (bus : Bus) → field 24 4 addr ≡ 3 → (transfer_write32 addr v bus).ewram ≡ bus.ewram
unfolding transfer_write32 write16_inner write_even charge_data
ewram-write32 addr v bus h =
    let (f0, f2, a0, a2, a4) = halves 3 addr h in
    let (o15, o18, m15, m18) = offsets addr in simp (f0, f2, a0, a2, o15)

dma-write32 :
    (addr v : ℕ) (bus : Bus) → field 24 4 addr ≡ 3 → (transfer_write32 addr v bus).dma ≡ bus.dma
unfolding transfer_write32 write16_inner write_even charge_data
dma-write32 addr v bus h =
    let (f0, f2, a0, a2, a4) = halves 3 addr h in
    let (o15, o18, m15, m18) = offsets addr in simp (f0, f2, a0, a2, o15)

-- One word of a transfer.
module _ (src dst : ℕ) (bus : Bus) (hs : field 24 4 src ≡ 2) (hd : field 24 4 dst ≡ 3) where
  iwram-unit :
      (transfer_unit true src dst bus).iwram
      ≡ put_word bus.iwram (low_bits 15 (align4 dst)) (word_at bus.ewram (low_bits 18 (align4 src)))
  unfolding transfer_unit
  iwram-unit =
      iwram-write32 dst (bus_read32 src 0 bus).0 (bus_read32 src 0 bus).1 hd
      ∙ ap₂ (λ m v. put_word m (low_bits 15 (align4 dst)) v)
          (ap Bus.iwram (IsFramed.same (bus_read32-frame src 0 bus))) (read_ewram src 0 bus hs)

  ewram-unit : (transfer_unit true src dst bus).ewram ≡ bus.ewram
  unfolding transfer_unit
  ewram-unit =
      ewram-write32 dst (bus_read32 src 0 bus).0 (bus_read32 src 0 bus).1 hd
      ∙ ap Bus.ewram (IsFramed.same (bus_read32-frame src 0 bus))

  dma-unit : (transfer_unit true src dst bus).dma ≡ bus.dma
  unfolding transfer_unit
  dma-unit =
      dma-write32 dst (bus_read32 src 0 bus).0 (bus_read32 src 0 bus).1 hd
      ∙ ap Bus.dma (IsFramed.same (bus_read32-frame src 0 bus))

-- The words from `s` of the external memory are in the internal memory from `d` on, and what lies
-- before them is as it was, as are the channels.
pub record IsCopied (n s d : ℕ) (bus after : Bus) : Type 0 where
  pub kept : after.ewram ≡ bus.ewram
  pub channels : after.dma ≡ bus.dma
  pub before : (j : ℕ) → j % 4 ≡ 0 → j < d → word_at after.iwram j ≡ word_at bus.iwram j
  pub moved : (k : ℕ) → k < n → word_at after.iwram (d + k * 4) ≡ word_at bus.ewram (s + k * 4)

unfoldable pub AreBytes : (ℕ → ℕ) → Type 0
AreBytes m = (i : ℕ) → m i < 2 ^ 8

word-bound : (m : ℕ → ℕ) (i : ℕ) → AreBytes m → word_at m i < 2 ^ 32
unfolding AreBytes
word-bound m i h = omega (arith, h i, h (i + 1), h (i + 2), h (i + 3))

module _ (s d : ℕ) (bus : Bus) (hs : s % 4 ≡ 0) (hd : d % 4 ≡ 0) (ls : s + 4 ≤ 2 ^ 18)
    (ld : d + 4 ≤ 2 ^ 15) (bytes : AreBytes bus.ewram) where
  abbrev next : Bus
  next = transfer_unit true (0x0200_0000 + s) (0x0300_0000 + d) bus

  stored : next.iwram ≡ put_word bus.iwram d (word_at bus.ewram s)
  stored =
      let at_s : low_bits 18 (align4 (0x0200_0000 + s)) ≡ s = omega arith in
      let at_d : low_bits 15 (align4 (0x0300_0000 + d)) ≡ d = omega arith in
      iwram-unit (0x0200_0000 + s) (0x0300_0000 + d) bus (omega arith) (omega arith)
      ∙ ap₂ (λ i j. put_word bus.iwram i (word_at bus.ewram j)) at_d at_s

  word-stored :
      (j : ℕ)
      → j % 4 ≡ 0
      → word_at next.iwram j ≡ (if j == d then word_at bus.ewram s else word_at bus.iwram j)
  word-stored j hj =
      ap (λ m. word_at m j) stored
      ∙ word-put_word bus.iwram d j (word_at bus.ewram s) hd hj (word-bound bus.ewram s bytes)

  ewram-stored : next.ewram ≡ bus.ewram
  ewram-stored = ewram-unit (0x0200_0000 + s) (0x0300_0000 + d) bus (omega arith) (omega arith)

  bytes_kept : AreBytes next.ewram
  unfolding AreBytes
  bytes_kept i = rw ewram-stored (bytes i)

  -- The first word, and then the rest of a transfer.
  IsCopied-unit :
      (n : ℕ) {after : Bus} → IsCopied n (s + 4) (d + 4) next after → IsCopied (suc n) s d bus after
  IsCopied-unit n {after} rest = record {
    kept = rest.kept ∙ ewram-stored;
    channels =
        rest.channels
        ∙ dma-unit (0x0200_0000 + s) (0x0300_0000 + d) bus (omega arith) (omega arith);
    before = λ j hj below.
        let other : (j == d) ≡ false = ground arith in
        rest.before j hj (omega (arith, below)) ∙ word-stored j hj ∙ rw other refl;
    moved = λ k hk. moved_at k hk;
  }
    where
      moved_at :
          (k : ℕ) → k < suc n → word_at after.iwram (d + k * 4) ≡ word_at bus.ewram (s + k * 4)
      moved_at zero h =
          let at_d : d + zero * 4 ≡ d = omega arith in
          let at_s : s + zero * 4 ≡ s = omega arith in
          let same : (d == d) ≡ true = ground arith in
          ap (word_at after.iwram) at_d
          ∙ rest.before d hd (omega arith)
          ∙ word-stored d hd
          ∙ rw same (ap (word_at bus.ewram) (sym at_s))
      moved_at (suc k) h =
          let at_d : d + suc k * 4 ≡ d + 4 + k * 4 = omega arith in
          let at_s : s + suc k * 4 ≡ s + 4 + k * 4 = omega arith in
          ap (word_at after.iwram) at_d
          ∙ rest.moved k (omega (arith, h))
          ∙ ap (λ m. word_at m (s + 4 + k * 4)) ewram-stored
          ∙ ap (word_at bus.ewram) (sym at_s)

-- A transfer of `n` aligned words that stays within the two memories copies them.
pub transfer_units-IsCopied :
    (n s d : ℕ) (bus : Bus)
    → s % 4 ≡ 0
    → d % 4 ≡ 0
    → s + n * 4 ≤ 2 ^ 18
    → d + n * 4 ≤ 2 ^ 15
    → AreBytes bus.ewram
    → IsCopied n s d bus (transfer_units n true 4 4 (0x0200_0000 + s) (0x0300_0000 + d) bus).2
unfolding transfer_units
transfer_units-IsCopied zero s d bus hs hd ls ld bytes = record {
  kept = refl;
  channels = refl;
  before = λ j hj below. refl;
  moved = λ k hk. absurd (omega (arith, hk));
}
transfer_units-IsCopied (suc n) s d bus hs hd ls ld bytes =
    let first : s + 4 ≤ 2 ^ 18 = omega arith in
    let second : d + 4 ≤ 2 ^ 15 = omega arith in
    let src : add32 (0x0200_0000 + s) 4 ≡ 0x0200_0000 + (s + 4) = omega arith in
    let dst : add32 (0x0300_0000 + d) 4 ≡ 0x0300_0000 + (d + 4) = omega arith in
    rw (src, dst, transfer_units)
      (IsCopied-unit s d bus hs hd first second bytes n (
        transfer_units-IsCopied n (s + 4) (d + 4) (next s d bus hs hd first second bytes)
          (omega arith) (omega arith) (omega arith) (omega arith)
          (bytes_kept s d bus hs hd first second bytes)))

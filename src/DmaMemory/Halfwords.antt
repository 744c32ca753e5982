-- ===== src/DmaMemory/Halfwords.antt =====
-- A halfword that is written reads back.
use gba_eval.Base.{ℕ, ◌+◌, ◌^◌, ◌<◌, ◌≡◌, arith, inl, inr, field, ◌⊎◌, lt→ltb}
use gba_eval.DmaMemory.{DmaBusAccess, read16, write16, vram_index, half_at, put_half, even_index}

half-put : (m : ℕ → ℕ) (i val : ℕ) → val < 2 ^ 16 → half_at (put_half m i val) i ≡ val
half-put m i val h = ground arith

-- A halfword of work RAM, palette, video or object memory reads back as it was written; of the
-- video memory one inside its length.
pub read16-write16 :
    (addr val : ℕ) (bus : DmaBusAccess)
    → val < 2 ^ 16
    → (field 24 4 addr ≡ 2)
      ⊎ (field 24 4 addr ≡ 3)
      ⊎ (field 24 4 addr ≡ 5)
      ⊎ (field 24 4 addr ≡ 7)
      ⊎ ((field 24 4 addr ≡ 6) × (vram_index addr + 1 < bus.vram_len))
    → read16 addr (write16 addr val bus) ≡ val
unfolding read16 write16
read16-write16 addr val bus h (inl r) = rw r (half-put bus.ewram (even_index 18 addr) val h)
read16-write16 addr val bus h (inr (inl r)) = rw r (half-put bus.iwram (even_index 15 addr) val h)
read16-write16 addr val bus h (inr (inr (inl r))) =
    rw r (half-put bus.palette (even_index 10 addr) val h)
read16-write16 addr val bus h (inr (inr (inr (inl r)))) =
    rw r (half-put bus.oam (even_index 10 addr) val h)
read16-write16 addr val bus h (inr (inr (inr (inr (r, inside))))) =
    let fits = lt→ltb (vram_index addr + 1) bus.vram_len inside in
    rw (r, fits) (rw fits (half-put bus.vram (vram_index addr) val h))

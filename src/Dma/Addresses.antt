-- ===== src/Dma/Addresses.antt =====
-- The addresses that a transfer ends at, and what it leaves in the channel.
use native.Mathlib.Nat.{mul-le-mul}
use gba_eval.Base.{
  ℕ, zero, suc, ◌+◌, ◌*◌, ◌^◌, ◌<◌, ◌≤◌, ◌≡◌, ◌∙◌, ap, ◌==◌, Bool, true, if◌then◌else◌, arith,
  Bool-cases, inl, inr, u32, add32,
}
use gba_eval.DmaMemory.{DmaBusAccess}
use gba_eval.Dma.{
  DmaChannel, channel_enabled, is_32bit, repeat, src_adj, dst_adj, word_size, step_of, copy_unit,
  copy_units, run_dma_transfer,
}

-- The loop's addresses: as many steps as there are units.
copy_units-addresses :
    (n : ℕ) (wide : Bool) (p q src dst : ℕ) (bus : DmaBusAccess)
    → src < 2 ^ 32
    → dst < 2 ^ 32
    → let (s, d, b) = copy_units n wide p q src dst bus in
      (s ≡ u32 (src + n * p)) × (d ≡ u32 (dst + n * q))
unfolding copy_units
copy_units-addresses zero wide p q src dst bus h k = (omega arith, omega arith)
copy_units-addresses (suc n) wide p q src dst bus h k =
    let (e, f) =
      copy_units-addresses n wide p q (add32 src p) (add32 dst q) (copy_unit wide src dst bus)
        (omega arith) (omega arith) in
    (e ∙ next src p, f ∙ next dst q)
  where
    next : (x y : ℕ) → u32 (add32 x y + n * y) ≡ u32 (x + suc n * y)
    next x y = let m : suc n * y ≡ n * y + y = omega arith in omega (arith, m)

-- A transfer of an enabled channel moves the source by one step for each unit, and the destination
-- too unless it is reloaded; it returns the bytes of all units, and the channel goes off unless it
-- repeats. The count is one that the registers can hold.
pub run_dma_transfer-addresses :
    (ch : ℕ) (dma : DmaChannel) (bus : DmaBusAccess)
    → channel_enabled dma ≡ true
    → dma.internal_src < 2 ^ 32
    → dma.internal_dst < 2 ^ 32
    → dma.internal_count ≤ 0x1_0000
    → let (after, bus', moved) = run_dma_transfer ch dma bus in
      let size = word_size dma in
      (after.internal_src
        ≡ u32 (dma.internal_src + dma.internal_count * step_of (src_adj dma) size))
      × (after.internal_dst ≡ (
          if dst_adj dma == 3
          then dma.dst
          else u32 (dma.internal_dst + dma.internal_count * step_of (dst_adj dma) size)))
      × (moved ≡ dma.internal_count * size)
      × (channel_enabled after ≡ repeat dma)
unfolding run_dma_transfer
run_dma_transfer-addresses ch dma bus on h k l =
    let size_in : word_size dma ≤ 4 = ground arith in
    let bytes : u32 (dma.internal_count * word_size dma) ≡ dma.internal_count * word_size dma =
      omega (arith, mul-le-mul l size_in) in
    let (s, d) =
      copy_units-addresses dma.internal_count (is_32bit dma) (step_of (src_adj dma) (word_size dma))
        (step_of (dst_adj dma) (word_size dma)) dma.internal_src dma.internal_dst bus h k in
    elim (Bool-cases (repeat dma)) [
      | inl again ↦
          rw (on, again) (s, ap (λ (x : ℕ). if dst_adj dma == 3 then dma.dst else x) d, bytes, on)
      | inr once ↦
          rw (on, once)
            (s, ap (λ (x : ℕ). if dst_adj dma == 3 then dma.dst else x) d, bytes, ground arith)
    ]

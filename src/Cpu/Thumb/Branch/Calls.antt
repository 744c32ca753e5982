-- ===== src/Cpu/Thumb/Branch/Calls.antt =====
-- A call by the two halves of BL, and the return by BX.
use gba_eval.Base.{
  ℕ, ◌+◌, ◌-◌, ◌*◌, ◌/◌, ◌%◌, ◌^◌, ◌<◌, ◌≡◌, refl, true, arith, ◌∙◌, if◌then◌else◌, ltb, ◌<<<◌,
  test_bit, add32, sub32, u32, set_bit,
}
use gba_eval.Cpu.{Cpu, thumb}
use gba_eval.Cpu.Pipeline.{BusOps, set_reg, flushed}
use gba_eval.Cpu.Pipeline.Refill.{flush_pipeline_lem}
use gba_eval.Cpu.Arm.Branch.{exchange}
use gba_eval.Cpu.Thumb.Branch.{thumb_long_branch, thumb_hireg_bx}

-- The distance of a call from its two fields of eleven bits, as a word.
abbrev pub call_offset : ℕ → ℕ → ℕ
call_offset hi lo =
    (if ltb hi (2 ^ 10) then hi * 2 ^ 12 else hi * 2 ^ 12 + (2 ^ 32 - 2 ^ 23)) + lo * 2

hi_fields :
    (hi : ℕ) → hi < 2 ^ 11 → ((0xf000 + hi) / 2 ^ 11 % 2 ≡ 0) × ((0xf000 + hi) % 2 ^ 11 ≡ hi)
hi_fields hi h = omega arith

lo_fields :
    (lo : ℕ) → lo < 2 ^ 11 → ((0xf800 + lo) / 2 ^ 11 % 2 ≡ 1) × ((0xf800 + lo) % 2 ^ 11 ≡ lo)
lo_fields lo h = omega arith

high_part :
    (pc hi : ℕ)
    → pc < 2 ^ 32
    → hi < 2 ^ 11
    → add32 pc (u32 ((if test_bit 10 hi then hi + 0xffff_f800 else hi) <<< 12))
      ≡ u32 (pc + call_offset hi 0)
high_part pc hi p h = ground arith

module _ {B : Type 0} (ops : BusOps B) where
  first_half :
      (c : Cpu) (b : B) (hi : ℕ)
      → c.r 15 < 2 ^ 32
      → hi < 2 ^ 11
      → thumb_long_branch ops (0xf000 + hi) c b
        ≡ (1, set_reg 14 (u32 (c.r 15 + call_offset hi 0)) c, b)
  unfolding thumb_long_branch
  first_half c b hi p h =
      let (f11, f0) = hi_fields hi h in simp (f11, f0) (rw (high_part (c.r 15) hi p h) refl)

  second_half :
      (c : Cpu) (b : B) (lo : ℕ)
      → lo < 2 ^ 11
      → thumb_long_branch ops (0xf800 + lo) c b
        ≡ flushed ops 3
            (set_reg 14 (set_bit 0 (sub32 (c.r 15) 2)) (set_reg 15 (add32 (c.r 14) (lo * 2)) c))
            b
  unfolding thumb_long_branch
  second_half c b lo h = let (f11, f0) = lo_fields lo h in simp (f11, f0)

  -- `BX LR`
  bx_lr : (c : Cpu) (b : B) → thumb_hireg_bx ops 0x4770 c b ≡ flushed ops 3 (exchange (c.r 14) c) b
  unfolding thumb_hireg_bx
  bx_lr c b = refl

  -- The two halves of a call, the first one's state carried over the step between them.
  pub call : ℕ → ℕ → Cpu → B → Cpu × B
  call hi lo c b =
      let (_, c₁, b₁) = thumb_long_branch ops (0xf000 + hi) c b in
      let (_, c₂, b₂) =
        thumb_long_branch ops (0xf800 + lo) (set_reg 15 (add32 (c₁.r 15) 2) c₁) b₁ in
      (c₂, b₂)

  -- A call goes to the address of the instruction after its first half plus the signed distance,
  -- and links the address after its second half, marked as Thumb; the other registers stay.
  pub call_lem :
      (c : Cpu) (b : B) (hi lo : ℕ)
      → thumb c ≡ true
      → c.r 15 < 2 ^ 32
      → c.r 15 % 2 ≡ 0
      → hi < 2 ^ 11
      → lo < 2 ^ 11
      → let c' = (call hi lo c b).0 in
        (c'.r 15 ≡ add32 (u32 (c.r 15 + call_offset hi lo)) 4)
        × (c'.r 14 ≡ c.r 15 + 1)
        × (c'.cpsr ≡ c.cpsr)
        × ((i : ℕ) → i < 14 → c'.r i ≡ c.r i)
  unfolding call thumb
  call_lem c b hi lo t p a h l =
      rw (first_half c b hi p h, second_half _ b lo l, flush_pipeline_lem ops _ b)
        (rw t (ground arith), ground arith, refl, λ i m. ground arith)

  -- `BX LR` of the callee, whatever else it has done, comes back behind the call in Thumb state.
  pub call-return :
      (c : Cpu) (b b' : B) (hi lo : ℕ) (d : Cpu)
      → thumb c ≡ true
      → c.r 15 < 2 ^ 32
      → c.r 15 % 2 ≡ 0
      → hi < 2 ^ 11
      → lo < 2 ^ 11
      → d.r 14 ≡ (call hi lo c b).0.r 14
      → let d' = (thumb_hireg_bx ops 0x4770 d b').1 in
        (d'.r 15 ≡ add32 (c.r 15) 4) × (thumb d' ≡ true)
  unfolding thumb
  call-return c b b' hi lo d t p a h l link =
      let linked : d.r 14 ≡ c.r 15 + 1 = link ∙ (call_lem c b hi lo t p a h l).1 in
      let odd : test_bit 0 (d.r 14) ≡ true = ground (arith, linked) in
      rw (bx_lr d b', flush_pipeline_lem ops _ b')
        (rw (odd, linked) (ground arith), rw odd (ground arith))

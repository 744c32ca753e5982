-- ===== src/Cpu/Thumb/Expansion/Stack.antt =====
-- PUSH against STMDB.
use gba_eval.Base.{
  ℕ, zero, suc, ◌+◌, ◌*◌, ◌/◌, ◌%◌, ◌^◌, ◌<◌, ◌≤◌, ◌==◌, ◌≡◌, refl, Bool, true, false, arith,
  of_bool, test_bit, if◌then◌else◌, sub32, add32, u32, ap, ◌∙◌, sym, Bool-cases, inl, inr,
}
use native.Mathlib.Nat.{zero-add, suc-add}
use gba_eval.Cpu.{Cpu}
use gba_eval.Cpu.Pipeline.{BusOps, set_reg}
use gba_eval.Cpu.Arm.Block.{transfer_list, arm_block_transfer, count_ones, block_start, block_final}
use gba_eval.Cpu.Thumb.Transfer.{thumb_push_pop}

module _ {B : Type 0} (ops : BusOps B) (load : Bool) where
  -- The rounds depend on the bits of their registers alone.
  rounds-bits :
      (n i r s cur : ℕ) (c : Cpu) (b : B)
      → ((j : ℕ) → i ≤ j → j < i + n → test_bit j r ≡ test_bit j s)
      → transfer_list ops n i load r cur c b ≡ transfer_list ops n i load s cur c b
  unfolding transfer_list
  rounds-bits zero i r s cur c b same = refl
  rounds-bits (suc n) i r s cur c b same =
      rw (same i (omega arith) (omega arith))
        (rounds-bits n (suc i) r s _ _ _ (λ j l h. same j (omega arith) (omega arith)))

  -- Two runs of rounds.
  rounds-append :
      (n m i r cur : ℕ) (c : Cpu) (b : B)
      → transfer_list ops (n + m) i load r cur c b
        ≡ let (cur', c', b') = transfer_list ops n i load r cur c b in
          transfer_list ops m (n + i) load r cur' c' b'
  unfolding transfer_list
  rounds-append zero m i r cur c b = rw (zero-add m, zero-add i) refl
  rounds-append (suc n) m i r cur c b =
      let e : suc n + i ≡ n + suc i = omega arith in
      rw (suc-add n m, e) (rounds-append n m (suc i) r _ _ _)

  -- A round without a register.
  round-none :
      (n i r cur : ℕ) (c : Cpu) (b : B)
      → test_bit i r ≡ false
      → transfer_list ops (suc n) i load r cur c b ≡ transfer_list ops n (suc i) load r cur c b
  unfolding transfer_list
  round-none n i r cur c b e = rw e refl

module _ {B : Type 0} (ops : BusOps B) where
  abbrev stored : ℕ → Cpu → ℕ
  stored i c = if i == 15 then add32 (c.r 15) 4 else c.r i

  -- A round that stores its register.
  round-store :
      (n i r cur : ℕ) (c : Cpu) (b : B)
      → test_bit i r ≡ true
      → transfer_list ops (suc n) i false r cur c b
        ≡ transfer_list ops n (suc i) false r (add32 cur 4) c (ops.write32 cur (stored i c) b)
  unfolding transfer_list
  round-store n i r cur c b e = rw e refl

  -- Stores read the listed registers and change none.
  rounds-store :
      (n i r cur : ℕ) (c d : Cpu) (b : B)
      → i + n ≤ 13
      → ((j : ℕ) → j < 13 → c.r j ≡ d.r j)
      → transfer_list ops n i false r cur c b
        ≡ let (cur', d', b') = transfer_list ops n i false r cur d b in (cur', c, b')
  rounds-store zero i r cur c d b l same = unfold transfer_list in refl
  rounds-store (suc n) i r cur c d b l same = elim (Bool-cases (test_bit i r)) [
    | inl e ↦
        let low : (i == 15) ≡ false = ground arith in
        round-store n i r cur c b e
        ∙ rounds-store n (suc i) r (add32 cur 4) c d (ops.write32 cur (stored i c) b) (omega arith)
            same
        ∙ ap (λ (t : ℕ × Cpu × B). (t.0, c, t.2))
            (ap
                (λ (v : ℕ).
                  transfer_list ops n (suc i) false r (add32 cur 4) d (ops.write32 cur v b))
                (rw (low, same i (omega arith)) refl)
              ∙ sym (round-store n i r cur d b e))
    | inr e ↦
        round-none ops false n i r cur c b e
        ∙ rounds-store n (suc i) r cur c d b (omega arith) same
        ∙ ap (λ (t : ℕ × Cpu × B). (t.0, c, t.2)) (sym (round-none ops false n i r cur d b e))
  ]

-- The registers r0 to r7 of the list, and the link.
pub thumb_push : Bool → ℕ → ℕ
thumb_push lr rlist = 0xb400 + of_bool lr * 2 ^ 8 + rlist

pub arm_push : Bool → ℕ → ℕ
arm_push lr rlist = 0xe92d_0000 + of_bool lr * 2 ^ 14 + rlist

module _ (rl : ℕ) (h : rl < 2 ^ 8) where
  abbrev wide : Bool → ℕ
  wide lr = of_bool lr * 2 ^ 14 + rl

  wide-low : (lr : Bool) (j : ℕ) → j < 8 → test_bit j (wide lr) ≡ test_bit j rl
  wide-low lr j l = by_bit j l lr
    where
      by_bit : (j : ℕ) → j < 8 → (lr : Bool) → test_bit j (wide lr) ≡ test_bit j rl
      by_bit zero l true = ground arith
      by_bit (suc zero) l true = ground arith
      by_bit (suc (suc zero)) l true = ground arith
      by_bit (suc (suc (suc zero))) l true = ground arith
      by_bit (suc (suc (suc (suc zero)))) l true = ground arith
      by_bit (suc (suc (suc (suc (suc zero))))) l true = ground arith
      by_bit (suc (suc (suc (suc (suc (suc zero)))))) l true = ground arith
      by_bit (suc (suc (suc (suc (suc (suc (suc zero))))))) l true = ground arith
      by_bit (suc (suc (suc (suc (suc (suc (suc (suc j)))))))) l true = absurd (omega arith)
      by_bit j l false = ap (λ (t : ℕ). test_bit j t) (omega arith)

  wide-high :
      (lr : Bool)
      → (test_bit 8 (wide lr) ≡ false)
        × (test_bit 9 (wide lr) ≡ false)
        × (test_bit 10 (wide lr) ≡ false)
        × (test_bit 11 (wide lr) ≡ false)
        × (test_bit 12 (wide lr) ≡ false)
        × (test_bit 13 (wide lr) ≡ false)
        × (test_bit 14 (wide lr) ≡ lr)
        × (test_bit 15 (wide lr) ≡ false)
  wide-high true = ground arith
  wide-high false = ground arith

  wide-count : (lr : Bool) → count_ones 16 (wide lr) ≡ count_ones 8 rl + of_bool lr
  unfolding count_ones
  wide-count true = omega arith
  wide-count false = omega arith

  count-le : (n x : ℕ) → count_ones n x ≤ n
  unfolding count_ones
  count-le zero x = omega arith
  count-le (suc n) x = omega (arith, count-le n (x / 2))

  thumb_fields :
      (lr : Bool)
      → let op = thumb_push lr rl in
        (op / 2 ^ 11 % 2 ≡ 0) × (op / 2 ^ 8 % 2 ≡ of_bool lr) × (op % 2 ^ 8 ≡ rl)
  unfolding thumb_push
  thumb_fields true = omega arith
  thumb_fields false = omega arith

  arm_fields :
      (lr : Bool)
      → let op = arm_push lr rl in
        (op / 2 ^ 24 % 2 ≡ 1)
        × (op / 2 ^ 23 % 2 ≡ 0)
        × (op / 2 ^ 22 % 2 ≡ 0)
        × (op / 2 ^ 21 % 2 ≡ 1)
        × (op / 2 ^ 20 % 2 ≡ 0)
        × (op / 2 ^ 16 % 2 ^ 4 ≡ 13)
        × (op % 2 ^ 16 ≡ wide lr)
  unfolding arm_push
  arm_fields true = omega arith
  arm_fields false = omega arith

  module _ {B : Type 0} (ops : BusOps B) where
    abbrev then_link : Bool → ℕ × Cpu × B → ℕ × Cpu × B
    then_link true (cur, c, b) = (add32 cur 4, c, ops.write32 cur (c.r 14) b)
    then_link false s = s

    high_rounds :
        (lr : Bool) (cur : ℕ) (c : Cpu) (b : B)
        → transfer_list ops 8 8 false (wide lr) cur c b ≡ then_link lr (cur, c, b)
    high_rounds lr cur c b =
        let (f8, f9, f10, f11, f12, f13, f14, f15) = wide-high lr in
        round-none ops false 7 8 (wide lr) cur c b f8
        ∙ round-none ops false 6 9 (wide lr) cur c b f9
        ∙ round-none ops false 5 10 (wide lr) cur c b f10
        ∙ round-none ops false 4 11 (wide lr) cur c b f11
        ∙ round-none ops false 3 12 (wide lr) cur c b f12
        ∙ round-none ops false 2 13 (wide lr) cur c b f13
        ∙ link lr f14 f15
      where
        done : (r cur : ℕ) (b : B) → transfer_list ops 0 16 false r cur c b ≡ (cur, c, b)
        done r cur b = unfold transfer_list in refl

        link :
            (lr : Bool)
            → test_bit 14 (wide lr) ≡ lr
            → test_bit 15 (wide lr) ≡ false
            → transfer_list ops 2 14 false (wide lr) cur c b ≡ then_link lr (cur, c, b)
        link true f14 f15 =
            round-store ops 1 14 (wide true) cur c b f14
            ∙ round-none ops false 0 15 (wide true) (add32 cur 4) c (ops.write32 cur (c.r 14) b) f15
            ∙ done (wide true) (add32 cur 4) (ops.write32 cur (c.r 14) b)
        link false f14 f15 =
            round-none ops false 1 14 (wide false) cur c b f14
            ∙ round-none ops false 0 15 (wide false) cur c b f15
            ∙ done (wide false) cur b

    all_rounds :
        (lr : Bool) (cur : ℕ) (c : Cpu) (b : B)
        → transfer_list ops 16 0 false (wide lr) cur c b
          ≡ then_link lr
              (let (cur', d, b') = transfer_list ops 8 0 false rl cur c b in (cur', c, b'))
    all_rounds lr cur c b =
        rounds-append ops false 8 8 0 (wide lr) cur c b
        ∙ high_rounds lr low.0 low.1 low.2
        ∙ ap (then_link lr) (
            rounds-bits ops false 8 0 (wide lr) rl cur c b (λ j l m. wide-low lr j m)
            ∙ rounds-store ops 8 0 rl cur c c b (omega arith) (λ j l. refl))
      where
        low : ℕ × Cpu × B
        low = transfer_list ops 8 0 false (wide lr) cur c b

    -- PUSH of a list that is not empty is STMDB of the stack pointer with the same registers: the
    -- same words at the same addresses, the same stack pointer and the same cycles.
    pub thumb_push-arm_push :
        (lr : Bool) (c : Cpu) (b : B)
        → 0 < count_ones 8 rl + of_bool lr
        → thumb_push_pop ops (thumb_push lr rl) c b ≡ arm_block_transfer ops (arm_push lr rl) c b
    unfolding thumb_push_pop arm_block_transfer block_start block_final
    thumb_push-arm_push true c b some =
        let (t11, t8, t0) = thumb_fields true in
        let (a24, a23, a22, a21, a20, a16, a0) = arm_fields true in
        let count : ℕ = count_ones 8 rl + 1 in
        let bottom : ℕ = sub32 (c.r 13) (count * 4) in
        let listed : (count == 0) ≡ false = ground arith in
        let small : u32 (count * 4) ≡ count * 4 = omega (arith, count-le 8 rl) in
        simp (
          t11,
          t8,
          t0,
          a24,
          a23,
          a22,
          a21,
          a20,
          a16,
          a0,
          wide-count true,
          listed,
          small,
          all_rounds true bottom c b,
          rounds-store ops 8 0 rl bottom (set_reg 13 bottom c) c b (omega arith)
              (λ j l. ground arith),
        )
    thumb_push-arm_push false c b some =
        let (t11, t8, t0) = thumb_fields false in
        let (a24, a23, a22, a21, a20, a16, a0) = arm_fields false in
        let count : ℕ = count_ones 8 rl + 0 in
        let bottom : ℕ = sub32 (c.r 13) (count * 4) in
        let listed : (count == 0) ≡ false = ground arith in
        let small : u32 (count * 4) ≡ count * 4 = omega (arith, count-le 8 rl) in
        simp (
          t11,
          t8,
          t0,
          a24,
          a23,
          a22,
          a21,
          a20,
          a16,
          a0,
          wide-count false,
          listed,
          small,
          all_rounds false bottom c b,
          rounds-store ops 8 0 rl bottom (set_reg 13 bottom c) c b (omega arith)
              (λ j l. ground arith),
        )

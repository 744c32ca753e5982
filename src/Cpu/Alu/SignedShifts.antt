-- ===== src/Cpu/Alu/SignedShifts.antt =====
-- The arithmetic right shift against a shifter that moves by one place at a time.
use native.Mathlib.Nat.{
  one-le-pow, le-div_iff_mul-le, div-lt_iff_lt-mul, add-mul-div_left, pow-suc, mul-sub, div-le_self,
}
use gba_eval.Base.{
  ℕ, zero, suc, ◌+◌, ◌-◌, ◌*◌, ◌/◌, ◌%◌, ◌^◌, ◌<◌, ◌≤◌, ◌≡◌, refl, ◌==◌, ◌!=◌, ltb, Bool, true,
  false, if◌then◌else◌, arith, test_bit, iterate, ap, ◌∙◌, sym, pow-mul-pow, div-pow-suc, inl, inr,
  Bool-cases, ltb→lt,
}
use gba_eval.Cpu.Alu.{asr, imm_amount, asr_word}
use gba_eval.Cpu.Alu.Shifts.{imm_amount-suc}

abbrev pub asr_one : ℕ × Bool → ℕ × Bool
asr_one (v, c) = (v / 2 + v / 2 ^ 31 * 2 ^ 31, test_bit 0 v)

module _ (n v : ℕ) where
  -- A negative word with `n` sign digits in front.
  abbrev signed_digits : ℕ
  signed_digits = v + (2 ^ n - 1) * 2 ^ 32

  quotient_bounds :
      v < 2 ^ 32 → 2 ^ 31 ≤ v → (2 ^ 31 ≤ signed_digits / 2 ^ n) × (signed_digits / 2 ^ n < 2 ^ 32)
  quotient_bounds p neg =
      let one_le = one-le-pow n 2 (omega arith) in
      (
        (le-div_iff_mul-le one_le).1 (omega (arith, one_le)),
        (div-lt_iff_lt-mul one_le).1 (omega (arith, one_le)),
      )

  asr_word-suc : (v + (2 ^ suc n - 1) * 2 ^ 32) / 2 ^ suc n ≡ (signed_digits / 2 ^ n + 2 ^ 32) / 2
  asr_word-suc =
      let one_le = one-le-pow n 2 (omega arith) in
      let split : v + (2 ^ suc n - 1) * 2 ^ 32 ≡ signed_digits + 2 ^ n * 2 ^ 32 =
        omega (arith, pow-suc 2 n, one_le) in
      div-pow-suc (v + (2 ^ suc n - 1) * 2 ^ 32) n
      ∙ ap (λ (t : ℕ). t / 2 ^ n / 2) split
      ∙ ap (λ (t : ℕ). t / 2) (add-mul-div_left signed_digits (2 ^ 32) one_le)

asr_word-step :
    (n v : ℕ) → v < 2 ^ 32 → asr_word v (suc n) ≡ asr_word v n / 2 + asr_word v n / 2 ^ 31 * 2 ^ 31
asr_word-step n v p = elim (Bool-cases (ltb v (2 ^ 31))) [
  | inl low ↦ positive (ltb→lt _ _ low)
  | inr high ↦ negative (ground arith)
]
  where
    positive : v < 2 ^ 31 → asr_word v (suc n) ≡ asr_word v n / 2 + asr_word v n / 2 ^ 31 * 2 ^ 31
    positive h = ground (arith, div-pow-suc v n, div-le_self v (2 ^ n))

    negative : 2 ^ 31 ≤ v → asr_word v (suc n) ≡ asr_word v n / 2 + asr_word v n / 2 ^ 31 * 2 ^ 31
    negative h = ground (arith, quotient_bounds n v p h, asr_word-suc n v)

-- The sign fill that a shift by 32 and more gives is the word of a shift by 32.
asr_word-32 : (v : ℕ) → v < 2 ^ 32 → asr_word v 32 ≡ (if (v / 2 ^ 31) != 0 then 0xffff_ffff else 0)
asr_word-32 v p = ground arith

-- The sign digits in front do not reach the lowest digit before 32 places.
asr_word-digit : (n v : ℕ) → v < 2 ^ 32 → n ≤ 31 → asr_word v n % 2 ≡ v / 2 ^ n % 2
asr_word-digit n v p h =
    let one_le = one-le-pow n 2 (omega arith) in
    let k : n + (31 - n) ≡ 31 = omega arith in
    let whole : 2 ^ n * 2 ^ (31 - n) ≡ 2 ^ 31 = pow-mul-pow n (31 - n) ∙ ap (λ (t : ℕ). 2 ^ t) k in
    let rest : ℕ = 2 ^ 31 - 2 ^ (31 - n) in
    let product : 2 ^ n * rest ≡ 2 ^ n * 2 ^ 31 - 2 ^ 31 =
      mul-sub (2 ^ n) (2 ^ 31) (2 ^ (31 - n)) ∙ ap (λ (t : ℕ). 2 ^ n * 2 ^ 31 - t) whole in
    let even : signed_digits n v ≡ v + 2 ^ n * (2 * rest) = omega (arith, product, one_le) in
    let quotient : signed_digits n v / 2 ^ n ≡ v / 2 ^ n + 2 * rest =
      ap (λ (t : ℕ). t / 2 ^ n) even ∙ add-mul-div_left v (2 * rest) one_le in
    ground (arith, quotient, quotient_bounds n v p)

asr-low :
    (n v : ℕ) (c : Bool)
    → n ≤ 30
    → asr v (suc n) c false ≡ (asr_word v (suc n), (v / 2 ^ n % 2) == 1)
unfolding asr
asr-low n v c h =
    let less : suc n - 1 ≡ n = omega arith in ground (arith, ap (λ (t : ℕ). v / 2 ^ t) less)

asr-high :
    (n v : ℕ) (c : Bool)
    → 31 ≤ n
    → asr v (suc n) c false ≡ (if (v / 2 ^ 31) != 0 then 0xffff_ffff else 0, (v / 2 ^ 31) != 0)
unfolding asr
asr-high n v c h = ground arith

asr-suc : (n v : ℕ) (c : Bool) → v < 2 ^ 32 → asr v (suc n) c false ≡ asr_one (asr v n c false)
asr-suc zero v c p = unfold asr in ground (arith, asr_word-step 0 v p)
asr-suc (suc m) v c p = elim (Bool-cases (ltb m 30)) [
  | inl below ↦ ground (
    arith,
    asr-low m v c,
    asr-low (suc m) v c,
    asr_word-step (suc m) v p,
    asr_word-digit (suc m) v p,
  )
  | inr above ↦ elim (Bool-cases (m == 30)) [
    | inl last ↦ ground (
      arith,
      asr-low m v c,
      asr-high (suc m) v c,
      asr_word-step (suc m) v p,
      asr_word-digit (suc m) v p,
      asr_word-32 v p,
    )
    | inr past ↦ ground (arith, asr-high m v c, asr-high (suc m) v c)
  ]
]

asr_iterated_reg :
    (v amt : ℕ) (c : Bool) → v < 2 ^ 32 → asr v amt c false ≡ iterate amt asr_one (v, c)
asr_iterated_reg v zero c p = unfold asr in refl
asr_iterated_reg v (suc n) c p = asr-suc n v c p ∙ ap asr_one (asr_iterated_reg v n c p)

-- An arithmetic right shift by any amount is that many shifts by one place that copy the sign,
-- the carry included; an immediate 0 counts as 32.
pub asr_iterated :
    (v amt : ℕ) (c imm : Bool)
    → v < 2 ^ 32
    → asr v amt c imm ≡ iterate (imm_amount imm amt) asr_one (v, c)
asr_iterated v zero c true p = shift_32 ∙ asr_iterated_reg v 32 c p
  where
    shift_32 : asr v 0 c true ≡ asr v 32 c false
    shift_32 = unfold asr in refl
asr_iterated v (suc n) c true p =
    same
    ∙ asr_iterated_reg v (suc n) c p
    ∙ ap (λ (k : ℕ). iterate k asr_one (v, c)) (sym (imm_amount-suc n))
  where
    same : asr v (suc n) c true ≡ asr v (suc n) c false
    same = unfold asr in ground arith
asr_iterated v amt c false p = asr_iterated_reg v amt c p

-- ===== src/Cpu/Alu/Compare.antt =====
-- What the condition codes say after a comparison: `alu_sub_setflags` and `check_cond` together.
use gba_eval.Base.{
  ℕ, ◌/◌, ◌^◌, ◌<◌, ◌≡◌, ◌==◌, ◌!=◌, ◌&&◌, ◌||◌, not, leb, ltb, Bool, arith, test_bit, not32, sub32,
  signed32, leb_ℤ, ltb_ℤ, ap, ap₂, ◌∙◌,
}
use gba_eval.Cpu.{Cpu, check_cond, set_nz, n_bit, z_bit, c_bit, v_bit}
use gba_eval.Cpu.Alu.{alu_sub_setflags, sub_flags, set_flags}
use gba_eval.Cpu.Alu.Sums.{overflow_signs, sub_flags_lem}

-- The four flags after an arithmetic operation.
module _ (r : ℕ) (c v : Bool) (cpu : Cpu) where
  abbrev flags_after : Cpu
  flags_after = (set_flags (r, c, v) cpu).1

  n_after : test_bit n_bit flags_after.cpsr ≡ test_bit 31 r
  unfolding set_flags set_nz
  n_after = ground arith

  z_after : test_bit z_bit flags_after.cpsr ≡ (r == 0)
  unfolding set_flags set_nz
  z_after = ground arith

  c_after : test_bit c_bit flags_after.cpsr ≡ c
  unfolding set_flags set_nz
  c_after = ground arith

  v_after : test_bit v_bit flags_after.cpsr ≡ v
  unfolding set_flags set_nz
  v_after = ground arith

abbrev compared : ℕ → ℕ → Cpu → Cpu
compared a b cpu = (alu_sub_setflags a b cpu).1

-- The flags after `CMP a, b` in terms of the two words.
record Compared (a b : ℕ) (f : Cpu) : Type 0 where
  n_flag : test_bit n_bit f.cpsr ≡ test_bit 31 (sub32 a b)
  z_flag : test_bit z_bit f.cpsr ≡ (a == b)
  c_flag : test_bit c_bit f.cpsr ≡ leb b a
  v_flag :
      test_bit v_bit f.cpsr ≡ ((a / 2 ^ 31 != b / 2 ^ 31) && (a / 2 ^ 31 != sub32 a b / 2 ^ 31))

compare_flags : (a b : ℕ) (cpu : Cpu) → a < 2 ^ 32 → b < 2 ^ 32 → Compared a b (compared a b cpu)
compare_flags a b cpu p q =
    let s = sub_flags a b 1 in
    let sub = sub_flags_lem a b p q in
    unfold alu_sub_setflags in
    record {
      n_flag = n_after s.0 s.1 s.2 cpu ∙ ap (λ (r : ℕ). test_bit 31 r) sub.0;
      z_flag = z_after s.0 s.1 s.2 cpu ∙ ap (λ (r : ℕ). r == 0) sub.0 ∙ zero_difference;
      c_flag = c_after s.0 s.1 s.2 cpu ∙ sub.1;
      v_flag = v_after s.0 s.1 s.2 cpu ∙ overflow;
    }
  where
    zero_difference : (sub32 a b == 0) ≡ (a == b)
    zero_difference = ground arith

    overflow :
        (sub_flags a b 1).2 ≡ ((a / 2 ^ 31 != b / 2 ^ 31) && (a / 2 ^ 31 != sub32 a b / 2 ^ 31))
    overflow = unfold sub_flags in overflow_signs a (not32 b) 1 p (omega arith) ∙ ground arith

-- N equal to V is the signed order.
n_is_v :
    (a b : ℕ) (n v : Bool)
    → a < 2 ^ 32
    → b < 2 ^ 32
    → n ≡ test_bit 31 (sub32 a b)
    → v ≡ ((a / 2 ^ 31 != b / 2 ^ 31) && (a / 2 ^ 31 != sub32 a b / 2 ^ 31))
    → (n && v || not n && not v) ≡ leb_ℤ (signed32 b) (signed32 a)
n_is_v a b n v p q e d = ground arith

not-leb : (x y : ℕ) → not (leb x y) ≡ ltb y x
not-leb x y = ground arith

-- Equality or the strict order make the weak order; the words are equal when their numbers are.
signed_le :
    (a b : ℕ)
    → a < 2 ^ 32
    → b < 2 ^ 32
    → ((a == b) || not (leb_ℤ (signed32 b) (signed32 a))) ≡ leb_ℤ (signed32 a) (signed32 b)
signed_le a b p q = ground arith

-- The ten comparisons that a program asks for after `CMP a, b`.
pub record Decides (a b : ℕ) (f : Cpu) : Type 0 where
  pub eq : check_cond 0x0 f ≡ (a == b)
  pub ne : check_cond 0x1 f ≡ (a != b)
  pub hs : check_cond 0x2 f ≡ leb b a
  pub lo : check_cond 0x3 f ≡ ltb a b
  pub hi : check_cond 0x8 f ≡ ltb b a
  pub ls : check_cond 0x9 f ≡ leb a b
  pub ge : check_cond 0xa f ≡ leb_ℤ (signed32 b) (signed32 a)
  pub lt : check_cond 0xb f ≡ ltb_ℤ (signed32 a) (signed32 b)
  pub gt : check_cond 0xc f ≡ ltb_ℤ (signed32 b) (signed32 a)
  pub le : check_cond 0xd f ≡ leb_ℤ (signed32 a) (signed32 b)

-- After `CMP a, b` on two words the condition codes decide equality, the unsigned order and the
-- signed order of the two, whatever the flags were before.
pub compare-Decides :
    (a b : ℕ) (cpu : Cpu) → a < 2 ^ 32 → b < 2 ^ 32 → Decides a b (alu_sub_setflags a b cpu).1
compare-Decides a b cpu p q =
    let f = compare_flags a b cpu p q in
    let signed = n_is_v a b _ _ p q f.n_flag f.v_flag in
    unfold check_cond in
    record {
      eq = f.z_flag;
      ne = ap not f.z_flag ∙ ground arith;
      hs = f.c_flag;
      lo = ap not f.c_flag ∙ not-leb b a;
      hi = ap₂ (λ c z. c && not z) f.c_flag f.z_flag ∙ ground arith;
      ls = ap₂ (λ c z. not c || z) f.c_flag f.z_flag ∙ ground arith;
      ge = signed;
      lt = ap not signed ∙ not-leb _ _;
      gt = ap₂ (λ z s. not z && s) f.z_flag signed ∙ ground arith;
      le = ap₂ (λ z s. z || not s) f.z_flag signed ∙ signed_le a b p q;
    }

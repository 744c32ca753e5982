-- ===== src/Cpu/Thumb/Expansion/Loads.antt =====
-- Loads and stores with an immediate offset.
use gba_eval.Base.{ℕ, ◌+◌, ◌*◌, ◌/◌, ◌%◌, ◌^◌, ◌<◌, ◌==◌, ◌≡◌, Bool, true, false, arith, of_bool}
use gba_eval.Cpu.{Cpu}
use gba_eval.Cpu.Pipeline.{BusOps}
use gba_eval.Cpu.Arm.Transfer.{arm_single_transfer, transfer_offset}
use gba_eval.Cpu.Thumb.Transfer.{thumb_load_store_imm}

-- LDR, STR, LDRB and STRB of Rd at Rb and an offset.
abbrev scaled : Bool → ℕ → ℕ
scaled true off = off
scaled false off = off * 4

pub thumb_ldr : Bool → Bool → ℕ → ℕ → ℕ → ℕ
thumb_ldr byte load off rb rd =
    0x6000 + of_bool byte * 2 ^ 12 + of_bool load * 2 ^ 11 + off * 2 ^ 6 + rb * 2 ^ 3 + rd

pub arm_ldr : Bool → Bool → ℕ → ℕ → ℕ → ℕ
arm_ldr byte load off rb rd =
    0xe580_0000
    + of_bool byte * 2 ^ 22
    + of_bool load * 2 ^ 20
    + rb * 2 ^ 16
    + rd * 2 ^ 12
    + scaled byte off

module _ (off rb rd : ℕ) (h1 : off < 32) (h2 : rb < 8) (h3 : rd < 8) where
  thumb_fields :
      (byte load : Bool)
      → let op = thumb_ldr byte load off rb rd in
        (op / 2 ^ 12 % 2 ≡ of_bool byte)
        × (op / 2 ^ 11 % 2 ≡ of_bool load)
        × (op / 2 ^ 6 % 2 ^ 5 ≡ off)
        × (op / 2 ^ 3 % 2 ^ 3 ≡ rb)
        × (op % 2 ^ 3 ≡ rd)
  unfolding thumb_ldr
  thumb_fields true true = omega arith
  thumb_fields true false = omega arith
  thumb_fields false true = omega arith
  thumb_fields false false = omega arith

  arm_fields :
      (byte load : Bool)
      → let op = arm_ldr byte load off rb rd in
        (op / 2 ^ 25 % 2 ≡ 0)
        × (op / 2 ^ 24 % 2 ≡ 1)
        × (op / 2 ^ 23 % 2 ≡ 1)
        × (op / 2 ^ 22 % 2 ≡ of_bool byte)
        × (op / 2 ^ 21 % 2 ≡ 0)
        × (op / 2 ^ 20 % 2 ≡ of_bool load)
        × (op / 2 ^ 16 % 2 ^ 4 ≡ rb)
        × (op / 2 ^ 12 % 2 ^ 4 ≡ rd)
        × (op % 2 ^ 12 ≡ scaled byte off)
  unfolding arm_ldr
  arm_fields true true = omega arith
  arm_fields true false = omega arith
  arm_fields false true = omega arith
  arm_fields false false = omega arith

  low_register : (rd == 15) ≡ false
  low_register = ground arith

  module _ {B : Type 0} (ops : BusOps B) (c : Cpu) (b : B) where
    -- The four loads and stores with an immediate offset do what the ARM instructions of the same
    -- registers and offset do, to the processor, the bus and the cycle count.
    pub thumb_ldr-arm_ldr :
        (byte load : Bool)
        → thumb_load_store_imm ops (thumb_ldr byte load off rb rd) c b
          ≡ arm_single_transfer ops (arm_ldr byte load off rb rd) c b
    unfolding thumb_load_store_imm arm_single_transfer transfer_offset
    thumb_ldr-arm_ldr true true =
        let (t12, t11, t6, t3, t0) = thumb_fields true true in
        let (a25, a24, a23, a22, a21, a20, a16, a12, a0) = arm_fields true true in
        simp (t12, t11, t6, t3, t0, a25, a24, a23, a22, a21, a20, a16, a12, a0, low_register)
    thumb_ldr-arm_ldr true false =
        let (t12, t11, t6, t3, t0) = thumb_fields true false in
        let (a25, a24, a23, a22, a21, a20, a16, a12, a0) = arm_fields true false in
        simp (t12, t11, t6, t3, t0, a25, a24, a23, a22, a21, a20, a16, a12, a0, low_register)
    thumb_ldr-arm_ldr false true =
        let (t12, t11, t6, t3, t0) = thumb_fields false true in
        let (a25, a24, a23, a22, a21, a20, a16, a12, a0) = arm_fields false true in
        simp (t12, t11, t6, t3, t0, a25, a24, a23, a22, a21, a20, a16, a12, a0, low_register)
    thumb_ldr-arm_ldr false false =
        let (t12, t11, t6, t3, t0) = thumb_fields false false in
        let (a25, a24, a23, a22, a21, a20, a16, a12, a0) = arm_fields false false in
        simp (t12, t11, t6, t3, t0, a25, a24, a23, a22, a21, a20, a16, a12, a0, low_register)

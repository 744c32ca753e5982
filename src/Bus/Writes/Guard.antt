-- ===== src/Bus/Writes/Guard.antt =====
-- The guard of a running transfer.
use gba_eval.Base.{
  ℕ, ◌==◌, ◌&&◌, ◌≡◌, refl, Bool, true, false, arith, if◌then◌else◌, leb, field, low_bits,
  Bool-cases, inl, inr,
}
use gba_eval.Io.Registers.{io_register}
use gba_eval.Ppu.{align2}
use gba_eval.Bus.{Bus, on_waitcnt_write}
use gba_eval.Bus.Writes.{Written, write16_inner, write_even, write_register, write_rom, write_io}

-- A write that starts nothing and leaves the guard on.
pub record IsQuiet (p : Written) : Type 0 where
  pub idle : p.1 ≡ false
  pub guarded : p.0.dma_running ≡ true

either : (b : Bool) {x y : Written} → IsQuiet x → IsQuiet y → IsQuiet (if b then x else y)
either true p q = p
either false p q = q

module _ (bus : Bus) (running : bus.dma_running ≡ true) where
  io_kept : (addr val : ℕ) → (write_io addr val bus).dma_running ≡ true
  unfolding write_io on_waitcnt_write
  io_kept addr val = elim (Bool-cases (io_register addr == 0x204)) [
    | inl e ↦ rw e running
    | inr e ↦ rw e running
  ]

  rom_kept : (region addr val : ℕ) → (write_rom region addr val bus).dma_running ≡ true
  unfolding write_rom
  rom_kept region addr val = ground arith

  register_IsQuiet : (addr val : ℕ) → IsQuiet (write_register addr val bus)
  unfolding write_register
  register_IsQuiet addr val =
      either (leb 0x0800 (low_bits 16 addr)) (record { idle = refl; guarded = running })
        (either (leb 0x0b0 reg && leb reg 0x0de) (record { idle = ground arith; guarded = running })
          (either (leb 0x020 reg && leb reg 0x03f) (record { idle = refl; guarded = running })
            (either (leb 0x040 reg && leb reg 0x054) (record { idle = refl; guarded = running })
              (either (leb 0x060 reg && leb reg 0x0a6) (record { idle = refl; guarded = running })
                (either (leb 0x100 reg && leb reg 0x10e) (record { idle = refl; guarded = running })
                  (record { idle = refl; guarded = io_kept addr val }))))))
    where
      reg : ℕ
      reg = io_register addr

  pub write16_inner-IsQuiet : (addr val : ℕ) → IsQuiet (write16_inner addr val bus)
  unfolding write16_inner write_even
  write16_inner-IsQuiet addr val =
      either (region == 0x2) (record { idle = refl; guarded = running })
        (either (region == 0x3) (record { idle = refl; guarded = running })
          (either (region == 0x4) (register_IsQuiet (align2 addr) val) (
            either (region == 0x5) (record { idle = refl; guarded = running })
              (either (region == 0x6) (record { idle = refl; guarded = running })
                (either (region == 0x7) (record { idle = refl; guarded = running })
                  (either (leb 0x8 region && leb region 0xd)
                    (record { idle = refl; guarded = rom_kept region (align2 addr) val })
                    (either (leb 0xe region) (record { idle = refl; guarded = running })
                      (record { idle = refl; guarded = running }))))))))
    where
      region : ℕ
      region = field 24 4 (align2 addr)

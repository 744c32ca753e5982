-- ===== src/Bus/Reads/Protection.antt =====
-- The BIOS behind its latch.
use gba_eval.Base.{
  ℕ, ◌≤◌, ◌==◌, ◌≡◌, refl, Bool, true, false, arith, if◌then◌else◌, ltb, leb, field, low_bits, ap,
  ◌*◌, ◌/◌, u8, u16, ◌>>>◌,
}
use gba_eval.Ppu.{align2, align4}
use gba_eval.Bus.{Bus, charge_data, charge_code}
use gba_eval.Bus.Reads.{
  bus_read32, bus_read16, bus_read8, fetch16, fetch32, read32_inner, read_aligned, read_bios,
  read_rom, read_io16, at_eeprom, drive,
}

-- The same result, on the bus with another BIOS.
pub record IsBlind (m : ℕ → ℕ) (p q : ℕ × Bus) : Type 0 where
  pub same : q ≡ (p.0, record p.1 { bios = m })

module _ (m : ℕ → ℕ) (bus : Bus) where
  either :
      (b : Bool) {x x' y y' : ℕ × Bus}
      → IsBlind m x x'
      → IsBlind m y y'
      → IsBlind m (if b then x else y) (if b then x' else y')
  either true p q = p
  either false p q = q

  abbrev other : Bus
  other = record bus { bios = m }

  read_bios-IsBlind :
      (addr pc : ℕ) → 0x4000 ≤ pc → IsBlind m (read_bios addr pc bus) (read_bios addr pc other)
  unfolding read_bios
  read_bios-IsBlind addr pc h =
      let outside : ltb pc 0x4000 ≡ false = ground arith in
      rw outside (either (ltb addr 0x4000) (record { same = refl }) (record { same = refl }))

  driven : (v : ℕ) → IsBlind m (drive v bus) (drive v other)
  driven v = record { same = refl }

  pub read_aligned-IsBlind :
      (addr pc : ℕ)
      → 0x4000 ≤ pc
      → IsBlind m (read_aligned addr pc bus) (read_aligned addr pc other)
  unfolding read_aligned read_rom read_io16
  read_aligned-IsBlind addr pc h = either (leb region 0x1) (read_bios-IsBlind addr pc h) (
      either (region == 0x2) (driven _) (
        either (region == 0x3) (driven _) (
          either (region == 0x4) (record { same = refl })
            (either (region == 0x5) (driven _) (
              either (region == 0x6) (driven _) (
                either (region == 0x7) (driven _) (
                  either (leb region 0xd)
                    (either (at_eeprom region (low_bits 25 addr) bus) (record { same = refl })
                      (driven _))
                    (record { same = refl }))))))))
    where
      region : ℕ
      region = field 24 4 addr

read32_inner-IsBlind :
    (m : ℕ → ℕ) (bus : Bus) (addr pc : ℕ)
    → 0x4000 ≤ pc
    → IsBlind m (read32_inner addr pc bus) (read32_inner addr pc (record bus { bios = m }))
unfolding read32_inner
read32_inner-IsBlind m bus addr pc h = read_aligned-IsBlind m bus (align4 addr) pc h

-- A part of the word that is read.
part-IsBlind :
    (m : ℕ → ℕ) (f : ℕ → ℕ) {p q : ℕ × Bus} → IsBlind m p q → IsBlind m (f p.0, p.1) (f q.0, q.1)
part-IsBlind m f {p} {q} b = record { same = ap (λ (t : ℕ × Bus). (f t.0, t.1)) b.same }

-- An instruction outside the BIOS cannot see it: a word, a halfword or a byte that it reads with its
-- program counter from 0x4000 on, at any address, and an opcode that is fetched from 0x4000 on, are
-- the same and leave the same state, whatever the BIOS holds. (A transfer reads with the program
-- counter 0, and is not meant.)
pub reads-IsBlind :
    (m : ℕ → ℕ) (bus : Bus) (addr pc : ℕ)
    → 0x4000 ≤ pc
    → IsBlind m (bus_read32 addr pc bus) (bus_read32 addr pc (record bus { bios = m }))
      × IsBlind m (bus_read16 addr pc bus) (bus_read16 addr pc (record bus { bios = m }))
      × IsBlind m (bus_read8 addr pc bus) (bus_read8 addr pc (record bus { bios = m }))
      × IsBlind m (fetch32 pc bus) (fetch32 pc (record bus { bios = m }))
      × IsBlind m (fetch16 pc bus) (fetch16 pc (record bus { bios = m }))
unfolding bus_read32 bus_read16 bus_read8 fetch32 fetch16 charge_data charge_code
reads-IsBlind m bus addr pc h =
    let far : 0x4000 ≤ align4 pc = omega arith in
    let even : 0x4000 ≤ align2 pc = omega arith in
    (
      read32_inner-IsBlind m (charge_data (align4 addr) true bus) addr pc h,
      part-IsBlind m (λ v. u16 (v >>> (low_bits 2 addr / 2 * 2 * 8)))
          (read32_inner-IsBlind m (charge_data (align2 addr) false bus) addr pc h),
      either m bus (leb 0xe (field 24 4 addr)) (record { same = refl })
          (part-IsBlind m (λ v. u8 (v >>> (low_bits 2 addr * 8)))
            (read32_inner-IsBlind m (charge_data addr false bus) addr pc h)),
      read32_inner-IsBlind m (charge_code (align4 pc) true bus) (align4 pc) (align4 pc) far,
      part-IsBlind m (λ v. u16 (v >>> (low_bits 2 (align2 pc) / 2 * 2 * 8)))
          (read32_inner-IsBlind m (charge_code (align2 pc) false bus) (align2 pc) (align2 pc) even),
    )

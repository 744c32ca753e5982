-- ===== src/Bus/Reads/Frame.antt =====
-- What a read leaves alone: all but the open bus, the BIOS latch, the save media and the cycles.
use gba_eval.Base.{
  ℕ, ◌==◌, ◌≡◌, refl, Bool, true, false, if◌then◌else◌, ltb, leb, field, low_bits, Bool-cases, inl,
  inr,
}
use gba_eval.Ppu.{align2, align4}
use gba_eval.Bus.{Bus, charge_data}
use gba_eval.Bus.Reads.{
  bus_read16, bus_read32, read32_inner, read_aligned, read_bios, at_eeprom, drive,
}

abbrev pub framed : Bus → Bus → Bus
framed bus after = record bus {
  open_bus = after.open_bus;
  bios_last_fetch = after.bios_last_fetch;
  save = after.save;
  pending_extra_cycles = after.pending_extra_cycles;
  code_sequential = after.code_sequential;
}

bios_frame :
    (addr pc : ℕ) (bus : Bus) → (read_bios addr pc bus).1 ≡ framed bus (read_bios addr pc bus).1
unfolding read_bios
bios_frame addr pc bus = elim (Bool-cases (ltb addr 0x4000)) [
  | inl low ↦ elim (Bool-cases (ltb pc 0x4000)) [
    | inl own ↦ rw (low, own) refl
    | inr other ↦ rw (low, other) refl
  ]
  | inr high ↦ rw high refl
]

pub record IsFramed (bus : Bus) (p : ℕ × Bus) : Type 0 where
  pub same : p.1 ≡ framed bus p.1

module _ (bus : Bus) where
  either :
      (b : Bool) {x y : ℕ × Bus}
      → IsFramed bus x
      → IsFramed bus y
      → IsFramed bus (if b then x else y)
  either true p q = p
  either false p q = q

  driven : (v : ℕ) → IsFramed bus (drive v bus)
  driven v = record { same = refl }

  pub read_aligned-frame : (addr pc : ℕ) → IsFramed bus (read_aligned addr pc bus)
  unfolding read_aligned
  read_aligned-frame addr pc =
      either (leb region 0x1) (record { same = bios_frame addr pc bus })
        (either (region == 0x2) (driven _) (
          either (region == 0x3) (driven _) (
            either (region == 0x4) (driven _) (
              either (region == 0x5) (driven _) (
                either (region == 0x6) (driven _) (
                  either (region == 0x7) (driven _) (
                    either (leb region 0xd)
                      (either (at_eeprom region (low_bits 25 addr) bus) (record { same = refl })
                        (driven _))
                      (record { same = refl }))))))))
    where
      region : ℕ
      region = field 24 4 addr

pub bus_read32-frame : (addr pc : ℕ) (bus : Bus) → IsFramed bus (bus_read32 addr pc bus)
unfolding bus_read32 read32_inner charge_data
bus_read32-frame addr pc bus = record {
  same = IsFramed.same (read_aligned-frame (charge_data (align4 addr) true bus) (align4 addr) pc);
}

pub bus_read16-frame : (addr pc : ℕ) (bus : Bus) → IsFramed bus (bus_read16 addr pc bus)
unfolding bus_read16 read32_inner charge_data
bus_read16-frame addr pc bus = record {
  same = IsFramed.same (read_aligned-frame (charge_data (align2 addr) false bus) (align4 addr) pc);
}

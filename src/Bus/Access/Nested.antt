-- ===== src/Bus/Access/Nested.antt =====
-- The writes of a transfer.
use gba_eval.Base.{ℕ, ◌+◌, ◌≡◌, refl, true, false, some, u16, ◌>>>◌, Bool-cases, inl, inr}
use gba_eval.Ppu.{align2, align4}
use gba_eval.Bus.{Bus, charge_data}
use gba_eval.Bus.Writes.{write16_inner, at_fifo}
use gba_eval.Bus.Writes.Guard.{IsQuiet, write16_inner-IsQuiet}
use gba_eval.Bus.Transfers.{transfer_write16, transfer_write32}
use gba_eval.Bus.Access.{bus_write16, bus_write32}

-- A halfword starts no other transfer while one runs.
pub bus_write16-transfer :
    (fuel addr val : ℕ) (bus : Bus)
    → bus.dma_running ≡ true
    → bus_write16 fuel addr val bus ≡ some (transfer_write16 addr val bus)
unfolding bus_write16 transfer_write16 charge_data
bus_write16-transfer fuel addr val bus running =
    let quiet = write16_inner-IsQuiet (charge_data (align2 addr) false bus) running addr val in
    rw (IsQuiet.idle quiet) refl

-- While a transfer runs, no word that is written starts another transfer, wherever it goes: the write
-- of its two halves, or of the word into a sound queue, needs no fuel and ends as the plain store.
pub bus_write32-transfer :
    (fuel addr val : ℕ) (bus : Bus)
    → bus.dma_running ≡ true
    → bus_write32 fuel addr val bus ≡ some (transfer_write32 addr val bus)
unfolding bus_write32 transfer_write32 charge_data
bus_write32-transfer fuel addr val bus running = elim (Bool-cases (at_fifo (align4 addr))) [
  | inl e ↦ rw e refl
  | inr e ↦
      let charged = charge_data (align4 addr) true bus in
      let low = write16_inner-IsQuiet charged running (align4 addr) (u16 val) in
      let high =
        write16_inner-IsQuiet (write16_inner (align4 addr) (u16 val) charged).0
          (IsQuiet.guarded low) (align4 addr + 2) (u16 (val >>> 16)) in
      rw (e, IsQuiet.idle low, IsQuiet.idle high) refl
]

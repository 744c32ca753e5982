-- ===== src/Io/Registers.antt =====
-- The register file of the picture unit and the interrupt control: candidates/gba-core/src/io.rs.
use gba_eval.Base.{
  ℕ, ◌+◌, ◌-◌, ◌*◌, ◌/◌, ◌%◌, ◌^◌, ◌==◌, Bool, true, if◌then◌else◌, low_bits, high_bits, test_bit,
  bit_and, not16, of_bool, leb, ◌&&◌, bit_or, ◌<<<◌,
}
use gba_eval.Io.{IoRegs}
use gba_eval.Ppu.{Ppu, BgRegs, at_bg}

-- `addr & 0x3FE`
abbrev pub io_register : ℕ → ℕ
io_register addr = low_bits 10 addr / 2 * 2

-- The control registers of the four backgrounds, and their scroll offsets.
abbrev in_bg_control : ℕ → Bool
in_bg_control reg = leb 0x008 reg && leb reg 0x00e

abbrev in_bg_scroll : ℕ → Bool
in_bg_scroll reg = leb 0x010 reg && leb reg 0x01e

abbrev scroll : ℕ → BgRegs → ℕ
scroll reg bg = if reg % 4 == 0 then bg.xofs else bg.yofs

-- The registers of the windows, the mosaic and the blending; BLDY cannot be read.
read_effect : ℕ → Ppu → ℕ
read_effect reg ppu =
    if reg == 0x040
    then ppu.winh 0
    else if reg == 0x042
    then ppu.winh 1
    else if reg == 0x044
    then ppu.winv 0
    else if reg == 0x046
    then ppu.winv 1
    else if reg == 0x048
    then ppu.winin
    else if reg == 0x04a
    then ppu.winout
    else if reg == 0x04c
    then ppu.mosaic
    else if reg == 0x050
    then ppu.bldcnt
    else if reg == 0x052
    then ppu.bldalpha
    else 0

-- The keys and the interrupts; the serial port reads as 0.
read_control_reg : ℕ → IoRegs → ℕ
read_control_reg reg io =
    if reg == 0x130
    then io.keyinput
    else if reg == 0x200
    then io.ie
    else if reg == 0x202
    then io.if_
    else if reg == 0x204
    then io.waitcnt
    else if reg == 0x208
    then of_bool io.ime
    else if reg == 0x300
    then 1
    else 0

unfoldable pub io_read16 : ℕ → Ppu → IoRegs → ℕ
unfolding read_effect read_control_reg
io_read16 addr ppu io =
    let reg = io_register addr in
    if reg == 0x000
    then ppu.dispcnt
    else if reg == 0x004
    then ppu.dispstat
    else if reg == 0x006
    then ppu.vcount
    else if in_bg_control reg
    then (ppu.bg ((reg - 0x008) / 2)).cnt
    else if in_bg_scroll reg
    then scroll reg (ppu.bg ((reg - 0x010) / 4))
    else if leb 0x040 reg && leb reg 0x052
    then read_effect reg ppu
    else read_control_reg reg io

pub io_read32 : ℕ → Ppu → IoRegs → ℕ
unfolding io_read16
io_read32 addr ppu io = bit_or (io_read16 addr ppu io) (io_read16 (addr + 2) ppu io <<< 16)

abbrev set_scroll : ℕ → ℕ → BgRegs → BgRegs
set_scroll reg val bg =
    if reg % 4 == 0
    then record bg { xofs = low_bits 9 val }
    else record bg { yofs = low_bits 9 val }

-- The interrupt control. A 1 written to IF clears the request.
write_control_reg : ℕ → ℕ → IoRegs → IoRegs
write_control_reg reg val io =
    if reg == 0x200
    then record io { ie = val }
    else if reg == 0x202
    then record io { if_ = bit_and io.if_ (not16 val) }
    else if reg == 0x204
    then record io { waitcnt = val }
    else if reg == 0x208
    then record io { ime = test_bit 0 val }
    else if reg == 0x300
    then (if test_bit 7 val then io else record io { haltcnt = true })
    else io

unfoldable pub io_write16 : ℕ → ℕ → Ppu → IoRegs → Ppu × IoRegs
unfolding write_control_reg
io_write16 addr val ppu io =
    let reg = io_register addr in
    if reg == 0x000
    then (record ppu { dispcnt = val }, io)
    else if reg == 0x004
    then (record ppu { dispstat = high_bits 3 val + low_bits 3 ppu.dispstat }, io)
    else if in_bg_control reg
    then (at_bg ((reg - 0x008) / 2) (λ bg. record bg { cnt = val }) ppu, io)
    else if in_bg_scroll reg
    then (at_bg ((reg - 0x010) / 4) (set_scroll reg val) ppu, io)
    else (ppu, write_control_reg reg val io)

-- A byte in its halfword.
abbrev pub put_byte : ℕ → ℕ → ℕ → ℕ
put_byte addr val old =
    if test_bit 0 addr then low_bits 8 old + val * 2 ^ 8 else high_bits 8 old + val

unfoldable pub io_write8 : ℕ → ℕ → Ppu → IoRegs → Ppu × IoRegs
unfolding io_read16 io_write16
io_write8 addr val ppu io =
    if addr == 0x0400_0301
    then (ppu, if test_bit 7 val then io else record io { haltcnt = true })
    else let aligned = high_bits 1 addr in
      io_write16 aligned (put_byte addr val (io_read16 aligned ppu io)) ppu io

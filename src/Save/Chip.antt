-- ===== src/Save/Chip.antt =====
-- The flash chips: candidates/gba-core/src/save.rs, `flash_write` and their part of `read8`.
use gba_eval.Base.{
  ℕ, ◌+◌, ◌*◌, min, ◌==◌, ◌&&◌, leb, ltb, Bool, true, false, if◌then◌else◌, low_bits, ◌>>>◌,
  bit_and, update,
}
use gba_eval.Save.State.{
  SaveType, FlashState, Save, flash128, ready, cmd1, cmd2, erase, write, bank_select, id_mode,
}

pub read_flash : ℕ → Save → ℕ
read_flash addr s =
    if s.flash_id_mode
    then (if low_bits 1 addr == 0 then s.flash_manufacturer else s.flash_device)
    else s.bytes (s.flash_bank * 0x1_0000 + low_bits 16 addr)

-- `data[a..b].fill(0xFF)`
abbrev pub fill_ff : ℕ → ℕ → (ℕ → ℕ) → ℕ → ℕ
fill_ff a b d j = if leb a j && ltb j b then 0xff else d j

pub is_flash128 : SaveType → Bool
is_flash128 flash128 = true
is_flash128 _ = false

unfoldable pub flash_erase : ℕ → ℕ → Save → Save
unfolding is_flash128
flash_erase local val s =
    if val == 0x10 && local == 0x5555
    then (let size = if is_flash128 s.save_type then 128 * 1024 else 64 * 1024 in
        record s { bytes = fill_ff 0 size s.bytes })
    else if val == 0x30
    then (let sector = low_bits 4 (local >>> 12) in
        let offset = s.flash_bank * 0x1_0000 + sector * 0x1000 in
        let end = min (offset + 0x1000) s.data_len in
        record s { bytes = fill_ff offset end s.bytes })
    else s

unfoldable pub flash_command : ℕ → Save → Save
unfolding is_flash128
flash_command val s =
    if val == 0x90
    then record s { flash_id_mode = true; flash_state = ready }
    else if val == 0xf0
    then record s { flash_id_mode = false; flash_state = ready }
    else if val == 0x80
    then record s { flash_erase_pending = true; flash_state = erase }
    else if val == 0xa0
    then record s { flash_state = write }
    else if val == 0xb0
    then (if is_flash128 s.save_type
        then record s { flash_state = bank_select }
        else record s { flash_state = ready })
    else record s { flash_state = ready }

unfoldable pub flash_at : FlashState → ℕ → ℕ → Save → Save
flash_at ready local val s =
    if local == 0x5555 && val == 0xaa then record s { flash_state = cmd1 } else s
flash_at cmd1 local val s =
    if local == 0x2aaa && val == 0x55
    then record s { flash_state = cmd2 }
    else record s { flash_state = ready }
flash_at cmd2 local val s =
    if s.flash_erase_pending
    then record (flash_erase local val (record s { flash_erase_pending = false })) {
      flash_state = ready;
    }
    else if local == 0x5555
    then flash_command val s
    else record s { flash_state = ready }
flash_at erase local val s =
    if local == 0x5555 && val == 0xaa
    then record s { flash_state = cmd1 }
    else record s { flash_state = ready; flash_erase_pending = false }
flash_at write local val s =
    let offset = s.flash_bank * 0x1_0000 + local in
    let s' =
      if ltb offset s.data_len
      then record s { bytes = update s.bytes offset (bit_and (s.bytes offset) val) }
      else s in
    record s' { flash_state = ready }
flash_at bank_select local val s =
    let s' = if local == 0 then record s { flash_bank = low_bits 1 val } else s in
    record s' { flash_state = ready }
flash_at id_mode local val s =
    if val == 0xf0 then record s { flash_id_mode = false; flash_state = ready } else s

unfoldable pub flash_write : ℕ → ℕ → Save → Save
flash_write addr val s = flash_at s.flash_state (low_bits 16 addr) val s

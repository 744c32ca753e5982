-- ===== src/Save/Flash.antt =====
-- The command sequences of the flash chip.
use gba_eval.Base.{
  ℕ, ◌+◌, ◌*◌, ◌/◌, ◌%◌, ◌<◌, ◌≤◌, ◌≡◌, refl, ◌==◌, ◌&&◌, true, false, arith, low_bits, update, min,
  bit_and, Bool-cases, lt→ltb, inl, inr, ◌≢◌,
}
use gba_eval.Save.State.{Save, ready, cmd2}
use gba_eval.Save.Chip.{flash_write, flash_at, flash_command, flash_erase, fill_ff}

-- The two unlock writes and a command.
pub unlock : ℕ → Save → Save
unlock val s = flash_write 0x5555 val (flash_write 0x2aaa 0x55 (flash_write 0x5555 0xaa s))

-- No command is under way.
pub record IsReady (s : Save) : Type 0 where
  pub state : s.flash_state ≡ ready
  pub no_erase : s.flash_erase_pending ≡ false

unlocked :
    (val : ℕ) (s : Save)
    → s.flash_state ≡ ready
    → unlock val s ≡ flash_at cmd2 0x5555 val (record s { flash_state = cmd2 })
unfolding unlock flash_write flash_at
unlocked val s r = rw r

-- The program command: three writes unlock it, and the fourth clears, in the one byte that it
-- addresses, the bits that are clear in the value.
pub unlock-program :
    (addr val : ℕ) (s : Save)
    → IsReady s
    → s.flash_bank * 0x1_0000 + addr % 0x1_0000 < s.data_len
    → let offset = s.flash_bank * 0x1_0000 + addr % 0x1_0000 in
      flash_write addr val (unlock 0xa0 s) ≡ record s {
        bytes = update s.bytes offset (bit_and (s.bytes offset) val);
        flash_state = ready;
      }
unlock-program addr val s r h =
    rw (unlocked 0xa0 s r.state)
      (unfold flash_write flash_at flash_command in rw (r.no_erase, lt→ltb _ s.data_len h))

-- The sector erase: six writes fill the addressed 4 KB of the current bank with ones, and leave
-- every other byte and the state between commands.
pub unlock-sector :
    (addr : ℕ) (s : Save)
    → IsReady s
    → (s.flash_bank + 1) * 0x1_0000 ≤ s.data_len
    → let t =
        flash_write addr 0x30 (flash_write 0x2aaa 0x55 (flash_write 0x5555 0xaa (unlock 0x80 s))) in
      let first = s.flash_bank * 0x1_0000 + addr % 0x1_0000 / 0x1000 * 0x1000 in
      (t ≡ record s {
        bytes = fill_ff first (first + 0x1000) s.bytes;
        flash_state = ready;
        flash_erase_pending = false;
      })
unlock-sector addr s r h =
    let sector : low_bits 4 (addr % 0x1_0000 / 0x1000) ≡ addr % 0x1_0000 / 0x1000 = omega arith in
    let end : min (s.flash_bank * 0x1_0000 + addr % 0x1_0000 / 0x1000 * 0x1000 + 0x1000) s.data_len
        ≡ s.flash_bank * 0x1_0000 + addr % 0x1_0000 / 0x1000 * 0x1000 + 0x1000 =
      ground arith in
    rw (unlocked 0x80 s r.state)
      (unfold flash_write flash_at flash_command flash_erase in rw (r.no_erase, sector, end))

abort :
    (other : ℕ) (s : Save)
    → IsReady s
    → other ≢ 0x55
    → flash_write 0x2aaa other (flash_write 0x5555 0xaa (unlock 0x80 s))
      ≡ record s { flash_state = ready; flash_erase_pending = true }
abort other s r h =
    let wrong : (other == 0x55) ≡ false = ground arith in
    rw (unlocked 0x80 s r.state)
      (unfold flash_write flash_at flash_command in rw (r.no_erase, wrong))

idle_bytes :
    (addr val : ℕ) (s : Save) → s.flash_state ≡ ready → (flash_write addr val s).bytes ≡ s.bytes
unfolding flash_write flash_at
idle_bytes addr val s r =
    rw r
      (elim (Bool-cases (addr % 0x1_0000 == 0x5555 && val == 0xaa)) [ inl e ↦ rw e | inr e ↦ rw e ])

-- An erase that is given up in its second unlock leaves its pending mark behind: the program
-- command that follows is swallowed, and its data write changes no byte.
pub aborted_erase :
    (addr val other : ℕ) (s : Save)
    → IsReady s
    → other ≢ 0x55
    → let aborted = flash_write 0x2aaa other (flash_write 0x5555 0xaa (unlock 0x80 s)) in
      (aborted.flash_state ≡ ready)
      × (aborted.flash_erase_pending ≡ true)
      × ((flash_write addr val (unlock 0xa0 aborted)).bytes ≡ s.bytes)
aborted_erase addr val other s r h = rw (abort other s r h) (
  refl,
  refl,
  rw (unlocked 0xa0 (record s { flash_state = ready; flash_erase_pending = true }) refl) (
      unfold flash_at flash_erase in
      idle_bytes addr val (record s { flash_state = ready; flash_erase_pending = false }) refl),
)

-- ===== src/Save/Eeprom/Bytes.antt =====
-- The eight bytes that an EEPROM word is stored in.
use gba_eval.Base.{
  ℕ, zero, suc, ◌+◌, ◌-◌, ◌*◌, ◌/◌, ◌^◌, ◌<◌, ◌≤◌, ◌≡◌, refl, ◌==◌, arith, u64, inl, inr, field,
  lt→ltb, Bool-cases,
}
use gba_eval.Save.State.{Save}
use gba_eval.Save.Serial.{load_bytes, store_bytes}

pub stored :
    (n i v b len : ℕ) (d : ℕ → ℕ)
    → i < n
    → b + n ≤ len
    → store_bytes n v b len d (b + i) ≡ field (56 - i * 8) 8 v
unfolding store_bytes
stored zero i v b len d h k = elim h [ ]
stored (suc n) i v b len d h k = elim (Bool-cases (i == n)) [
  | inl last ↦ ground arith
  | inr before ↦ ground (arith, stored n i v b len d (ground arith) (omega arith))
]

pub load_next :
    (n b : ℕ) (s : Save)
    → b + n < s.data_len
    → load_bytes (suc n) b s ≡ u64 (load_bytes n b s * 2 ^ 8) + s.bytes (b + n)
unfolding load_bytes
load_next n b s h = rw (lt→ltb (b + n) s.data_len h)

load_first : (b : ℕ) (s : Save) → load_bytes 0 b s ≡ 0
unfolding load_bytes
load_first b s = refl

pub load-stored :
    (v b : ℕ) (s : Save)
    → v < 2 ^ 64
    → b + 8 ≤ s.data_len
    → ((i : ℕ) → i < 8 → s.bytes (b + i) ≡ field (56 - i * 8) 8 v)
    → load_bytes 8 b s ≡ v
load-stored v b s h k e =
    let l₁ : load_bytes 1 b s ≡ v / 2 ^ 56 =
      omega (arith, load_first b s, load_next 0 b s (omega arith), e 0 (omega arith)) in
    let l₂ : load_bytes 2 b s ≡ v / 2 ^ 48 =
      omega (arith, load_next 1 b s (omega arith), e 1 (omega arith)) in
    let l₃ : load_bytes 3 b s ≡ v / 2 ^ 40 =
      omega (arith, load_next 2 b s (omega arith), e 2 (omega arith)) in
    let l₄ : load_bytes 4 b s ≡ v / 2 ^ 32 =
      omega (arith, load_next 3 b s (omega arith), e 3 (omega arith)) in
    let l₅ : load_bytes 5 b s ≡ v / 2 ^ 24 =
      omega (arith, load_next 4 b s (omega arith), e 4 (omega arith)) in
    let l₆ : load_bytes 6 b s ≡ v / 2 ^ 16 =
      omega (arith, load_next 5 b s (omega arith), e 5 (omega arith)) in
    let l₇ : load_bytes 7 b s ≡ v / 2 ^ 8 =
      omega (arith, load_next 6 b s (omega arith), e 6 (omega arith)) in
    omega (arith, load_next 7 b s (omega arith), e 7 (omega arith))

-- ===== src/Cpu/Alu/Rotates.antt =====
-- The rotation against a rotation by one place at a time.
use native.Mathlib.Nat.{mod-add-div', pow-suc}
use gba_eval.Base.{
  ℕ, zero, suc, ◌+◌, ◌-◌, ◌*◌, ◌/◌, ◌%◌, ◌^◌, ◌<◌, ◌≤◌, ◌≡◌, refl, ◌==◌, ◌!=◌, Bool, false, arith,
  iterate, ap, ap₂, ◌∙◌, sym, pow-mul-pow, div-pow-suc, inl, inr, Bool-cases, test_bit, ◌≢◌,
}
use gba_eval.Cpu.Alu.{ror, rotate_right}

abbrev pub ror_one : ℕ × Bool → ℕ × Bool
ror_one (v, c) = (v / 2 + v % 2 * 2 ^ 31, test_bit 0 v)

-- The digit just above a remainder.
mod-pow-suc : (n v : ℕ) → v % 2 ^ suc n ≡ v % 2 ^ n + v / 2 ^ n % 2 * 2 ^ n
mod-pow-suc n v =
    let whole : v % 2 ^ suc n + v / 2 ^ n / 2 * (2 ^ n * 2) ≡ v =
      ap₂ (λ (s t : ℕ). v % 2 ^ suc n + s * t) (sym (div-pow-suc v n)) (sym (pow-suc 2 n))
      ∙ mod-add-div' v (2 ^ suc n) in
    let digit = ap (λ (t : ℕ). t * 2 ^ n) (mod-add-div' (v / 2 ^ n) 2) in
    omega (arith, whole, mod-add-div' v (2 ^ n), digit)

rotate_right-suc :
    (n v : ℕ)
    → v < 2 ^ 32
    → n ≤ 31
    → rotate_right v (suc n) ≡ rotate_right v n / 2 + rotate_right v n % 2 * 2 ^ 31
rotate_right-suc n v p h =
    let k : n + (31 - n) ≡ 31 = omega arith in
    let whole : 2 ^ n * 2 ^ (31 - n) ≡ 2 ^ 31 = pow-mul-pow n (31 - n) ∙ ap (λ (t : ℕ). 2 ^ t) k in
    let e : 32 - n ≡ suc (31 - n) = omega arith in
    let e' : 32 - suc n ≡ 31 - n = omega arith in
    let double : 2 ^ (32 - n) ≡ 2 ^ (31 - n) * 2 = ap (λ (t : ℕ). 2 ^ t) e ∙ pow-suc 2 (31 - n) in
    let digit : v / 2 ^ n % 2 * (2 ^ n * 2 ^ (31 - n)) ≡ v / 2 ^ n % 2 * 2 ^ 31 =
      ap (λ (t : ℕ). v / 2 ^ n % 2 * t) whole in
    let twice : v % 2 ^ n * 2 ^ (32 - n) ≡ v % 2 ^ n * (2 ^ (31 - n) * 2) =
      ap (λ (t : ℕ). v % 2 ^ n * t) double in
    rw (e', mod-pow-suc n v, div-pow-suc v n) (omega (arith, digit, twice))

rotate_right-lt : (n v : ℕ) → v < 2 ^ 32 → n ≤ 32 → rotate_right v n < 2 ^ 32
rotate_right-lt zero v p h = omega arith
rotate_right-lt (suc n) v p h =
    omega (arith, rotate_right-suc n v p (omega arith), rotate_right-lt n v p (omega arith))

-- A rotation by a whole number of words, and one by any other amount.
ror_whole :
    (v amt : ℕ) (c : Bool) → amt ≢ 0 → amt % 32 ≡ 0 → ror v amt c false ≡ (v, (v / 2 ^ 31) != 0)
unfolding ror
ror_whole v amt c h k = ground arith

ror_part :
    (v amt k : ℕ) (c : Bool)
    → amt % 32 ≡ suc k
    → ror v amt c false ≡ (rotate_right v (suc k), (rotate_right v (suc k) / 2 ^ 31) != 0)
unfolding ror
ror_part v amt k c h = ground arith

ror-suc : (n v : ℕ) (c : Bool) → v < 2 ^ 32 → ror v (suc n) c false ≡ ror_one (ror v n c false)
ror-suc zero v c p = unfold ror in ground arith
ror-suc (suc m) v c p = elim (Bool-cases ((suc m % 32) == 0)) [
  | inl whole ↦ ground (arith, ror_whole v (suc m) c, ror_part v (suc (suc m)) 0 c)
  | inr part ↦ elim (Bool-cases ((suc m % 32) == 31)) [
    | inl last ↦ ground (arith, ror_part v (suc m) 30 c, ror_whole v (suc (suc m)) c)
    | inr inner ↦
        let k = suc m % 32 - 1 in
        ground (
          arith,
          ror_part v (suc m) k c,
          ror_part v (suc (suc m)) (suc k) c,
          rotate_right-suc (suc k) v p,
          rotate_right-lt (suc k) v p,
        )
  ]
]

-- A rotation by any amount is that many rotations by one place, the carry included.
pub ror_iterated :
    (v amt : ℕ) (c : Bool) → v < 2 ^ 32 → ror v amt c false ≡ iterate amt ror_one (v, c)
ror_iterated v zero c p = unfold ror in refl
ror_iterated v (suc n) c p = ror-suc n v c p ∙ ap ror_one (ror_iterated v n c p)

-- ===== src/Timer/Ticks.antt =====
-- The counter arithmetic of a batch against a counter that moves by one tick at a time.
use native.Mathlib.Nat.{mod-add-div', div-eq_of_lt-le}
use gba_eval.Base.{
  ℕ, zero, suc, ◌+◌, ◌-◌, ◌/◌, ◌%◌, ◌<◌, ◌≤◌, ◌≡◌, ◌==◌, leb, if◌then◌else◌, arith, iterate, ap,
  ◌∙◌, Bool-cases, inl, inr, u32,
}
use gba_eval.Timer.{TimerState, add_to_timer}

-- One tick: past 0xffff the counter is reloaded, and that is one overflow.
abbrev pub tick_up : ℕ → ℕ × ℕ → ℕ × ℕ
tick_up reload (c, n) = if c == 0xffff then (reload, n + 1) else (c + 1, n)

-- The remainder and the quotient at the next number.
module _ (r p : ℕ) where
  div-mod-wrap : r % p + 1 ≡ p → (suc r / p ≡ r / p + 1) × (suc r % p ≡ 0)
  div-mod-wrap e =
      let q : suc r / p ≡ r / p + 1 =
        div-eq_of_lt-le {k = r / p + 1} p (grind (arith, mod-add-div' r p))
          (grind (arith, mod-add-div' r p)) in
      (q, grind (arith, mod-add-div' r p, mod-add-div' (suc r) p, q))

  div-mod-next : r % p + 1 < p → (suc r / p ≡ r / p) × (suc r % p ≡ r % p + 1)
  div-mod-next h =
      let q : suc r / p ≡ r / p =
        div-eq_of_lt-le {k = r / p} p (grind (arith, mod-add-div' r p))
          (grind (arith, mod-add-div' r p)) in
      (q, grind (arith, mod-add-div' r p, mod-add-div' (suc r) p, q))

module _ (t : TimerState) (c-lt : t.counter < 0x1_0000) (r-lt : t.reload < 0x1_0000) where
  abbrev period : ℕ
  period = 0x1_0000 - t.reload

  add_below : (k : ℕ) → t.counter + k ≤ 0xffff → add_to_timer t k ≡ (t.counter + k, 0)
  unfolding add_to_timer
  add_below k h = ground arith

  add_past :
      (k r : ℕ)
      → k < 0xffff_0000
      → t.counter + k ≡ 0x1_0000 + r
      → add_to_timer t k ≡ (t.reload + r % period, 1 + r / period)
  unfolding add_to_timer
  add_past k r h e =
      let less : u32 (t.counter + k) - 0x1_0000 ≡ r = omega arith in
      ground (arith, ap (λ (x : ℕ). x % period) less, ap (λ (x : ℕ). x / period) less)

  add_to_timer-suc :
      (k : ℕ) → suc k < 0xffff_0000 → add_to_timer t (suc k) ≡ tick_up t.reload (add_to_timer t k)
  add_to_timer-suc k h = elim (Bool-cases (leb (t.counter + k) 0xffff)) [
    | inl low ↦ elim (Bool-cases (t.counter + k == 0xffff)) [
      | inl last ↦ ground (arith, add_below k, add_past (suc k) 0 h)
      | inr before ↦ ground (arith, add_below k, add_below (suc k))
    ]
    | inr past ↦
        let r = t.counter + k - 0x1_0000 in
        elim (Bool-cases ((r % period + 1) == period)) [
          | inl wraps ↦
              ground (arith, add_past k r, add_past (suc k) (suc r), div-mod-wrap r period)
          | inr goes_on ↦
              ground (arith, add_past k r, add_past (suc k) (suc r), div-mod-next r period)
        ]
  ]

  -- Adding ticks in one step is the same as adding them one at a time: the counter and the number
  -- of overflows agree.
  pub add_to_timer_iterated :
      (ticks : ℕ)
      → ticks < 0xffff_0000
      → add_to_timer t ticks ≡ iterate ticks (tick_up t.reload) (t.counter, 0)
  add_to_timer_iterated zero h = unfold add_to_timer in ground arith
  add_to_timer_iterated (suc k) h =
      add_to_timer-suc k (omega arith)
      ∙ ap (tick_up t.reload) (add_to_timer_iterated k (omega arith))

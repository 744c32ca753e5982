-- ===== src/Replay/Latest.antt =====
-- The keys of a frame.
use gba_eval.Base.{
  ℕ, ◌≤◌, ◌<◌, ◌≡◌, refl, arith, List, [], ◌∷◌, ◌++◌, ltb, Bool-cases, inl, inr, ◌⊎◌,
}
use gba_eval.Replay.{InputEvent, InputReplay, at, scan, keys_at}

-- An event of a list.
pub data IsIn (e : InputEvent) : List InputEvent → Type 0 where
  here : {es : List InputEvent} → IsIn e (e ∷ es)
  there : {d : InputEvent} {es : List InputEvent} → IsIn e es → IsIn e (d ∷ es)

-- The frames are in order, and none is before `low`.
pub data IsSorted : ℕ → List InputEvent → Type 0 where
  sorted_end : {low : ℕ} → IsSorted low []
  sorted_event :
      {low f k : ℕ} {es : List InputEvent} → low ≤ f → IsSorted f es → IsSorted low ((f, k) ∷ es)

not-IsIn : {e : InputEvent} → ¬ IsIn e []
not-IsIn p = elim p [ ]

-- What a sort by the frames does: the result is in order and has the same events.
pub record Sorts (sort : List InputEvent → List InputEvent) : Type 0 where
  pub ordered : (es : List InputEvent) → IsSorted 0 (sort es)
  pub takes : (e : InputEvent) (es : List InputEvent) → IsIn e (sort es) → IsIn e es
  pub keeps : (e : InputEvent) (es : List InputEvent) → IsIn e es → IsIn e (sort es)

-- The event `(f, k)` is in the list, and no other up to frame `g` is later.
pub record IsLatest (g : ℕ) (es : List InputEvent) (f k : ℕ) : Type 0 where
  pub member : IsIn (f, k) es
  pub reached : f ≤ g
  pub latest : (e : InputEvent) → IsIn e es → e.0 ≤ g → e.0 ≤ f

-- The keys held in frame `g`: those of a latest event up to `g`, or none before the first event.
pub data IsHeld (g : ℕ) (es : List InputEvent) (keys : ℕ) : Type 0 where
  released : keys ≡ 0 → ((e : InputEvent) → IsIn e es → g < e.0) → IsHeld g es keys
  held : (f : ℕ) → IsLatest g es f keys → IsHeld g es keys

low-bound :
    {low : ℕ} {es : List InputEvent} → IsSorted low es → (e : InputEvent) → IsIn e es → low ≤ e.0
low-bound sorted_end e p = absurd (not-IsIn p)
low-bound (sorted_event le s) e here = le
low-bound (sorted_event le s) e (there p) = omega (arith, le, low-bound s e p)

for_all :
    {P : InputEvent → Type 0} {d : InputEvent} {es : List InputEvent}
    → P d
    → ((e : InputEvent) → IsIn e es → P e)
    → (e : InputEvent) → IsIn e (d ∷ es)
    → P e
for_all h t e here = h
for_all h t e (there p) = t e p

-- The scan of a list in order finds a latest event, or leaves the keys `keys` if there is none.
scan-IsLatest :
    (g keys : ℕ) {low : ℕ} (es : List InputEvent)
    → IsSorted low es
    → ((scan g keys es ≡ keys) × ((e : InputEvent) → IsIn e es → g < e.0))
      ⊎ ((f : ℕ) × IsLatest g es f (scan g keys es))
unfolding scan
scan-IsLatest g keys [] s = inl (refl, λ e p. absurd (not-IsIn p))
scan-IsLatest g keys ((f, k) ∷ es) (sorted_event le s) = elim (Bool-cases (ltb g f)) [
  | inl later ↦
      let past : g < f = ground (arith, later) in
      rw later (inl (refl, for_all past (λ e p. omega (arith, past, low-bound s e p))))
  | inr before ↦
      let up_to : f ≤ g = ground (arith, before) in
      rw before (elim (scan-IsLatest g k es s) [
        | inl (same, later) ↦ inr (
          f,
          record {
            member = rw same here;
            reached = up_to;
            latest = for_all (λ h. omega arith) (λ e p h. omega (arith, later e p, h));
          },
        )
        | inr (l, v) ↦ inr (
          l,
          record {
            member = there v.member;
            reached = v.reached;
            latest = for_all (λ h. low-bound s (l, scan g k es) v.member) v.latest;
          },
        )
      ])
]

-- Whatever order a sort by the frames gives to the events of one frame, the keys of frame `g` in a
-- replay with one more event are those of an event up to `g` that none of the events up to `g` is
-- later than, and no keys when all events are later than `g`.
pub keys_at-at :
    (sort : List InputEvent → List InputEvent)
    → Sorts sort
    → (g frame keys : ℕ) (r : InputReplay)
    → IsHeld g (r.events ++ ((frame, keys) ∷ [])) (keys_at g (at sort frame keys r))
unfolding at keys_at
keys_at-at sort v g frame keys r =
    let es = r.events ++ ((frame, keys) ∷ []) in
    elim (scan-IsLatest g 0 (sort es) (v.ordered es)) [
      | inl (same, later) ↦ released same (λ e p. later e (v.keeps e es p))
      | inr (f, l) ↦ held f (record {
        member = v.takes (f, scan g 0 (sort es)) es l.member;
        reached = l.reached;
        latest = λ e p. l.latest e (v.keeps e es p);
      })
    ]

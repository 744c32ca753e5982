-- ===== src/Scheduler/Due.antt =====
-- Events come when they are due, and the earliest one first.
use gba_eval.Base.{
  ℕ, true, false, ◌+◌, ◌-◌, ◌^◌, ◌<◌, ◌≤◌, ◌≡◌, refl, ap, sym, subst, ◌∙◌, min, leb, ◌==◌,
  if◌then◌else◌, arith, Bool-cases, inl, inr, u64, Option, some, none, List, [], ◌∷◌, le→leb, ◌⊎◌,
  ◌↔◌,
}
use gba_eval.Scheduler.{
  Scheduled, Scheduler, advance, earlier, peek, remove_first, pop_due, cycles_until_next,
}

-- An entry of the queue.
pub data IsIn (x : Scheduled) : List Scheduled → Type 0 where
  here : {q : List Scheduled} → IsIn x (x ∷ q)
  there : {y : Scheduled} {q : List Scheduled} → IsIn x q → IsIn x (y ∷ q)

-- The entry that is next: in the queue, and no later than any other.
pub record IsNext (e : Scheduled) (q : List Scheduled) : Type 0 where
  pub queued : IsIn e q
  pub earliest : (x : Scheduled) → IsIn x q → e.at_time ≤ x.at_time

IsIn-cases : {x y : Scheduled} {q : List Scheduled} → IsIn x (y ∷ q) → (x ≡ y) ⊎ IsIn x q
IsIn-cases here = inl refl
IsIn-cases (there p) = inr p

earlier-IsNext : (x : Scheduled) (q : List Scheduled) → IsNext (earlier x (peek q)) (x ∷ q)
unfolding earlier peek
earlier-IsNext x [] = record {
  queued = here;
  earliest = λ z p. elim (IsIn-cases p) [
    | inl e ↦ omega (arith, ap (λ (w : Scheduled). w.at_time) e)
    | inr none_left ↦ elim none_left [ ]
  ];
}
earlier-IsNext x (y ∷ r) =
    let v = earlier-IsNext y r in
    let f = earlier y (peek r) in
    elim (Bool-cases (leb x.at_time f.at_time)) [
      | inl first ↦ rw first record {
        queued = here;
        earliest = λ z p. elim (IsIn-cases p) [
          | inl e ↦ omega (arith, ap (λ (w : Scheduled). w.at_time) e)
          | inr rest ↦ ground (arith, v.earliest z rest)
        ];
      }
      | inr later ↦ rw later record {
        queued = there v.queued;
        earliest = λ z p. elim (IsIn-cases p) [
          | inl e ↦ ground (arith, ap (λ (w : Scheduled). w.at_time) e)
          | inr rest ↦ v.earliest z rest
        ];
      }
    ]

-- The second queue is the first without one entry, and has the others in their order.
pub data IsTaken (e : Scheduled) : List Scheduled → List Scheduled → Type 0 where
  taken_here : {q : List Scheduled} → IsTaken e (e ∷ q) q
  taken_there : {x : Scheduled} {q r : List Scheduled} → IsTaken e q r → IsTaken e (x ∷ q) (x ∷ r)

IsTaken-head :
    (e : Scheduled) (q : List Scheduled) → IsTaken e (e ∷ q) (remove_first e.at_time (e ∷ q))
unfolding remove_first
IsTaken-head e q = let same : (e.at_time == e.at_time) ≡ true = ground arith in rw same taken_here

earlier-IsTaken :
    (x : Scheduled) (q : List Scheduled) (e : Scheduled)
    → earlier x (peek q) ≡ e
    → IsTaken e (x ∷ q) (remove_first e.at_time (x ∷ q))
unfolding earlier peek remove_first
earlier-IsTaken x [] e h =
    subst (λ (y : Scheduled). IsTaken y (x ∷ []) (remove_first y.at_time (x ∷ []))) h
      (IsTaken-head x [])
earlier-IsTaken x (y ∷ r) e h =
    let f = earlier y (peek r) in
    elim (Bool-cases (leb x.at_time f.at_time)) [
      | inl first ↦
          let chosen : earlier x (some f) ≡ x = rw first refl in
          subst (λ (z : Scheduled). IsTaken z (x ∷ y ∷ r) (remove_first z.at_time (x ∷ y ∷ r)))
            (sym chosen ∙ h) (IsTaken-head x (y ∷ r))
      | inr later ↦
          let chosen : f ≡ e = sym (rw later refl) ∙ h in
          let time : f.at_time ≡ e.at_time = ap (λ (z : Scheduled). z.at_time) chosen in
          let other : (x.at_time == e.at_time) ≡ false = ground (arith, later, time) in
          rw (other, remove_first) (taken_there (earlier-IsTaken y r e chosen))
    ]

pub peek-IsNext :
    (x : Scheduled) (q : List Scheduled)
    → (e : Scheduled) × (peek (x ∷ q) ≡ some e)
      × IsNext e (x ∷ q)
      × IsTaken e (x ∷ q) (remove_first e.at_time (x ∷ q))
unfolding peek
peek-IsNext x q =
    (earlier x (peek q), refl, earlier-IsNext x q, earlier-IsTaken x q (earlier x (peek q)) refl)

pop_next :
    (e : Scheduled) (s : Scheduler)
    → peek s.queue ≡ some e
    → pop_due s ≡ (
        if leb e.at_time s.now
        then (record s { queue = remove_first e.at_time s.queue }, some e.event)
        else (s, none))
unfolding pop_due
pop_next e s h = rw (pop_due, h) refl

pop_empty : (s : Scheduler) → peek s.queue ≡ none → pop_due s ≡ (s, none)
unfolding pop_due
pop_empty s h = rw (pop_due, h) refl

until_next :
    (e : Scheduled) (s : Scheduler)
    → peek s.queue ≡ some e
    → cycles_until_next s ≡ min (e.at_time - s.now) (2 ^ 32 - 1)
unfolding cycles_until_next
until_next e s h = rw (cycles_until_next, h) refl

until_empty : (s : Scheduler) → peek s.queue ≡ none → cycles_until_next s ≡ 2 ^ 32 - 1
unfolding cycles_until_next
until_empty s h = rw (cycles_until_next, h) refl

peek-some :
    (x : Scheduled) (q : List Scheduled)
    → IsIn x q
    → (e : Scheduled) × (peek q ≡ some e) × IsNext e q × IsTaken e q (remove_first e.at_time q)
peek-some x [] p = elim p [ ]
peek-some x (y ∷ q) p = peek-IsNext y q

-- If an event of the queue is due, `pop_due` returns one that no other is earlier than, which is due
-- as well; exactly that entry leaves the queue, and every other one stays in its place.
pub pop_due-earliest :
    (x : Scheduled) (s : Scheduler)
    → IsIn x s.queue
    → x.at_time ≤ s.now
    → (e : Scheduled) × (rest : List Scheduled) × IsNext e s.queue
      × (e.at_time ≤ s.now)
      × IsTaken e s.queue rest
      × (pop_due s ≡ (record s { queue = rest }, some e.event))
pop_due-earliest x s p h =
    let (e, found, v, taken) = peek-some x s.queue p in
    let due : e.at_time ≤ s.now = omega (arith, v.earliest x p) in
    (
      e,
      remove_first e.at_time s.queue,
      v,
      due,
      taken,
      rw (pop_next e s found, le→leb e.at_time s.now due) refl,
    )

-- What `pop_due` returns `k` cycles on: nothing, exactly as long as `k` is below
-- `cycles_until_next`, so that a burst of that many cycles misses no event; `k` is less than the
-- largest 32-bit number, and the clock does not wrap.
pub advance-cycles_until_next :
    (k : ℕ) (s : Scheduler)
    → k < 2 ^ 32 - 1
    → s.now + k < 2 ^ 64
    → ((pop_due (advance k s)).1 ≡ none) ↔ (k < cycles_until_next s)
unfolding advance
advance-cycles_until_next k s h l = by_next (peek s.queue) refl
  where
    now' : u64 (s.now + k) ≡ s.now + k
    now' = omega arith

    by_next :
        (o : Option Scheduled)
        → peek s.queue ≡ o
        → ((pop_due (advance k s)).1 ≡ none) ↔ (k < cycles_until_next s)
    by_next none e = rw (pop_empty (advance k s) e, until_empty s e) (λ a. omega arith, λ b. refl)
    by_next (some f) e =
        rw (pop_next f (advance k s) e, until_next f s e, now')
          (elim (Bool-cases (leb f.at_time (s.now + k))) [
            | inl due ↦ rw due (λ a. cc, λ b. absurd (ground arith))
            | inr waits ↦ rw waits (λ a. ground arith, λ b. refl)
          ])

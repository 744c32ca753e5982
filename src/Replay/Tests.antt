-- ===== src/Replay/Tests.antt =====
-- A short replay, and a sort by the frames.
use gba_eval.Base.{ℕ, ◌≤◌, arith, if◌then◌else◌, leb, List, [], ◌∷◌, ◌++◌, Bool-cases, inl, inr}
use gba_eval.Replay.{InputEvent, InputReplay, keys_at, at}
use gba_eval.Replay.Latest.{
  IsIn, here, there, IsSorted, sorted_end, sorted_event, Sorts, IsHeld, keys_at-at,
}

insert : ℕ → ℕ → List InputEvent → List InputEvent
insert f k [] = (f, k) ∷ []
insert f k ((g, l) ∷ es) =
    let rest = insert f k es in if leb f g then (f, k) ∷ (g, l) ∷ es else (g, l) ∷ rest

sort : List InputEvent → List InputEvent
unfolding insert
sort [] = []
sort ((f, k) ∷ es) = insert f k (sort es)

insert-IsSorted :
    (f k : ℕ) {low : ℕ} (es : List InputEvent)
    → low ≤ f
    → IsSorted low es
    → IsSorted low (insert f k es)
unfolding insert
insert-IsSorted f k [] h s = sorted_event h sorted_end
insert-IsSorted f k ((g, l) ∷ es) h (sorted_event le s) = elim (Bool-cases (leb f g)) [
  | inl e ↦ rw e (sorted_event h (sorted_event (ground (arith, e)) s))
  | inr e ↦ rw e (sorted_event le (insert-IsSorted f k es (ground (arith, e)) s))
]

sort-IsSorted : (es : List InputEvent) → IsSorted 0 (sort es)
unfolding sort
sort-IsSorted [] = sorted_end
sort-IsSorted ((f, k) ∷ es) = insert-IsSorted f k (sort es) (omega arith) (sort-IsSorted es)

-- The second list is the first with `e` somewhere.
data Inserts (e : InputEvent) : List InputEvent → List InputEvent → Type 0 where
  at_front : {es : List InputEvent} → Inserts e es (e ∷ es)
  behind :
      {d : InputEvent} {es all : List InputEvent} → Inserts e es all → Inserts e (d ∷ es) (d ∷ all)

insert-Inserts : (f k : ℕ) (es : List InputEvent) → Inserts (f, k) es (insert f k es)
unfolding insert
insert-Inserts f k [] = at_front
insert-Inserts f k ((g, l) ∷ es) = elim (Bool-cases (leb f g)) [
  | inl h ↦ rw h at_front
  | inr h ↦ rw h (behind (insert-Inserts f k es))
]

Inserts-new : {e : InputEvent} {es all : List InputEvent} → Inserts e es all → IsIn e all
Inserts-new at_front = here
Inserts-new (behind i) = there (Inserts-new i)

Inserts-old :
    {d e : InputEvent} {es all : List InputEvent} → Inserts e es all → IsIn d es → IsIn d all
Inserts-old at_front p = there p
Inserts-old (behind i) here = here
Inserts-old (behind i) (there p) = there (Inserts-old i p)

skip : {a b e : InputEvent} {es : List InputEvent} → IsIn e (a ∷ es) → IsIn e (a ∷ b ∷ es)
skip here = here
skip (there p) = there (there p)

Inserts-all :
    {d e : InputEvent} {es all : List InputEvent} → Inserts e es all → IsIn d all → IsIn d (e ∷ es)
Inserts-all at_front p = p
Inserts-all (behind i) here = there here
Inserts-all (behind i) (there p) = skip (Inserts-all i p)

map_tail :
    {d e : InputEvent} {es all : List InputEvent}
    → IsIn d (e ∷ es)
    → (IsIn d es → IsIn d all)
    → IsIn d (e ∷ all)
map_tail here t = here
map_tail (there p) t = there (t p)

sort-takes : (e : InputEvent) (es : List InputEvent) → IsIn e (sort es) → IsIn e es
unfolding sort
sort-takes e [] p = p
sort-takes e ((f, k) ∷ es) p =
    map_tail (Inserts-all (insert-Inserts f k (sort es)) p) (sort-takes e es)

sort-keeps : (e : InputEvent) (es : List InputEvent) → IsIn e es → IsIn e (sort es)
unfolding sort
sort-keeps e [] p = elim p [ ]
sort-keeps e ((f, k) ∷ es) here = Inserts-new (insert-Inserts f k (sort es))
sort-keeps e ((f, k) ∷ es) (there p) =
    Inserts-old (insert-Inserts f k (sort es)) (sort-keeps e es p)

sort-Sorts : Sorts sort
sort-Sorts = record { ordered = sort-IsSorted; takes = sort-takes; keeps = sort-keeps }

-- Two presses, and the frame of a third between them.
abbrev played : InputReplay
played = record { events = (10, 1) ∷ (20, 8) ∷ [] }

keys_at-at_example : IsHeld 17 (played.events ++ ((15, 2) ∷ [])) (keys_at 17 (at sort 15 2 played))
keys_at-at_example = keys_at-at sort sort-Sorts 17 15 2 played

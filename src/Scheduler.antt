-- ===== src/Scheduler.antt =====
-- The event queue: candidates/gba-core/src/scheduler.rs. The binary heap is a list, and its `peek`
-- and `pop` take the entry of the smallest time: of several such entries the heap may return any,
-- here it is the one pushed first.
pub mod Due
mod Tests
use gba_eval.Base.{
  ℕ, zero, suc, ◌+◌, ◌-◌, ◌*◌, ◌^◌, min, ◌==◌, leb, ltb, Bool, true, false, if◌then◌else◌, u64,
  Option, some, none, List, [], ◌∷◌, ◌++◌,
}

pub data Event : Type 0 where
  h_draw : Event
  h_blank : Event
  timer_overflow : ℕ → Event

pub record Scheduled : Type 0 where
  pub at_time : ℕ
  pub event : Event

pub record Scheduler : Type 0 where
  pub now : ℕ
  pub queue : List Scheduled

unfoldable pub push : Event → ℕ → Scheduler → Scheduler
push event in_cycles s = record s {
  queue = s.queue ++ (record { at_time = u64 (s.now + in_cycles); event = event } ∷ []);
}

pub scheduler_new : Scheduler
unfolding push
scheduler_new = push h_blank 960 (record { now = 0; queue = [] })

pub advance : ℕ → Scheduler → Scheduler
advance cycles s = record s { now = u64 (s.now + cycles) }

-- The smaller of an entry and the smallest of the rest, by `cmp`.
earlier : Scheduled → Option Scheduled → Scheduled
earlier e none = e
earlier e (some f) = if leb e.at_time f.at_time then e else f

-- `BinaryHeap::peek` of the reversed order.
pub peek : List Scheduled → Option Scheduled
peek [] = none
peek (e ∷ q) = some (earlier e (peek q))

-- `BinaryHeap::pop`: the queue without the entry of that time.
pub remove_first : ℕ → List Scheduled → List Scheduled
remove_first t [] = []
remove_first t (e ∷ q) = if e.at_time == t then q else e ∷ remove_first t q

pub pop_due : Scheduler → Scheduler × Option Event
pop_due s = elim (peek s.queue) [
  | none ↦ (s, none)
  | some e ↦
      if leb e.at_time s.now
      then (record s { queue = remove_first e.at_time s.queue }, some e.event)
      else (s, none)
]

pub cycles_until_next : Scheduler → ℕ
cycles_until_next s = elim (peek s.queue) [
  | none ↦ 2 ^ 32 - 1
  | some e ↦ min (e.at_time - s.now) (2 ^ 32 - 1)
]

-- ===== src/Replay.antt =====
-- The input of a run, by frames: harness/lockstep/src/replay.rs.
pub mod Latest
mod Tests
use gba_eval.Base.{ℕ, Bool, true, false, if◌then◌else◌, List, [], ◌∷◌, ◌++◌, ltb}

-- A frame and the keys that are held from it on.
abbrev pub InputEvent : Type 0
InputEvent = ℕ × ℕ

pub record InputReplay : Type 0 where
  pub events : List InputEvent

abbrev pub replay_new : InputReplay
replay_new = record { events = [] }

-- The replay with one more event, in the order of `sort`, which stands for `sort_unstable_by_key` by
-- the frames: the standard library does not say how it orders the events of one frame.
pub at : (List InputEvent → List InputEvent) → ℕ → ℕ → InputReplay → InputReplay
at sort frame keys r = record { events = sort (r.events ++ ((frame, keys) ∷ [])) }

-- The scan over the events, which stops behind the frame; the keys found so far.
pub scan : ℕ → ℕ → List InputEvent → ℕ
scan frame keys [] = keys
scan frame keys ((f, k) ∷ es) = let rest = scan frame k es in if ltb frame f then keys else rest

pub keys_at : ℕ → InputReplay → ℕ
unfolding scan
keys_at frame r = scan frame 0 r.events

last_frame : ℕ → List InputEvent → ℕ
last_frame frame [] = frame
last_frame frame ((f, k) ∷ es) = last_frame f es

pub last_event_frame : InputReplay → ℕ
unfolding last_frame
last_event_frame r = last_frame 0 r.events

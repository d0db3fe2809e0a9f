-- ===== src/Render.antt =====
-- src/uxon/tui/render_scheduler.py: when the dashboard is drawn. Times are whole milliseconds of the
-- monotonic clock, and a timer is the time at which it is due. What `render` answers, and the clock
-- after it, are arguments; `render` calls nothing of the scheduler.
pub mod Pending
pub mod Batches
pub mod Met
use uxon.Prelude.{
  ℕ, ◌+◌, ◌-◌, min, String, Bool, true, false, Option, none, some, List, [], ◌∷◌, one_of, ltb, ◌==◌,
  if◌then◌else◌,
}

pub record RenderScheduler : Type 0 where
  pub debounce : ℕ
  pub max_latency : ℕ
  -- a set, without repetition
  pub dirty : List String
  pub timer : Option ℕ
  pub batch_start : Option ℕ
  pub last_fire : Option ℕ
  -- not in the source: the sets that `render` drew, the newest first
  pub drawn : List (List String)

-- `__init__`
abbrev pub new : ℕ → ℕ → RenderScheduler
new debounce_ms max_latency_ms = record {
  debounce = debounce_ms;
  max_latency = max_latency_ms;
  dirty = [];
  timer = none;
  batch_start = none;
  last_fire = none;
  drawn = [];
}

-- one call of `render`: whether it drew, and the clock behind it
pub record Drawing : Type 0 where
  pub rendered : Bool
  pub at : ℕ

-- `_fire`
unfoldable pub fire : Drawing → RenderScheduler → RenderScheduler
fire d s =
    let idle = record s { timer = none; batch_start = none } in
    elim s.dirty [
      | [] ↦ idle
      | kind ∷ kinds ↦
          if d.rendered
          then record idle { dirty = []; last_fire = some d.at; drawn = (kind ∷ kinds) ∷ s.drawn }
          else idle
    ]

-- the delay of `_reschedule`, where max(0.0, ...) is the subtraction that stops at 0
unfoldable pub delay : ℕ → ℕ → RenderScheduler → ℕ
delay now start s = min s.debounce (s.max_latency + start - now)

-- the end of `_reschedule`, from whether nothing is left of the delay
abbrev pub schedule : Bool → ℕ → ℕ → Drawing → RenderScheduler → RenderScheduler
schedule true now start d s = fire d (record s { timer = none })
schedule false now start d s = record s { timer = some (now + delay now start s) }

abbrev pub reschedule_from : Option ℕ → ℕ → Drawing → RenderScheduler → Option RenderScheduler
reschedule_from none now d s = none
reschedule_from (some start) now d s = some (schedule (delay now start s == 0) now start d s)

-- `_reschedule`; `none` is its AssertionError
unfoldable pub reschedule : ℕ → Drawing → RenderScheduler → Option RenderScheduler
unfolding fire delay
reschedule now d s = reschedule_from s.batch_start now d s

unfoldable pub add_kind : String → List String → List String
add_kind kind kinds = if one_of kind kinds then kinds else kind ∷ kinds

-- whether the last drawing is less than the debounce ago
unfoldable pub cool : ℕ → RenderScheduler → Bool
cool now s = elim s.last_fire [ none ↦ false | some last ↦ ltb now (last + s.debounce) ]

-- `request`, from the timer and whether the last drawing is recent
abbrev pub request_from : Option ℕ → Bool → ℕ → Drawing → RenderScheduler → Option RenderScheduler
request_from (some due) recent now d s = reschedule now d s
request_from none true now d s = reschedule now d (record s { batch_start = some now })
request_from none false now d s = some (fire d (record s { batch_start = some now }))

unfoldable pub request : String → ℕ → Drawing → RenderScheduler → Option RenderScheduler
unfolding add_kind cool reschedule fire
request kind now d s =
    request_from s.timer (cool now s) now d (record s { dirty = add_kind kind s.dirty })

unfoldable pub shutdown : RenderScheduler → RenderScheduler
shutdown s = record s { timer = none; dirty = []; batch_start = none }

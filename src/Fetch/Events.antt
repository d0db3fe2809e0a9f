-- ===== src/Fetch/Events.antt =====
-- Everything that can happen to one source: the event loop's calls, the threads' moves, and what
-- Textual does to a worker's handle, in any order.
mod Threads
mod Invariant
pub mod SingleFlight
use uxon.Prelude.{
  ℕ, zero, suc, ◌+◌, Bool, true, false, Option, none, some, List, [], ◌∷◌, ◌++◌, get_elem?,
  remove_at,
}
use uxon.Breaker.Float.{Floats}
use uxon.Fetch.{
  Entry, Landed, Move, WorkerState, thread_step, Source, init, kick_source, source_landed, Phase,
  fetching,
}

module _ (fl : Floats) where
  pub data Event : Type 0 where
    -- `kick_source(manual=...)` at a time; whether `run_worker` succeeds
    kick : Bool → fl.Num → Bool → Event
    -- the worker's handle takes a state, such as CANCELLED while its thread runs
    set_handle : WorkerState → Event
    -- other sources draw attempt ids
    others_kicked : ℕ → Event
    -- the thread of the current attempt moves, or that of the i-th older one
    move_current : Move → Event
    move_older : ℕ → Move → Event
    -- the event loop reads the i-th message: the random source and the clock for its report
    deliver : ℕ → (fl.Num → fl.Num → fl.Num) → fl.Num → Event

  on_current : Move → Option Entry → Source fl → Source fl
  on_current m none s = s
  on_current m (some e) s =
      let (e', sent) = thread_step m e in record s { current = some e'; queue = s.queue ++ sent }

  on_older : ℕ → Move → List Entry → List Entry × List Landed
  on_older i m [] = ([], [])
  on_older zero m (e ∷ es) = let (e', sent) = thread_step m e in (e' ∷ es, sent)
  on_older (suc i) m (e ∷ es) = let (es', sent) = on_older i m es in (e ∷ es', sent)

  deliver_message : (fl.Num → fl.Num → fl.Num) → fl.Num → Option Landed → ℕ → Source fl → Source fl
  deliver_message uniform now none i s = s
  deliver_message uniform now (some event) i s =
      (source_landed fl uniform now event (record s { queue = remove_at i s.queue })).1

  unfoldable pub step : Event → Source fl → Source fl
  unfolding on_current on_older deliver_message
  step (kick manual now spawned) s = kick_source fl manual now spawned s
  step (set_handle state) s = record s { handle = some state }
  step (others_kicked n) s = record s { next_attempt_id = s.next_attempt_id + n }
  step (move_current m) s = on_current m s.current s
  step (move_older i m) s =
      let (older, sent) = on_older i m s.older in
      record s { older = older; queue = s.queue ++ sent }
  step (deliver i uniform now) s = deliver_message uniform now (get_elem? s.queue i) i s

  unfoldable pub run : List Event → Source fl → Source fl
  run [] s = s
  run (event ∷ events) s = run events (step event s)

  abbrev is_fetching : Phase → ℕ
  is_fetching fetching = 1
  is_fetching phase = 0

  abbrev fetches_older : List Entry → ℕ
  fetches_older [] = 0
  fetches_older (e ∷ es) = is_fetching e.thread + fetches_older es

  abbrev fetches_current : Option Entry → ℕ
  fetches_current none = 0
  fetches_current (some e) = is_fetching e.thread

  -- How many threads are in a fetch from this source.
  abbrev pub fetches : Source fl → ℕ
  fetches s = fetches_current s.current + fetches_older s.older

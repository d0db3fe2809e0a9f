-- ===== src/Fetch.antt =====
-- The life of one remote source's fetches: `_RemoteAttempt` and `WorkerCoordinator` of
-- src/uxon/tui/workers.py, with the threads that run beside the event loop. Textual's worker handle
-- may take any state at any time, as an external event; a thread cannot be stopped.
pub mod Events
use uxon.Prelude.{
  ℕ, zero, suc, ◌+◌, String, Bool, true, false, not, Option, none, some, List, [], ◌∷◌, ◌++◌, ◌&&◌,
  ◌||◌, ◌==◌, one_of, truthy, if◌then◌else◌,
}
use uxon.Breaker.Float.{Floats}
use uxon.Breaker.{
  HostBreaker, default_spec, new, on_success, on_failure, should_attempt, mark_inflight,
  clear_inflight,
}

pub record RemoteAttempt : Type 0 where
  pub attempt_id : ℕ
  pub started : Bool
  pub invalidated : Bool
  pub finished_without_landing : Bool

unfoldable pub new_attempt : ℕ → RemoteAttempt
new_attempt attempt_id = record {
  attempt_id = attempt_id;
  started = false;
  invalidated = false;
  finished_without_landing = false;
}

-- Each method holds the attempt's lock, so it is one step.
unfoldable pub start : RemoteAttempt → Bool × RemoteAttempt
start a = if a.invalidated then (false, a) else (true, record a { started = true })

unfoldable pub cancel_pending : RemoteAttempt → Bool × RemoteAttempt
cancel_pending a =
    if a.started && not a.finished_without_landing
    then (false, a)
    else (true, record a { invalidated = true })

unfoldable pub finish : Bool → RemoteAttempt → RemoteAttempt
finish posted a = record a { finished_without_landing = not posted }

-- `RemoteSnapshot`, as far as the coordinator reads it
pub record Snapshot : Type 0 where
  pub error : Option String
  pub error_code : Option String

abbrev pub is_live : Snapshot → Bool
is_live snap = elim snap.error [ none ↦ true | some _ ↦ false ]

abbrev pub compatibility_error_codes : List String
compatibility_error_codes = "update_remote" ∷ "update_local" ∷ "incompatible" ∷ []

abbrev is_incompatible : Option Snapshot → Bool
is_incompatible none = false
is_incompatible (some snap) = elim snap.error_code [
  | none ↦ false
  | some code ↦ one_of code compatibility_error_codes
]

-- `_RefreshSourceLanded`
pub record Landed : Type 0 where
  pub attempt_id : ℕ
  pub error : String
  pub value : Option Snapshot

-- `not event.error and snap is not None and snap.is_live`
abbrev succeeded : Landed → Bool
succeeded event =
    not (truthy event.error) && elim event.value [ none ↦ false | some snap ↦ is_live snap ]

-- Where the thread of an attempt is in `_source_worker`.
pub data Phase : Type 0 where
  -- not entered yet
  waiting : Phase
  -- in `run_source`
  fetching : Phase
  -- behind `post_message`, before `finish`
  posted : Phase
  -- returned, or never created
  ended : Phase

pub record Entry : Type 0 where
  pub attempt : RemoteAttempt
  pub thread : Phase

pub data Move : Type 0 where
  enter : Move
  post : String → Option Snapshot → Move
  -- the fetch raised, or `post_message` returned false
  lose : Move
  leave : Move

-- a move that the thread is not ready for does nothing
move_from : Phase → Move → Entry → Entry × List Landed
unfolding start finish
move_from waiting enter e =
    let (entered, a) = start e.attempt in
    (record { attempt = a; thread = if entered then fetching else ended }, [])
move_from fetching (post error value) e = (
  record e { thread = posted },
  record { attempt_id = e.attempt.attempt_id; error = error; value = value } ∷ [],
)
move_from fetching lose e = (record { attempt = finish false e.attempt; thread = ended }, [])
move_from posted leave e = (record { attempt = finish true e.attempt; thread = ended }, [])
move_from phase move e = (e, [])

unfoldable pub thread_step : Move → Entry → Entry × List Landed
unfolding move_from
thread_step move e = move_from e.thread move e

pub data WorkerState : Type 0 where
  pending running cancelled error success : WorkerState

abbrev pub worker_active : Option WorkerState → Bool
worker_active (some pending) = true
worker_active (some running) = true
worker_active handle = false

-- handle.state in (CANCELLED, ERROR)
abbrev pub worker_broken : Option WorkerState → Bool
worker_broken (some cancelled) = true
worker_broken (some error) = true
worker_broken handle = false

abbrev pub push : Option Entry → List Entry → List Entry
push none older = older
push (some e) older = e ∷ older

abbrev pub current_id_is : ℕ → Option Entry → Bool
current_id_is n none = false
current_id_is n (some e) = e.attempt.attempt_id == n

module _ (fl : Floats) where
  -- What the coordinator holds for one source, the threads of its attempts, and its messages that
  -- the event loop has not read. `current` is `_remote_attempts.get(name)`; `older` are the attempts
  -- that it replaced.
  pub record Source : Type 0 where
    pub handle : Option WorkerState
    pub breaker : Option (HostBreaker fl)
    pub current : Option Entry
    pub older : List Entry
    pub next_attempt_id : ℕ
    pub queue : List Landed

  abbrev pub init : Source
  init = record {
    handle = none;
    breaker = none;
    current = none;
    older = [];
    next_attempt_id = 0;
    queue = [];
  }

  abbrev pub or_new : Option (HostBreaker fl) → HostBreaker fl
  or_new none = new fl (default_spec fl)
  or_new (some b) = b

  -- `if handle ... in (CANCELLED, ERROR)`: a worker that broke gives its reservation back, unless
  -- its thread is in the fetch
  unfoldable pub release : Bool → Option Entry → HostBreaker fl → Option Entry × HostBreaker fl
  unfolding cancel_pending clear_inflight
  release false current b = (current, b)
  release true none b = (none, b)
  release true (some e) b =
      let (gave_up, a) = cancel_pending e.attempt in
      (some (record e { attempt = a }), if gave_up then clear_inflight fl b else b)

  -- the admitted part of `kick_source`; `spawned` is false if `run_worker` raises
  unfoldable pub spawn : Bool → Option Entry → HostBreaker fl → Source → Source
  unfolding new_attempt mark_inflight clear_inflight
  spawn spawned current b s =
      let marked = mark_inflight fl b in
      let attempt_id = s.next_attempt_id + 1 in
      record {
        handle = if spawned then some pending else s.handle;
        breaker = some (if spawned then marked else clear_inflight fl marked);
        current = some (record {
          attempt = new_attempt attempt_id;
          thread = if spawned then waiting else ended;
        });
        older = push current s.older;
        next_attempt_id = attempt_id;
        queue = s.queue;
      }

  -- `breaker.in_flight or (not manual and not breaker.should_attempt())`, and the breaker then
  unfoldable pub admitted : Bool → fl.Num → HostBreaker fl → Bool × HostBreaker fl
  unfolding should_attempt
  admitted manual now b =
      if b.in_flight then (false, b) else if manual then (true, b) else should_attempt fl now b

  -- the branch for a source whose name starts with "remote:"
  unfoldable pub kick_idle : Bool → fl.Num → Bool → Source → Source
  kick_idle manual now spawned s =
      let (current, b) = release (worker_broken s.handle) s.current (or_new s.breaker) in
      let (go, b') = admitted manual now b in
      if go then spawn spawned current b' s else record s { breaker = some b'; current = current }

  unfoldable pub kick_source : Bool → fl.Num → Bool → Source → Source
  kick_source manual now spawned s =
      if worker_active s.handle then s else kick_idle manual now spawned s

  -- the outcome, as the breaker is told
  unfoldable pub report :
      (fl.Num → fl.Num → fl.Num) → fl.Num → Landed → HostBreaker fl → HostBreaker fl
  unfolding on_success on_failure clear_inflight
  report uniform now event b = clear_inflight fl (
      if succeeded event
      then on_success fl b
      else on_failure fl (default_spec fl) uniform now (is_incompatible event.value) b)

  -- the answer tells the app to apply the result
  unfoldable pub source_landed :
      (fl.Num → fl.Num → fl.Num) → fl.Num → Landed → Source → Bool × Source
  source_landed uniform now event s =
      if not (event.attempt_id == 0) && not (current_id_is event.attempt_id s.current)
      then (false, s)
      else elim s.breaker [
        | none ↦ (true, s)
        | some b ↦ (true, record s { breaker = some (report uniform now event b) })
      ]

-- ===== src/Fetch/Events/Threads.antt =====
-- What a move of a thread in `_source_worker` does to its attempt.
use uxon.Prelude.{◌≡◌, refl, Bool, true, false, not, List, [], ◌&&◌, All, arith}
use uxon.Fetch.{
  RemoteAttempt, Phase, waiting, fetching, posted, Entry, Landed, Move, enter, post, lose, leave,
  move_from, thread_step,
}

-- The thread is in no fetch, and will enter none.
abbrev pub inert : Entry → Bool
inert e = elim e.thread [ waiting ↦ e.attempt.invalidated | fetching ↦ false | _ ↦ true ]

-- The thread has left its fetch.
abbrev pub past : Entry → Bool
past e = elim e.thread [ waiting ↦ false | fetching ↦ false | _ ↦ true ]

-- A thread that waits or fetches has not finished, and the cancellation of a fetch is refused.
abbrev pub guarded : Entry → Bool
guarded e = elim e.thread [
  | waiting ↦ not e.attempt.finished_without_landing
  | fetching ↦ e.attempt.started && not e.attempt.finished_without_landing
  | _ ↦ true
]

pub record Steps (e e' : Entry) (sent : List Landed) : Type 0 where
  pub same_id : e'.attempt.attempt_id ≡ e.attempt.attempt_id
  pub stays_inert : inert e ≡ true → inert e' ≡ true
  pub stays_past : past e ≡ true → past e' ≡ true
  pub stays_guarded : guarded e ≡ true → guarded e' ≡ true
  pub quiet : inert e ≡ true → sent ≡ []
  pub sent_ok : All (λ m. (m.attempt_id ≡ e.attempt.attempt_id) × (past e' ≡ true)) sent

Steps-refl : (e : Entry) → Steps e e []
Steps-refl e = record {
  same_id = refl;
  stays_inert = λ h. h;
  stays_past = λ h. h;
  stays_guarded = λ h. h;
  quiet = λ h. refl;
  sent_ok = tt;
}

abbrev pub entry : RemoteAttempt → Phase → Entry
entry a phase = record { attempt = a; thread = phase }

enter-Steps :
    (a : RemoteAttempt) → Steps (entry a waiting) (move_from waiting enter (entry a waiting)).0 []
unfolding move_from
enter-Steps a = record {
  same_id = ground arith;
  stays_inert = ground arith;
  stays_past = ground arith;
  stays_guarded = ground arith;
  quiet = λ h. refl;
  sent_ok = tt;
}

from_phase :
    (phase : Phase) (m : Move) (a : RemoteAttempt)
    → let r = move_from phase m (entry a phase) in Steps (entry a phase) r.0 r.1
unfolding move_from
from_phase waiting enter a = enter-Steps a
from_phase fetching (post error value) a = record {
  same_id = refl;
  stays_inert = λ h. refl;
  stays_past = λ h. refl;
  stays_guarded = λ h. refl;
  quiet = λ h. cc;
  sent_ok = ((refl, refl), tt);
}
from_phase fetching lose a = record {
  same_id = refl;
  stays_inert = λ h. refl;
  stays_past = λ h. refl;
  stays_guarded = λ h. refl;
  quiet = λ h. refl;
  sent_ok = tt;
}
from_phase posted leave a = record {
  same_id = refl;
  stays_inert = λ h. refl;
  stays_past = λ h. refl;
  stays_guarded = λ h. refl;
  quiet = λ h. refl;
  sent_ok = tt;
}
from_phase phase m a = Steps-refl (entry a _)

pub thread_step-Steps : (m : Move) (e : Entry) → Steps e (thread_step m e).0 (thread_step m e).1
unfolding thread_step
thread_step-Steps m e = from_phase e.thread m e.attempt

-- ===== src/Examples/Sources.antt =====
-- A source whose worker is cancelled while its thread is in the fetch, and kicked again.
use uxon.Prelude.{◌≤◌, ◌≡◌, refl, true, false, none, List, [], ◌∷◌}
use uxon.Breaker.{mark_inflight, should_attempt, new, max_of}
use uxon.Fetch.{
  kick_source, kick_idle, release, admitted, spawn, start, cancel_pending, new_attempt, thread_step,
  init, or_new, enter, post, leave, cancelled,
}
use uxon.Fetch.Events.{Event, kick, set_handle, move_current, deliver, step, run, fetches}
use uxon.Fetch.Events.SingleFlight.{busy, single_flight, reserved_while_live}
use uxon.Examples.Numbers.{naturals}

abbrev story : List (Event naturals)
story =
    kick true 0 true
    ∷ move_current enter
    ∷ set_handle cancelled
    ∷ kick true 5 true
    ∷ kick false 9 true
    ∷ []

abbrev whole_story : List (Event naturals)
whole_story =
    kick true 0 true
    ∷ move_current enter
    ∷ move_current (post "" none)
    ∷ move_current leave
    ∷ deliver 0 (λ a b. a) 7
    ∷ kick true 8 true
    ∷ []

single_flight_example : fetches naturals (run naturals story (init naturals)) ≤ 1
single_flight_example = single_flight naturals story

cancelled_then_kicked : fetches naturals (run naturals story (init naturals)) ≡ 1
unfolding run step kick_source kick_idle release admitted spawn start cancel_pending mark_inflight
    should_attempt new new_attempt max_of thread_step
cancelled_then_kicked = refl

fetch_goes_on : busy (run naturals story (init naturals)).current ≡ true
unfolding run step kick_source kick_idle release admitted spawn start cancel_pending mark_inflight
    should_attempt new new_attempt max_of thread_step
fetch_goes_on = refl

reserved_while_live_example :
    (or_new naturals (run naturals story (init naturals)).breaker).in_flight ≡ true
reserved_while_live_example = reserved_while_live naturals story fetch_goes_on

-- ===== src/Breaker.antt =====
-- src/uxon/domain/host_breaker.py. Python's floats, the clock and the random source are not part of
-- the program: `Floats` has the operations that the code uses, a clock reading is an argument, and so
-- is the function `uniform` that the random source is for one call.
pub mod Float
pub mod Invariant
pub mod Backoff
use uxon.Prelude.{ℕ, ◌+◌, Bool, true, false, not, ltb, if◌then◌else◌}
use uxon.Breaker.Float.{Floats}

pub data BreakerState : Type 0 where
  closed opened half_open : BreakerState

module _ (fl : Floats) where
  open fl use {Num, number, add, sub, mul, div, neg, lt}

  pub record BreakerSpec : Type 0 where
    pub factor : Num
    pub cap_seconds : Num
    pub trip_after : ℕ
    pub half_open_jitter_pct : Num

  pub record HostBreaker : Type 0 where
    pub state : BreakerState
    pub initial_backoff : Num
    pub backoff_seconds : Num
    pub next_attempt_at : Num
    pub in_flight : Bool
    pub consecutive_failures : ℕ

  -- min(a, b) and max(a, b) return the first of two equal arguments
  unfoldable pub min_of : Num → Num → Num
  min_of a b = if lt b a then b else a

  unfoldable pub max_of : Num → Num → Num
  max_of a b = if lt a b then b else a

  -- the defaults of `BreakerSpec`
  abbrev pub default_spec : BreakerSpec
  default_spec = record {
    factor = number 2;
    cap_seconds = number 60;
    trip_after = 3;
    half_open_jitter_pct = number 25;
  }

  -- `__init__`
  unfoldable pub new : BreakerSpec → HostBreaker
  unfolding max_of
  new spec =
      let initial = max_of (div spec.cap_seconds spec.factor) (number 1) in
      record {
        state = closed;
        initial_backoff = initial;
        backoff_seconds = initial;
        next_attempt_at = number 0;
        in_flight = false;
        consecutive_failures = 0;
      }

  unfoldable pub on_success : HostBreaker → HostBreaker
  on_success b = record b {
    state = closed;
    backoff_seconds = b.initial_backoff;
    next_attempt_at = number 0;
    consecutive_failures = 0;
    in_flight = false;
  }

  abbrev pub cooldown : Num
  cooldown = number 300

  -- COMPATIBILITY_JITTER_PCT / 100.0
  abbrev pub compatibility_pct : Num
  compatibility_pct = div (number 10) (number 100)

  -- the branch `if incompatible`
  unfoldable pub open_incompatible : (Num → Num → Num) → Num → HostBreaker → HostBreaker
  open_incompatible uniform now b = record b {
    consecutive_failures = b.consecutive_failures + 1;
    state = opened;
    in_flight = false;
    backoff_seconds = cooldown;
    next_attempt_at = add now (
        mul cooldown
          (uniform (sub (number 1) compatibility_pct) (add (number 1) compatibility_pct)));
  }

  abbrev pub jitter_pct : BreakerSpec → Num
  jitter_pct spec = div spec.half_open_jitter_pct (number 100)

  -- the end of `on_failure`, with the window that was chosen
  unfoldable pub open_window :
      BreakerSpec → (Num → Num → Num) → Num → Num → HostBreaker → HostBreaker
  open_window spec uniform now window b = record b {
    backoff_seconds = window;
    state = opened;
    in_flight = false;
    next_attempt_at =
        add (add now window) (mul (uniform (neg (jitter_pct spec)) (jitter_pct spec)) window);
  }

  -- the window after one more failure outside `closed`
  unfoldable pub grown : BreakerSpec → HostBreaker → Num
  unfolding min_of
  grown spec b = min_of (mul b.backoff_seconds spec.factor) spec.cap_seconds

  fail_closed : BreakerSpec → (Num → Num → Num) → Num → HostBreaker → HostBreaker
  unfolding open_window
  fail_closed spec uniform now b =
      let counted = record b { consecutive_failures = b.consecutive_failures + 1 } in
      if ltb counted.consecutive_failures spec.trip_after
      then counted
      else open_window spec uniform now b.initial_backoff counted

  -- `self.state == "closed"`
  fail_from : BreakerState → BreakerSpec → (Num → Num → Num) → Num → HostBreaker → HostBreaker
  unfolding fail_closed grown open_window
  fail_from closed spec uniform now b = fail_closed spec uniform now b
  fail_from opened spec uniform now b = open_window spec uniform now (grown spec b) b
  fail_from half_open spec uniform now b = open_window spec uniform now (grown spec b) b

  unfoldable pub on_failure :
      BreakerSpec → (Num → Num → Num) → Num → Bool → HostBreaker → HostBreaker
  unfolding fail_from open_incompatible
  on_failure spec uniform now incompatible b =
      if incompatible then open_incompatible uniform now b else fail_from b.state spec uniform now b

  -- the answer, and the breaker that `open` may have promoted
  admit : BreakerState → Num → HostBreaker → Bool × HostBreaker
  admit closed now b = (not b.in_flight, b)
  admit opened now b =
      if lt now b.next_attempt_at
      then (false, b)
      else (not b.in_flight, record b { state = half_open })
  admit half_open now b = (not b.in_flight, b)

  unfoldable pub should_attempt : Num → HostBreaker → Bool × HostBreaker
  unfolding admit
  should_attempt now b = admit b.state now b

  unfoldable pub mark_inflight : HostBreaker → HostBreaker
  mark_inflight b = record b { in_flight = true }

  unfoldable pub clear_inflight : HostBreaker → HostBreaker
  clear_inflight b = record b { in_flight = false }

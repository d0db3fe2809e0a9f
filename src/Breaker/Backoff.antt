-- ===== src/Breaker/Backoff.antt =====
-- When a breaker trips, how long it stays open, and when it admits an attempt.
use uxon.Prelude.{
  refl, map, ℕ, zero, suc, ◌+◌, ◌<◌, ◌≡◌, sym, ◌∙◌, ap, ◌≢◌, Bool, true, false, not, ◌&&◌, List, [],
  ◌∷◌, ltb, if◌then◌else◌, arith, length,
}
use uxon.Breaker.Float.{Floats, FloatLaws, Le}
use uxon.Breaker.{
  min_of, BreakerState, closed, opened, half_open, BreakerSpec, HostBreaker, jitter_pct, grown,
  on_failure, should_attempt, mark_inflight,
}

abbrev is_closed : BreakerState → Bool
is_closed closed = true
is_closed other = false

abbrev is_opened : BreakerState → Bool
is_opened opened = true
is_opened other = false

opened≢closed : opened ≢ closed
opened≢closed e = cc

module _ (fl : Floats) (spec : BreakerSpec fl) where
  -- A transient failure: what the random source is for it, and the clock at it.
  abbrev pub Failure : Type 0
  Failure = (fl.Num → fl.Num → fl.Num) × fl.Num

  -- Transient failures, one after another.
  pub fail_all : List Failure → HostBreaker fl → HostBreaker fl
  fail_all [] b = b
  fail_all ((uniform, now) ∷ rest) b = fail_all rest (on_failure fl spec uniform now false b)

  -- A window that has been multiplied by the factor, and cut to the cap, n times.
  abbrev pub window_after : ℕ → fl.Num → fl.Num
  window_after zero w = w
  window_after (suc n) w =
      let wider = fl.mul w spec.factor in
      window_after n (if fl.lt spec.cap_seconds wider then spec.cap_seconds else wider)

  on_failure_below :
      (uniform : fl.Num → fl.Num → fl.Num) (now : fl.Num) (b : HostBreaker fl)
      → b.state ≡ closed
      → b.consecutive_failures + 1 < spec.trip_after
      → on_failure fl spec uniform now false b
        ≡ record b { consecutive_failures = b.consecutive_failures + 1 }
  unfolding on_failure
  on_failure_below uniform now b c h = ground arith

  fail_all_below :
      (fs : List Failure) (b : HostBreaker fl)
      → b.state ≡ closed
      → b.consecutive_failures + length fs < spec.trip_after
      → fail_all fs b ≡ record b { consecutive_failures = b.consecutive_failures + length fs }
  unfolding fail_all
  fail_all_below [] b c h = ground arith
  fail_all_below ((uniform, now) ∷ rest) b c h =
      rw (on_failure_below uniform now b c (omega arith)) (
        fail_all_below rest (record b { consecutive_failures = b.consecutive_failures + 1 }) c
          (omega arith)
        ∙ ap (λ (n : ℕ). record b { consecutive_failures = n }) (omega arith))

  on_failure_at :
      (uniform : fl.Num → fl.Num → fl.Num) (now : fl.Num) (b : HostBreaker fl)
      → b.state ≡ closed
      → b.consecutive_failures + 1 ≡ spec.trip_after
      → let b' = on_failure fl spec uniform now false b in
        (b'.state ≡ opened)
        × (b'.backoff_seconds ≡ b.initial_backoff)
        × (b'.initial_backoff ≡ b.initial_backoff)
  unfolding on_failure
  on_failure_at uniform now b c h = (ground arith, ground arith, ground arith)

  -- From a closed breaker, the failures before the `trip_after`-th change nothing but the counter,
  -- and the `trip_after`-th opens it with the initial window.
  pub trip_at_threshold :
      (fs : List Failure) (f : Failure) (b : HostBreaker fl)
      → b.state ≡ closed
      → b.consecutive_failures + length fs + 1 ≡ spec.trip_after
      → let b' = on_failure fl spec f.0 f.1 false (fail_all fs b) in
        (fail_all fs b ≡ record b { consecutive_failures = b.consecutive_failures + length fs })
        × (b'.state ≡ opened)
        × (b'.backoff_seconds ≡ b.initial_backoff)
  trip_at_threshold fs f b c h =
      let below = fail_all_below fs b c (omega arith) in
      let at =
        on_failure_at f.0 f.1
          (record b { consecutive_failures = b.consecutive_failures + length fs }) c h in
      (below, rw below at.0, rw below at.1)

  open_failure :
      (uniform : fl.Num → fl.Num → fl.Num) (now : fl.Num) (b : HostBreaker fl)
      → b.state ≢ closed
      → let b' = on_failure fl spec uniform now false b in
        (b'.state ≡ opened) × (b'.backoff_seconds ≡ window_after 1 b.backoff_seconds)
  unfolding on_failure grown min_of
  open_failure uniform now b h = (ground arith, ground arith)

  -- A breaker that is not closed stays so under transient failures: after one it is open, and its
  -- window has been multiplied by the factor and capped once for each.
  pub open_stays_open :
      (f : Failure) (fs : List Failure) (b : HostBreaker fl)
      → b.state ≢ closed
      → ((fail_all (f ∷ fs) b).state ≡ opened)
        × ((fail_all (f ∷ fs) b).backoff_seconds ≡ window_after (suc (length fs)) b.backoff_seconds)
  unfolding fail_all
  open_stays_open f [] b h = open_failure f.0 f.1 b h
  open_stays_open f (g ∷ fs) b h =
      let b' = on_failure fl spec f.0 f.1 false b in
      let (now_open, window) = open_failure f.0 f.1 b h in
      let (still, windows) = open_stays_open g fs b' (λ e. opened≢closed (sym now_open ∙ e)) in
      (still, windows ∙ ap (window_after (suc (length fs))) window)

module _ (fl : Floats) (laws : FloatLaws fl) (spec : BreakerSpec fl) where
  -- What is documented of `random.uniform(a, b)` for a ≤ b: the value lies between them.
  abbrev pub Uniform : (fl.Num → fl.Num → fl.Num) → Type 0
  Uniform uniform = (a b : fl.Num) → Le fl a b → Le fl a (uniform a b) × Le fl (uniform a b) b

  next_attempt-on_failure :
      (uniform : fl.Num → fl.Num → fl.Num) (now : fl.Num) (b : HostBreaker fl)
      → (on_failure fl spec uniform now false b).state ≡ opened
      → let b' = on_failure fl spec uniform now false b in
        b'.next_attempt_at
        ≡ fl.add
            (fl.add now b'.backoff_seconds)
            (fl.mul (uniform (fl.neg (jitter_pct fl spec)) (jitter_pct fl spec)) b'.backoff_seconds)
  unfolding on_failure
  next_attempt-on_failure uniform now b o = ground arith

  -- A transient failure that leaves the breaker open sets the next attempt at the clock plus the
  -- window, off by at most the jitter's share of the window in either direction, where the random
  -- source keeps its bounds, the share is not negative, and neither is the window.
  pub next_attempt_bounds :
      (uniform : fl.Num → fl.Num → fl.Num) (now : fl.Num) (b : HostBreaker fl)
      → Uniform uniform
      → Le fl (fl.neg (jitter_pct fl spec)) (jitter_pct fl spec)
      → Le fl (fl.number 0) (on_failure fl spec uniform now false b).backoff_seconds
      → (on_failure fl spec uniform now false b).state ≡ opened
      → let b' = on_failure fl spec uniform now false b in
        let middle = fl.add now b'.backoff_seconds in
        Le fl
          (fl.add middle (fl.mul (fl.neg (jitter_pct fl spec)) b'.backoff_seconds))
          b'.next_attempt_at
        × Le fl b'.next_attempt_at (fl.add middle (fl.mul (jitter_pct fl spec) b'.backoff_seconds))
  next_attempt_bounds uniform now b u p w o =
      let (low, high) = u (fl.neg (jitter_pct fl spec)) (jitter_pct fl spec) p in
      rw (next_attempt-on_failure uniform now b o) (
        laws.add_mono _ _ _ (laws.mul_mono _ _ _ w low),
        laws.add_mono _ _ _ (laws.mul_mono _ _ _ w high),
      )

module _ (fl : Floats) where
  -- A tick is admitted exactly if no probe is in flight and the breaker is not open before the time
  -- of its next attempt; of the breaker it changes at most the state, from open to half open, and
  -- does so exactly from that time on.
  should_attempt_exact :
      (now : fl.Num) (b : HostBreaker fl)
      → let early = is_opened b.state && fl.lt now b.next_attempt_at in
        ((should_attempt fl now b).0 ≡ not b.in_flight && not early)
        × ((should_attempt fl now b).1
            ≡ record b { state = if is_opened b.state && not early then half_open else b.state })
  unfolding should_attempt
  should_attempt_exact now b = (ground arith, ground arith)

  -- the answers to ticks at these times, one after another
  pub answers : List fl.Num → HostBreaker fl → List Bool
  answers [] b = []
  answers (now ∷ later) b =
      let (admitted, b') = should_attempt fl now b in admitted ∷ answers later b'

  gate :
      (now : fl.Num) (b : HostBreaker fl)
      → b.in_flight ≡ true
      → ((should_attempt fl now b).0 ≡ false) × ((should_attempt fl now b).1.in_flight ≡ true)
  unfolding should_attempt
  gate now b h = (ground arith, ground arith)

  answers-in_flight :
      (times : List fl.Num) (b : HostBreaker fl)
      → b.in_flight ≡ true
      → answers times b ≡ map (λ t. false) times
  unfolding answers
  answers-in_flight [] b h = refl
  answers-in_flight (now ∷ later) b h =
      let (refused, held) = gate now b h in
      ap (λ a. a ∷ answers later (should_attempt fl now b).1) refused
      ∙ ap (λ l. false ∷ l) (answers-in_flight later (should_attempt fl now b).1 held)

  -- While a probe is marked as running every tick is refused, whatever the state: after an admitted
  -- tick the breaker is not open, and once it is marked, any number of ticks at any times are all
  -- refused.
  pub single_probe :
      (now : fl.Num) (later : List fl.Num) (b : HostBreaker fl)
      → (should_attempt fl now b).0 ≡ true
      → (answers later (mark_inflight fl (should_attempt fl now b).1) ≡ map (λ t. false) later)
        × ((should_attempt fl now b).1.state ≢ opened)
  unfolding should_attempt mark_inflight
  single_probe now later b h =
      (answers-in_flight later (mark_inflight fl (should_attempt fl now b).1) refl, ground arith)

  -- What a failure does to the gate: it is released, except by a transient failure of a closed
  -- breaker that stays below the threshold, which leaves the gate as it was.
  in_flight-on_failure :
      (spec : BreakerSpec fl) (uniform : fl.Num → fl.Num → fl.Num) (now : fl.Num)
      (incompatible : Bool) (b : HostBreaker fl)
      → (on_failure fl spec uniform now incompatible b).in_flight ≡ (
          if not incompatible
            && is_closed b.state
            && ltb (b.consecutive_failures + 1) spec.trip_after
          then b.in_flight
          else false)
  unfolding on_failure
  in_flight-on_failure spec uniform now incompatible b = ground arith

-- ===== src/Examples/Numbers.antt =====
-- Breakers at concrete inputs, with the natural numbers for Python's floats.
use uxon.Prelude.{
  map, ℕ, ◌+◌, ◌-◌, ◌*◌, ◌/◌, ◌≤◌, ◌≡◌, ◌≢◌, refl, true, false, [], ◌∷◌, ltb, arith, inl,
}
use native.Mathlib.Nat.{mul-le-mul_right}
use uxon.Breaker.Float.{Floats, FloatLaws, Le}
use uxon.Breaker.{
  closed, opened, BreakerSpec, HostBreaker, on_failure, should_attempt, mark_inflight, jitter_pct,
}
use uxon.Breaker.Invariant.{IsValid, on_failure-IsValid}
use uxon.Breaker.Backoff.{
  Failure, fail_all, window_after, trip_at_threshold, open_stays_open, next_attempt_bounds, answers,
  single_probe,
}

abbrev pub naturals : Floats
naturals = record {
  Num = ℕ;
  number = λ n. n;
  add = λ a b. a + b;
  sub = λ a b. a - b;
  mul = λ a b. a * b;
  div = λ a b. a / b;
  neg = λ a. 0;
  lt = ltb;
}

not_less : (a b : ℕ) → b ≤ a → ltb a b ≡ false
not_less a b h = ground arith

mul_le : (a b c : ℕ) → ltb b a ≡ false → ltb (b * c) (a * c) ≡ false
mul_le a b c h =
    let below : a ≤ b = ground arith in not_less (b * c) (a * c) (mul-le-mul_right c below)

natural_laws : FloatLaws naturals
natural_laws = record {
  lt_irrefl = λ a. ground arith;
  lt_asymm = λ a b h. ground arith;
  le_trans = λ a b c h k. ground arith;
  add_mono = λ a b c h. ground arith;
  mul_mono = λ a b c h k. mul_le a b c k;
}

abbrev spec : BreakerSpec naturals
spec = record { factor = 2; cap_seconds = 60; trip_after = 3; half_open_jitter_pct = 0 }

abbrev fresh : HostBreaker naturals
fresh = record {
  state = closed;
  initial_backoff = 30;
  backoff_seconds = 30;
  next_attempt_at = 0;
  in_flight = true;
  consecutive_failures = 0;
}

abbrev tripped : HostBreaker naturals
tripped = record {
  state = opened;
  initial_backoff = 30;
  backoff_seconds = 30;
  next_attempt_at = 130;
  in_flight = false;
  consecutive_failures = 3;
}

abbrev low : ℕ → ℕ → ℕ
low a b = a

abbrev at_time : ℕ → Failure naturals spec
at_time now = (low, now)

opened_not_closed : opened ≢ closed
opened_not_closed e = cc

trip_at_threshold_example :
    (fail_all naturals spec (at_time 10 ∷ at_time 20 ∷ []) fresh
      ≡ record fresh { consecutive_failures = 2 })
    × ((on_failure naturals spec low 30 false
          (fail_all naturals spec (at_time 10 ∷ at_time 20 ∷ []) fresh)).state
        ≡ opened)
    × ((on_failure naturals spec low 30 false
          (fail_all naturals spec (at_time 10 ∷ at_time 20 ∷ []) fresh)).backoff_seconds
        ≡ 30)
trip_at_threshold_example =
    trip_at_threshold naturals spec (at_time 10 ∷ at_time 20 ∷ []) (at_time 30) fresh refl refl

open_stays_open_example :
    ((fail_all naturals spec (at_time 140 ∷ at_time 200 ∷ []) tripped).state ≡ opened)
    × ((fail_all naturals spec (at_time 140 ∷ at_time 200 ∷ []) tripped).backoff_seconds
        ≡ window_after naturals spec 2 tripped.backoff_seconds)
open_stays_open_example =
    open_stays_open naturals spec (at_time 140) (at_time 200 ∷ []) tripped opened_not_closed

low_keeps : (a b : ℕ) → Le naturals a b → Le naturals a (low a b) × Le naturals (low a b) b
low_keeps a b h = (ground arith, h)

is_open : (on_failure naturals spec low 140 false tripped).state ≡ opened
unfolding on_failure
is_open = refl

has_window : Le naturals 0 (on_failure naturals spec low 140 false tripped).backoff_seconds
unfolding on_failure
has_window = refl

next_attempt_bounds_example :
    let b' = on_failure naturals spec low 140 false tripped in
    Le naturals (140 + b'.backoff_seconds + 0 * b'.backoff_seconds) b'.next_attempt_at
    × Le naturals b'.next_attempt_at
        (140 + b'.backoff_seconds + jitter_pct naturals spec * b'.backoff_seconds)
next_attempt_bounds_example =
    next_attempt_bounds naturals natural_laws spec low 140 tripped low_keeps refl has_window is_open

admitted : (should_attempt naturals 130 tripped).0 ≡ true
unfolding should_attempt
admitted = refl

single_probe_example :
    (answers naturals
        (999 ∷ 1000 ∷ [])
        (mark_inflight naturals (should_attempt naturals 130 tripped).1)
      ≡ map {A = ℕ} (λ t. false) (999 ∷ 1000 ∷ []))
    × ((should_attempt naturals 130 tripped).1.state ≢ opened)
single_probe_example = single_probe naturals 130 (999 ∷ 1000 ∷ []) tripped admitted

fresh-IsValid : IsValid naturals spec fresh
fresh-IsValid = record { below_threshold = λ _. omega arith; fresh = λ _. refl; window = inl refl }

on_failure-IsValid_example : IsValid naturals spec (on_failure naturals spec low 10 true fresh)
on_failure-IsValid_example =
    on_failure-IsValid naturals natural_laws spec low 10 true fresh fresh-IsValid

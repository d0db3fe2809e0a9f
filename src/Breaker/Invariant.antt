-- ===== src/Breaker/Invariant.antt =====
-- What holds of a `HostBreaker` between two calls.
use uxon.Prelude.{◌<◌, ◌≡◌, refl, ◌⊎◌, inl, inr, Bool, false, arith, Bool-cases}
use uxon.Breaker.Float.{Floats, FloatLaws, Le}
use uxon.Breaker.{
  closed, BreakerSpec, HostBreaker, min_of, cooldown, new, on_success, grown, on_failure,
  should_attempt,
}

module _ (fl : Floats) (laws : FloatLaws fl) (spec : BreakerSpec fl) where
  min_of-le_right : (a b : fl.Num) → Le fl (min_of fl a b) b
  unfolding min_of
  min_of-le_right a b = elim (Bool-cases (fl.lt b a)) [
    | inl less ↦ rw less (laws.lt_irrefl b)
    | inr not_less ↦ rw not_less not_less
  ]

  pub grown-le-cap : (b : HostBreaker fl) → Le fl (grown fl spec b) spec.cap_seconds
  unfolding grown
  grown-le-cap b = min_of-le_right (fl.mul b.backoff_seconds spec.factor) spec.cap_seconds

  -- The window is the initial one, the one for incompatible peers, or at most the cap.
  abbrev pub WindowOk : fl.Num → fl.Num → Type 0
  WindowOk initial w = (w ≡ initial) ⊎ ((w ≡ cooldown fl) ⊎ Le fl w spec.cap_seconds)

module _ (fl : Floats) (spec : BreakerSpec fl) where
  pub record IsValid (b : HostBreaker fl) : Type 0 where
    -- a closed breaker has not reached the threshold
    pub below_threshold : b.state ≡ closed → b.consecutive_failures < spec.trip_after
    -- a closed breaker has the fresh window
    pub fresh : b.state ≡ closed → b.backoff_seconds ≡ b.initial_backoff
    pub window :
        (b.backoff_seconds ≡ b.initial_backoff)
        ⊎ ((b.backoff_seconds ≡ cooldown fl) ⊎ (fl.lt spec.cap_seconds b.backoff_seconds ≡ false))

module _ (fl : Floats) (laws : FloatLaws fl) (spec : BreakerSpec fl) where
  pub new-IsValid : 0 < spec.trip_after → IsValid fl spec (new fl spec)
  unfolding new
  new-IsValid positive = record {
    below_threshold = λ _. positive;
    fresh = λ _. refl;
    window = inl refl;
  }

  pub on_success-IsValid :
      (b : HostBreaker fl) → 0 < spec.trip_after → IsValid fl spec (on_success fl b)
  unfolding on_success
  on_success-IsValid b positive = record {
    below_threshold = λ _. positive;
    fresh = λ _. refl;
    window = inl refl;
  }

  -- A failure of either kind, whatever the random source and the clock, keeps a breaker valid: a
  -- closed breaker is below the threshold and has the initial window, and a window is the initial
  -- one, the one for incompatible peers, or at most the cap.
  pub on_failure-IsValid :
      (uniform : fl.Num → fl.Num → fl.Num) (now : fl.Num) (incompatible : Bool) (b : HostBreaker fl)
      → IsValid fl spec b
      → IsValid fl spec (on_failure fl spec uniform now incompatible b)
  unfolding on_failure
  on_failure-IsValid uniform now incompatible b h = record {
    below_threshold = ground arith;
    fresh = ground arith;
    window = ground (arith, grown-le-cap fl laws spec b);
  }

  pub should_attempt-IsValid :
      (now : fl.Num) (b : HostBreaker fl)
      → IsValid fl spec b
      → IsValid fl spec (should_attempt fl now b).1
  unfolding should_attempt
  should_attempt-IsValid now b h = ground arith

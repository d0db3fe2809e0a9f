-- ===== src/Examples/Draws.antt =====
-- A dashboard with a debounce of 50 ms and a latency of 80 ms, which gets a burst of requests.
use uxon.Prelude.{ℕ, ◌≡◌, refl, true, none, some, List, [], ◌∷◌}
use uxon.Render.{RenderScheduler, new, Drawing}
use uxon.Render.Pending.{Event, requested, run, IsDue, batch_since}
use uxon.Render.Batches.{run-Timely}
use uxon.Render.Met.{Met, run-Met}

abbrev drawn_at : ℕ → Drawing
drawn_at t = record { rendered = true; at = t }

abbrev burst : List Event
burst =
    requested "main" 1000 (drawn_at 1002)
    ∷ requested "remote" 1010 (drawn_at 1011)
    ∷ requested "main" 1040 (drawn_at 1041)
    ∷ requested "main" 1085 (drawn_at 1086)
    ∷ requested "remote" 1095 (drawn_at 1096)
    ∷ []

run-Timely_example :
    (s : RenderScheduler) × (run burst (new 50 80) ≡ some s)
    × IsDue (batch_since burst (new 50 80) none) s
run-Timely_example = run-Timely 50 80 burst

abbrev later : List Event
later =
    requested "main" 1040 (drawn_at 1041)
    ∷ requested "main" 1085 (drawn_at 1086)
    ∷ requested "remote" 1095 (drawn_at 1096)
    ∷ []

run-Met_example :
    (s : RenderScheduler) × (s' : RenderScheduler) × (run
        (requested "main" 1000 (drawn_at 1002) ∷ [])
        (new 50 80)
      ≡ some s)
    × (run (requested "remote" 1010 (drawn_at 1011) ∷ later) s ≡ some s')
    × Met "remote" s.drawn s'
run-Met_example =
    run-Met 50 80 (requested "main" 1000 (drawn_at 1002) ∷ []) later "remote" 1010 (drawn_at 1011)
      (refl, tt) (refl, (refl, (refl, (refl, tt)))) (refl, (refl, (refl, tt)))

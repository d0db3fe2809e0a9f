-- ===== src/Render/Batches.antt =====
-- When a batch of requests is drawn at the latest.
use uxon.Prelude.{
  ℕ, ◌≡◌, ◌⊎◌, refl, sym, ◌∙◌, inl, inr, Bool, true, false, Option, none, some, List, [], ◌∷◌, ◌==◌,
  Bool-cases,
}
use uxon.Render.{
  RenderScheduler, new, Drawing, fire, delay, schedule, reschedule_from, reschedule, request_from,
  add_kind, cool, request, shutdown,
}
use uxon.Render.Pending.{
  Event, requested, timer_due, shut_down, on_due, step, run, began, batch_since, IsDue, run-Settled,
}

-- The scheduler has the batch that began at this time, while a timer is pending.
abbrev Since : Option ℕ → RenderScheduler → Type 0
Since since s = (s.timer ≡ none) ⊎ (s.batch_start ≡ since)

fire-timer :
    (d : Drawing) (s : RenderScheduler) (kinds : List _) → s.dirty ≡ kinds → (fire d s).timer ≡ none
unfolding fire
fire-timer d s [] clean = rw (fire, clean) refl
fire-timer d s (k ∷ ks) marked = elim (Bool-cases d.rendered) [
  | inl drawn ↦ rw (fire, marked, drawn) refl
  | inr not_drawn ↦ rw (fire, marked, not_drawn) refl
]

schedule-Since :
    (b : Bool) (now start : ℕ) (d : Drawing) (s : RenderScheduler)
    → Since s.batch_start (schedule b now start d s)
schedule-Since true now start d s = inl (fire-timer d (record s { timer = none }) s.dirty refl)
schedule-Since false now start d s = inr refl

SinceIn : Option ℕ → Option RenderScheduler → Type 0
SinceIn since none = Unit
SinceIn since (some s) = Since since s

reschedule-Since :
    (o : Option ℕ) (now : ℕ) (d : Drawing) (s : RenderScheduler)
    → s.batch_start ≡ o
    → SinceIn o (reschedule_from o now d s)
unfolding SinceIn
reschedule-Since none now d s e = tt
reschedule-Since (some start) now d s e =
    elim (schedule-Since (delay now start s == 0) now start d s) [
      | inl idle ↦ inl idle
      | inr same ↦ inr (same ∙ e)
    ]

request_from-Since :
    (timer since : Option ℕ) (recent : Bool) (kind : _) (now : ℕ) (d : Drawing)
    (s : RenderScheduler)
    → (timer ≡ none) ⊎ (s.batch_start ≡ since)
    → SinceIn (began (requested kind now d) timer since) (request_from timer recent now d s)
unfolding reschedule SinceIn
request_from-Since none since true kind now d s h =
    reschedule-Since (some now) now d (record s { batch_start = some now }) refl
request_from-Since none since false kind now d s h =
    inl (fire-timer d (record s { batch_start = some now }) s.dirty refl)
request_from-Since (some due) since recent kind now d s (inl idle) = cc
request_from-Since (some due) since recent kind now d s (inr e) =
    rw (sym e) (reschedule-Since s.batch_start now d s refl)

on_due-Since :
    (timer since : Option ℕ) (d : Drawing) (s : RenderScheduler)
    → Since since s
    → Since since (on_due timer d s)
on_due-Since none since d s h = h
on_due-Since (some due) since d s h = inl (fire-timer d s s.dirty refl)

step-Since :
    (e : Event) (since : Option ℕ) (s : RenderScheduler)
    → Since since s
    → SinceIn (began e s.timer since) (step e s)
unfolding step request shutdown SinceIn
step-Since (requested kind now d) since s h =
    request_from-Since s.timer since (cool now s) kind now d
      (record s { dirty = add_kind kind s.dirty }) h
step-Since (timer_due d) since s h = on_due-Since s.timer since d s h
step-Since shut_down since s h = inl refl

run-Since :
    (es : List Event) (since : Option ℕ) (s : RenderScheduler)
    → Since since s
    → SinceIn (batch_since es s since) (run es s)
unfolding run batch_since SinceIn
run-Since [] since s h = h
run-Since (e ∷ es) since s h =
    after (step e s) (step-Since e since s h) (run-Since es (began e s.timer since))
  where
    after :
        (o : Option RenderScheduler)
        → SinceIn (began e s.timer since) o
        → ((s' : RenderScheduler)
            → Since (began e s.timer since) s'
            → SinceIn (batch_since es s' (began e s.timer since)) (run es s'))
        → SinceIn
            (elim o [ none ↦ since | some s' ↦ batch_since es s' (began e s.timer since) ])
            (elim o [ none ↦ none | some s' ↦ run es s' ])
    after none now rest = tt
    after (some s') now rest = rest s' now

-- From the start, after any requests, timers and shutdowns at any times, whether the drawings succeed
-- or not: no assertion has failed, and a timer that is pending is due no later than the greatest
-- latency after the newest request that found no timer pending, however many came after it.
pub run-Timely :
    (debounce max_latency : ℕ) (events : List Event)
    → (s : RenderScheduler) × (run events (new debounce max_latency) ≡ some s)
      × IsDue (batch_since events (new debounce max_latency) none) s
unfolding SinceIn
run-Timely debounce max_latency events =
    let start = new debounce max_latency in
    let (s, runs, timely, _) = run-Settled events start (inl refl) in
    let since : Since (batch_since events start none) s =
      rw runs at (run-Since events none start (inl refl)) in
    (
      s,
      runs,
      elim timely [
        | inl idle ↦ inl idle
        | inr (due, began_at, pending, batch, le) ↦ elim since [
          | inl idle ↦ inl idle
          | inr same ↦ inr (due, began_at, pending, sym same ∙ batch, le)
        ]
      ],
    )

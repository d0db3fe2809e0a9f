-- ===== src/Render/Pending.antt =====
-- Sequences of requests, timers and shutdowns.
use uxon.Prelude.{
  ℕ, ◌+◌, ◌≤◌, ◌≡◌, ◌⊎◌, refl, ap, ◌∙◌, inl, inr, String, Bool, true, false, Option, none, some,
  List, [], ◌∷◌, arith, ◌==◌, min, ◌-◌, Bool-cases, Option-cases,
}
use uxon.Render.{
  RenderScheduler, Drawing, fire, delay, schedule, reschedule_from, reschedule, request_from,
  add_kind, cool, request, shutdown,
}

-- What happens to a scheduler: a request at a time, its timer, the end.
pub data Event : Type 0 where
  requested : String → ℕ → Drawing → Event
  timer_due : Drawing → Event
  shut_down : Event

-- a timer that was stopped does not come
abbrev pub on_due : Option ℕ → Drawing → RenderScheduler → RenderScheduler
on_due none d s = s
on_due (some due) d s = fire d s

unfoldable pub step : Event → RenderScheduler → Option RenderScheduler
unfolding request fire shutdown
step (requested kind now d) s = request kind now d s
step (timer_due d) s = some (on_due s.timer d s)
step shut_down s = some (shutdown s)

unfoldable pub run : List Event → RenderScheduler → Option RenderScheduler
unfolding step
run [] s = some s
run (e ∷ es) s = elim (step e s) [ none ↦ none | some s' ↦ run es s' ]

-- Every drawing of the events succeeds.
abbrev pub draws : Event → Bool
draws (requested kind now d) = d.rendered
draws (timer_due d) = d.rendered
draws shut_down = true

abbrev pub AllDraw : List Event → Type 0
AllDraw [] = Unit
AllDraw (e ∷ es) = (draws e ≡ true) × AllDraw es

-- The time of the newest request that found no timer pending: with it a batch begins.
abbrev pub began : Event → Option ℕ → Option ℕ → Option ℕ
began (requested kind now d) none since = some now
began (requested kind now d) (some due) since = since
began (timer_due d) timer since = since
began shut_down timer since = since

unfoldable pub batch_since : List Event → RenderScheduler → Option ℕ → Option ℕ
unfolding step
batch_since [] s since = since
batch_since (e ∷ es) s since = elim (step e s) [
  | none ↦ since
  | some s' ↦ batch_since es s' (began e s.timer since)
]

-- A timer is due within the latency of a batch that began at this time.
abbrev pub IsDue : Option ℕ → RenderScheduler → Type 0
IsDue since s =
    (s.timer ≡ none)
    ⊎ ((due : ℕ) × (start : ℕ) × (s.timer ≡ some due)
        × (since ≡ some start)
        × (due ≤ start + s.max_latency))

-- The same of the batch that the scheduler has.
abbrev pub Timely : RenderScheduler → Type 0
Timely s = IsDue s.batch_start s

-- What is dirty is waited for.
abbrev pub Awaited : RenderScheduler → Type 0
Awaited s = (s.dirty ≡ []) ⊎ ((due : ℕ) × (s.timer ≡ some due))

-- After a step the timer is timely, and a step that draws leaves nothing dirty that is not waited for.
abbrev Settled : Bool → RenderScheduler → Type 0
Settled drawn s = Timely s × ((drawn ≡ true) → Awaited s)

fire-Settled_by :
    (d : Drawing) (s : RenderScheduler) (kinds : List String)
    → s.dirty ≡ kinds
    → Settled d.rendered (fire d s)
unfolding fire
fire-Settled_by d s [] clean = rw (fire, clean) (inl refl, λ drawn. inl clean)
fire-Settled_by d s (k ∷ ks) marked = elim (Bool-cases d.rendered) [
  | inl drawn ↦ rw (fire, marked, drawn) (inl refl, λ _. inl refl)
  | inr not_drawn ↦ rw (fire, marked, not_drawn) (inl refl, λ drawn. cc)
]

fire-Settled : (d : Drawing) (s : RenderScheduler) → Settled d.rendered (fire d s)
fire-Settled d s = fire-Settled_by d s s.dirty refl

in_time :
    (now start debounce latency : ℕ)
    → (min debounce (latency + start - now) == 0) ≡ false
    → now + min debounce (latency + start - now) ≤ start + latency
in_time now start debounce latency later = grind arith

reschedule-Settled :
    (now start : ℕ) (d : Drawing) (s : RenderScheduler)
    → s.batch_start ≡ some start
    → (s' : RenderScheduler) × (reschedule now d s ≡ some s') × Settled d.rendered s'
unfolding reschedule delay
reschedule-Settled now start d s started =
    let wait = delay now start s in
    let waiting = record s { timer = some (now + wait) } in
    elim (Bool-cases (wait == 0)) [
      | inl now_due ↦
          let stopped = record s { timer = none } in
          (
            fire d stopped,
            ap (λ o. reschedule_from o now d s) started
                ∙ ap (λ b. some (schedule b now start d s)) now_due,
            fire-Settled d stopped,
          )
      | inr later ↦ (
        waiting,
        ap (λ o. reschedule_from o now d s) started
            ∙ ap (λ b. some (schedule b now start d s)) later,
        (
          inr (now + wait, start, refl, started, in_time now start s.debounce s.max_latency later),
          λ drawn. inr (now + wait, refl),
        ),
      )
    ]

request-Settled :
    (kind : String) (now : ℕ) (d : Drawing) (s : RenderScheduler)
    → Timely s
    → (s' : RenderScheduler) × (request kind now d s ≡ some s') × Settled d.rendered s'
unfolding request
request-Settled kind now d s (inl idle) =
    let marked = record s { dirty = add_kind kind s.dirty } in
    let batch = record marked { batch_start = some now } in
    elim (Bool-cases (cool now s)) [
      | inl is_cool ↦
          let (s', runs, good) = reschedule-Settled now now d batch refl in
          (
            s',
            ap (λ o. request_from o (cool now s) now d marked) idle
                ∙ ap (λ b. request_from none b now d marked) is_cool
                ∙ runs,
            good,
          )
      | inr is_not ↦ (
        fire d batch,
        ap (λ o. request_from o (cool now s) now d marked) idle
            ∙ ap (λ b. request_from none b now d marked) is_not,
        fire-Settled d batch,
      )
    ]
request-Settled kind now d s (inr (due, start, pending, started, le)) =
    let marked = record s { dirty = add_kind kind s.dirty } in
    let (s', runs, good) = reschedule-Settled now start d marked started in
    (s', ap (λ o. request_from o (cool now s) now d marked) pending ∙ runs, good)

step-Settled :
    (e : Event) (s : RenderScheduler)
    → Timely s
    → (s' : RenderScheduler) × (step e s ≡ some s')
      × Timely s'
      × (Awaited s → (draws e ≡ true) → Awaited s')
unfolding step shutdown
step-Settled (requested kind now d) s t =
    let (s', runs, good) = request-Settled kind now d s t in
    (s', runs, good.0, λ before drawn. good.1 drawn)
step-Settled (timer_due d) s t = elim (Option-cases s.timer) [
  | inl idle ↦ (s, ap (λ o. some (on_due o d s)) idle, t, λ before drawn. before)
  | inr (due, pending) ↦
      let good = fire-Settled d s in
      (fire d s, ap (λ o. some (on_due o d s)) pending, good.0, λ before drawn. good.1 drawn)
]
step-Settled shut_down s t = (shutdown s, refl, inl refl, λ before drawn. inl refl)

pub run-Settled :
    (es : List Event) (s : RenderScheduler)
    → Timely s
    → (s' : RenderScheduler) × (run es s ≡ some s')
      × Timely s'
      × (Awaited s → AllDraw es → Awaited s')
unfolding run
run-Settled [] s t = (s, refl, t, λ before drawn. before)
run-Settled (e ∷ es) s t =
    let (s1, runs, t1, waits) = step-Settled e s t in
    let (s2, rest, t2, waits2) = run-Settled es s1 t1 in
    (s2, rw (run, runs) rest, t2, λ before drawn. waits2 (waits before drawn.0) drawn.1)

-- ===== src/Render/Met.antt =====
-- What becomes of a request.
use uxon.Prelude.{
  ℕ, ◌≡◌, ◌⊎◌, refl, sym, ap, ◌∙◌, inl, inr, String, Bool, true, false, Option, none, some, List,
  [], ◌∷◌, ◌++◌, ◌==◌, ◌=s◌, any, one_of, Bool-cases, if-cases, subst,
}
use uxon.Render.{
  RenderScheduler, new, Drawing, fire, delay, schedule, reschedule_from, reschedule, request_from,
  add_kind, cool, request,
}
use uxon.Launch.Record.Reloaded.{same_text_here}
use uxon.Render.Pending.{
  Event, requested, timer_due, shut_down, on_due, step, run, AllDraw, Awaited, run-Settled,
}

-- What is dirty stays so, or is in a set that is drawn.
abbrev Kept : RenderScheduler → RenderScheduler → Type 0
Kept s s' =
    (sets : List (List String)) × (s'.drawn ≡ sets ++ s.drawn)
    × ((k : String)
        → one_of k s.dirty ≡ true
        → (one_of k s'.dirty ≡ true) ⊎ (any (one_of k) sets ≡ true))

append_assoc : {A : Type 0} (xs ys zs : List A) → (xs ++ ys) ++ zs ≡ xs ++ (ys ++ zs)
append_assoc [] ys zs = refl
append_assoc (x ∷ xs) ys zs = ap (λ l. x ∷ l) (append_assoc xs ys zs)

any-append_left :
    (p : List String → Bool) (xs ys : List (List String))
    → any p xs ≡ true
    → any p (xs ++ ys) ≡ true
any-append_left p [] ys h = cc
any-append_left p (x ∷ xs) ys h = elim (Bool-cases (p x)) [
  | inl is ↦ rw is refl
  | inr is_not ↦ rw is_not (any-append_left p xs ys (rw is_not at h))
]

any-append_right :
    (p : List String → Bool) (xs ys : List (List String))
    → any p ys ≡ true
    → any p (xs ++ ys) ≡ true
any-append_right p [] ys h = h
any-append_right p (x ∷ xs) ys h = elim (Bool-cases (p x)) [
  | inl is ↦ rw is refl
  | inr is_not ↦ rw is_not (any-append_right p xs ys h)
]

Kept-trans : (a b c : RenderScheduler) → Kept a b → Kept b c → Kept a c
Kept-trans a b c (first, e, keep) (second, e', keep') = (
  second ++ first,
  e' ∙ ap (λ l. second ++ l) e ∙ sym (append_assoc second first a.drawn),
  λ k h. elim (keep k h) [
    | inr drawn ↦ inr (any-append_right (one_of k) second first drawn)
    | inl dirty ↦ elim (keep' k dirty) [
      | inl still ↦ inl still
      | inr drawn ↦ inr (any-append_left (one_of k) second first drawn)
    ]
  ],
)

fire-Kept :
    (d : Drawing) (s : RenderScheduler) (kinds : List String) → s.dirty ≡ kinds → Kept s (fire d s)
unfolding fire
fire-Kept d s [] clean = rw (fire, clean) ([], refl, λ k h. cc)
fire-Kept d s (x ∷ xs) marked = elim (Bool-cases d.rendered) [
  | inr not_drawn ↦
      rw (fire, marked, not_drawn)
        ([], refl, λ k h. inl (subst (λ l. one_of k l ≡ true) (sym marked) h))
  | inl drawn ↦ rw (fire, marked, drawn) ((x ∷ xs) ∷ [], refl, λ k h. inr (rw h refl))
]

-- The same of an outcome that is a scheduler.
abbrev KeptIn : RenderScheduler → Option RenderScheduler → Type 0
KeptIn s none = Unit
KeptIn s (some s') = Kept s s'

schedule-Kept :
    (b : Bool) (now start : ℕ) (d : Drawing) (s : RenderScheduler)
    → Kept s (schedule b now start d s)
schedule-Kept true now start d s = fire-Kept d (record s { timer = none }) s.dirty refl
schedule-Kept false now start d s = ([], refl, λ k h. inl h)

reschedule-Kept :
    (o : Option ℕ) (now : ℕ) (d : Drawing) (s : RenderScheduler)
    → KeptIn s (reschedule_from o now d s)
reschedule-Kept none now d s = tt
reschedule-Kept (some start) now d s = schedule-Kept (delay now start s == 0) now start d s

request_from-Kept :
    (timer : Option ℕ) (recent : Bool) (now : ℕ) (d : Drawing) (s : RenderScheduler)
    → KeptIn s (request_from timer recent now d s)
unfolding reschedule
request_from-Kept (some due) recent now d s = reschedule-Kept s.batch_start now d s
request_from-Kept none true now d s =
    reschedule-Kept (some now) now d (record s { batch_start = some now })
request_from-Kept none false now d s =
    fire-Kept d (record s { batch_start = some now }) s.dirty refl

one_of-add_kind :
    (k kind : String) (kinds : List String)
    → one_of k kinds ≡ true
    → one_of k (add_kind kind kinds) ≡ true
unfolding add_kind
one_of-add_kind k kind kinds h =
    if-cases (λ l. one_of k l ≡ true) (one_of kind kinds) (λ there. h)
      (λ is_new. elim (Bool-cases (k =s kind)) [
        | inl is ↦ rw (one_of, is) refl
        | inr is_not ↦ rw (one_of, is_not) h
      ])

one_of-added : (kind : String) (kinds : List String) → one_of kind (add_kind kind kinds) ≡ true
unfolding add_kind
one_of-added kind kinds =
    if-cases (λ l. one_of kind l ≡ true) (one_of kind kinds) (λ there. there)
      (λ is_new. rw (one_of, same_text_here kind) refl)

on_due-Kept : (timer : Option ℕ) (d : Drawing) (s : RenderScheduler) → Kept s (on_due timer d s)
on_due-Kept none d s = ([], refl, λ k h. inl h)
on_due-Kept (some due) d s = fire-Kept d s s.dirty refl

marked-KeptIn :
    (s m : RenderScheduler) (o : Option RenderScheduler) → Kept s m → KeptIn m o → KeptIn s o
marked-KeptIn s m none h h' = tt
marked-KeptIn s m (some s') h h' = Kept-trans s m s' h h'

abbrev pub no_shutdown : Event → Bool
no_shutdown shut_down = false
no_shutdown other = true

abbrev pub GoesOn : List Event → Type 0
GoesOn [] = Unit
GoesOn (e ∷ es) = (no_shutdown e ≡ true) × GoesOn es

step-Kept : (e : Event) (s : RenderScheduler) → no_shutdown e ≡ true → KeptIn s (step e s)
unfolding step request
step-Kept (requested kind now d) s h =
    let marked = record s { dirty = add_kind kind s.dirty } in
    marked-KeptIn s marked (request_from s.timer (cool now s) now d marked)
      ([], refl, λ k dirty. inl (one_of-add_kind k kind s.dirty dirty))
      (request_from-Kept s.timer (cool now s) now d marked)
step-Kept (timer_due d) s h = on_due-Kept s.timer d s
step-Kept shut_down s h = cc

then_run-Kept :
    (es : List Event) (m : RenderScheduler) (o : Option RenderScheduler)
    → KeptIn m o
    → ((s : RenderScheduler) → KeptIn s (run es s))
    → KeptIn m (elim o [ none ↦ none | some s ↦ run es s ])
then_run-Kept es m none first rest = tt
then_run-Kept es m (some s) first rest = marked-KeptIn m s (run es s) first (rest s)

run-Kept : (es : List Event) (s : RenderScheduler) → GoesOn es → KeptIn s (run es s)
unfolding run
run-Kept [] s on = ([], refl, λ k h. inl h)
run-Kept (e ∷ es) s (first, on) =
    then_run-Kept es s (step e s) (step-Kept e s first) (λ s'. run-Kept es s' on)

-- A kind is in a set that was drawn behind the ones before, or it is dirty and waited for by a timer.
abbrev pub Met : String → List (List String) → RenderScheduler → Type 0
Met kind before s =
    (sets : List (List String)) × (s.drawn ≡ sets ++ before)
    × ((any (one_of kind) sets ≡ true)
        ⊎ ((one_of kind s.dirty ≡ true) × (due : ℕ) × (s.timer ≡ some due)))

Kept-Met :
    (kind : String) (s s' : RenderScheduler)
    → Awaited s'
    → one_of kind s.dirty ≡ true
    → Kept s s'
    → Met kind s.drawn s'
Kept-Met kind s s' waits marked (sets, e, keep) = (
  sets,
  e,
  elim (keep kind marked) [
    | inr drawn ↦ inl drawn
    | inl dirty ↦ elim waits [
      | inl clean ↦ let no_kind = rw clean at dirty in cc
      | inr (due, pending) ↦ inr (dirty, due, pending)
    ]
  ],
)

-- From the start, after any events, let a request come, and then any more requests and timers, and let
-- every drawing succeed. Then no assertion has failed, and the requested kind is in a set that was
-- drawn with the request or behind it, or it is still dirty and a timer is pending that waits for it.
pub run-Met :
    (debounce max_latency : ℕ) (before later : List Event) (kind : String) (now : ℕ) (d : Drawing)
    → AllDraw before
    → AllDraw (requested kind now d ∷ later)
    → GoesOn later
    → (s : RenderScheduler) × (s' : RenderScheduler) × (run before (new debounce max_latency)
        ≡ some s)
      × (run (requested kind now d ∷ later) s ≡ some s')
      × Met kind s.drawn s'
unfolding run step request
run-Met debounce max_latency before later kind now d drawn draws on =
    let (s, runs, timely, waits) = run-Settled before (new debounce max_latency) (inl refl) in
    let (s', runs', _, waits') = run-Settled (requested kind now d ∷ later) s timely in
    let marked = record s { dirty = add_kind kind s.dirty } in
    let kept : KeptIn marked (run (requested kind now d ∷ later) s) =
      then_run-Kept later marked (step (requested kind now d) s)
        (request_from-Kept s.timer (cool now s) now d marked) (λ t. run-Kept later t on) in
    let kept' : Kept marked s' = subst (KeptIn marked) runs' kept in
    (
      s,
      s',
      runs,
      runs',
      Kept-Met kind marked s' (waits' (waits (inl refl) drawn) draws) (one_of-added kind s.dirty)
          kept',
    )

-- ===== src/Fetch/Events/SingleFlight.antt =====
-- How many threads fetch from one source, after any events of src/uxon/tui/workers.py.
use uxon.Prelude.{
  ℕ, zero, suc, ◌+◌, ◌≤◌, ◌<◌, ◌≡◌, refl, Bool, true, false, not, Option, none, some, List, [], ◌∷◌,
  ◌==◌, All, arith, get_elem?, Bool-cases, inl, inr, remove_at, All-map, All-remove_at,
  All-get_elem?,
}
use mathlib.Core.List.{append-nil}
use uxon.Breaker.Float.{Floats}
use uxon.Breaker.{HostBreaker}
use uxon.Fetch.{
  Entry, Landed, Move, worker_active, worker_broken, Source, init, or_new, release, push, spawn,
  admitted, kick_idle, kick_source, current_id_is, source_landed,
}
use uxon.Fetch.Events.{
  Event, kick, set_handle, others_kicked, move_current, move_older, deliver, step, run, fetches,
  fetches_older, fetches_current, on_current, on_older, deliver_message,
}
use uxon.Fetch.Events.Threads.{inert, past, thread_step-Steps}
use uxon.Fetch.Events.Invariant.{
  Current, Inv, OnItsWay, more-Inv, moved-Inv, past-inert, release-Inv,
}

-- the attempt that is replaced joins the older ones
push-inert :
    (current : Option Entry) (older : List Entry)
    → Current inert current
    → All (λ e. inert e ≡ true) older
    → All (λ e. inert e ≡ true) (push current older)
push-inert none older c h = h
push-inert (some e) older c h = (c, h)

fresh_id : (i next : ℕ) → i ≤ next → (next + 1 == i) ≡ true → ⊥
fresh_id i next h e = ground arith

-- The current attempt's thread fetches, or may still do so.
abbrev pub busy : Option Entry → Bool
busy none = false
busy (some e) = not (inert e)

busy_not_inert : (c : Option Entry) → busy c ≡ true → Current inert c → ⊥
busy_not_inert none b i = cc
busy_not_inert (some e) b i = ground arith

module _ (fl : Floats) where
  abbrev InvOf : Source fl → Type 0
  InvOf s = Inv (or_new fl s.breaker).in_flight s.current s.older s.next_attempt_id s.queue

  spawn-Inv :
      (spawned : Bool) (gate : Bool) (current : Option Entry) (b : HostBreaker fl) (s : Source fl)
      → Current inert current
      → Inv gate current s.older s.next_attempt_id s.queue
      → InvOf (spawn fl spawned current b s)
  unfolding spawn
  spawn-Inv true gate current b s f h = record {
    older_inert = push-inert current s.older f h.older_inert;
    free = λ g. cc;
    current_guarded = refl;
    current_drawn = omega arith;
    messages =
        All-map (OnItsWay current s.next_attempt_id) _
          (λ m k. record {
            positive = k.positive;
            drawn = omega (arith, k.drawn);
            of_current = λ c. absurd (fresh_id m.attempt_id s.next_attempt_id k.drawn c);
          })
          s.queue h.messages;
  }
  spawn-Inv false gate current b s f h = record {
    older_inert = push-inert current s.older f h.older_inert;
    free = λ g. refl;
    current_guarded = refl;
    current_drawn = omega arith;
    messages =
        All-map (OnItsWay current s.next_attempt_id) _
          (λ m k. record {
            positive = k.positive;
            drawn = omega (arith, k.drawn);
            of_current = λ c. absurd (fresh_id m.attempt_id s.next_attempt_id k.drawn c);
          })
          s.queue h.messages;
  }

  admitted-gate :
      (manual : Bool) (now : fl.Num) (b : HostBreaker fl)
      → ((admitted fl manual now b).1.in_flight ≡ b.in_flight)
        × ((admitted fl manual now b).0 ≡ true → b.in_flight ≡ false)
  unfolding admitted
  admitted-gate manual now b = (ground arith, ground arith)

  kick_idle-Inv :
      (manual : Bool) (now : fl.Num) (spawned : Bool) (s : Source fl)
      → InvOf s
      → InvOf (kick_idle fl manual now spawned s)
  unfolding kick_idle
  kick_idle-Inv manual now spawned s h =
      let r = release fl (worker_broken s.handle) s.current (or_new fl s.breaker) in
      let h' = release-Inv fl (worker_broken s.handle) s.current (or_new fl s.breaker) h in
      let (same, idle) = admitted-gate manual now r.1 in
      elim (Bool-cases (admitted fl manual now r.1).0) [
        | inl go ↦ rw go (
            spawn-Inv spawned r.1.in_flight r.0 (admitted fl manual now r.1).1 s (h'.free (idle go))
              h')
        | inr stay ↦ rw stay (rw same h')
      ]

  kick-Inv :
      (manual : Bool) (now : fl.Num) (spawned : Bool) (s : Source fl)
      → InvOf s
      → InvOf (kick_source fl manual now spawned s)
  unfolding kick_source
  kick-Inv manual now spawned s h = elim (Bool-cases (worker_active s.handle)) [
    | inl busy ↦ rw busy h
    | inr idle ↦ rw idle (kick_idle-Inv manual now spawned s h)
  ]

  older-Quiet :
      (i : ℕ) (m : Move) (es : List Entry)
      → All (λ e. inert e ≡ true) es
      → All (λ e. inert e ≡ true) (on_older fl i m es).0 × ((on_older fl i m es).1 ≡ [])
  unfolding on_older
  older-Quiet i m [] h = (tt, refl)
  older-Quiet zero m (e ∷ es) h =
      let st = thread_step-Steps m e in ((st.stays_inert h.0, h.1), st.quiet h.0)
  older-Quiet (suc i) m (e ∷ es) h = let (k, q) = older-Quiet i m es h.1 in ((h.0, k), q)

  older-Inv : (i : ℕ) (m : Move) (s : Source fl) → InvOf s → InvOf (step fl (move_older i m) s)
  older-Inv i m s h =
      let (k, q) = older-Quiet i m s.older h.older_inert in
      unfold step in
      record {
        older_inert = k;
        free = h.free;
        current_guarded = h.current_guarded;
        current_drawn = h.current_drawn;
        messages = rw (q, append-nil) h.messages;
      }

  current-Inv :
      (m : Move) (c : Option Entry) (s : Source fl)
      → s.current ≡ c
      → InvOf s
      → InvOf (on_current fl m c s)
  unfolding on_current
  current-Inv m none s e h = h
  current-Inv m (some x) s e h = moved-Inv m x (rw e at h)

  -- a message of an attempt that was replaced
  source_landed-stale :
      (uniform : fl.Num → fl.Num → fl.Num) (now : fl.Num) (event : Landed) (s : Source fl)
      → 0 < event.attempt_id
      → current_id_is event.attempt_id s.current ≡ false
      → source_landed fl uniform now event s ≡ (false, s)
  unfolding source_landed
  source_landed-stale uniform now event s p c = ground arith

  landed_same :
      (uniform : fl.Num → fl.Num → fl.Num) (now : fl.Num) (event : Landed) (s : Source fl)
      → let s' = (source_landed fl uniform now event s).1 in
        (s'.current ≡ s.current)
        × (s'.older ≡ s.older)
        × (s'.next_attempt_id ≡ s.next_attempt_id)
        × (s'.queue ≡ s.queue)
  unfolding source_landed
  landed_same uniform now event s = (ground arith, ground arith, ground arith, ground arith)

  Current-past-inert : (c : Option Entry) → Current past c → Current inert c
  Current-past-inert none h = tt
  Current-past-inert (some e) h = past-inert e h

  landed-Inv :
      (uniform : fl.Num → fl.Num → fl.Num) (now : fl.Num) (event : Landed) (s : Source fl)
      → OnItsWay s.current s.next_attempt_id event
      → InvOf s
      → InvOf (source_landed fl uniform now event s).1
  landed-Inv uniform now event s k h =
      elim (Bool-cases (current_id_is event.attempt_id s.current)) [
        | inl own ↦
            let (c, o, n, q) = landed_same uniform now event s in
            rw (c, o, n, q)
              (record {
                older_inert = h.older_inert;
                free = λ f. Current-past-inert s.current (k.of_current own);
                current_guarded = h.current_guarded;
                current_drawn = h.current_drawn;
                messages = h.messages;
              })
        | inr stale ↦ rw (source_landed-stale uniform now event s k.positive stale) h
      ]

  deliver-Inv :
      (uniform : fl.Num → fl.Num → fl.Num) (now : fl.Num) (i : ℕ) (o : Option Landed)
      (s : Source fl)
      → get_elem? s.queue i ≡ o
      → InvOf s
      → InvOf (deliver_message fl uniform now o i s)
  unfolding deliver_message
  deliver-Inv uniform now i none s e h = h
  deliver-Inv uniform now i (some event) s e h =
      landed-Inv uniform now event (record s { queue = remove_at i s.queue })
        (All-get_elem? (OnItsWay s.current s.next_attempt_id) i s.queue event h.messages e)
        (record {
          older_inert = h.older_inert;
          free = h.free;
          current_guarded = h.current_guarded;
          current_drawn = h.current_drawn;
          messages = All-remove_at (OnItsWay s.current s.next_attempt_id) i s.queue h.messages;
        })

  step-Inv : (event : Event fl) (s : Source fl) → InvOf s → InvOf (step fl event s)
  step-Inv (kick manual now spawned) s h = unfold step in kick-Inv manual now spawned s h
  step-Inv (set_handle state) s h =
      unfold step in
      record {
        older_inert = h.older_inert;
        free = h.free;
        current_guarded = h.current_guarded;
        current_drawn = h.current_drawn;
        messages = h.messages;
      }
  step-Inv (others_kicked n) s h = unfold step in more-Inv n s.current h
  step-Inv (move_current m) s h = unfold step in current-Inv m s.current s refl h
  step-Inv (move_older i m) s h = older-Inv i m s h
  step-Inv (deliver i uniform now) s h =
      unfold step in deliver-Inv uniform now i (get_elem? s.queue i) s refl h

  run-Inv : (events : List (Event fl)) (s : Source fl) → InvOf s → InvOf (run fl events s)
  unfolding run
  run-Inv [] s h = h
  run-Inv (event ∷ events) s h = run-Inv events (step fl event s) (step-Inv event s h)

  init-Inv : InvOf (init fl)
  init-Inv = record {
    older_inert = tt;
    free = λ h. tt;
    current_guarded = tt;
    current_drawn = tt;
    messages = tt;
  }

  fetches_older-zero : (es : List Entry) → All (λ e. inert e ≡ true) es → fetches_older fl es ≡ 0
  fetches_older-zero [] h = refl
  fetches_older-zero (e ∷ es) h = ground (arith, fetches_older-zero es h.1)

  fetches_current-le : (c : Option Entry) → fetches_current fl c ≤ 1
  fetches_current-le none = omega arith
  fetches_current-le (some e) = ground arith

  -- From the start, after any events in any order, at most one thread is in a fetch from the source,
  -- although a cancelled worker's thread goes on.
  pub single_flight : (events : List (Event fl)) → fetches fl (run fl events (init fl)) ≤ 1
  single_flight events =
      let s = run fl events (init fl) in
      let h = run-Inv events (init fl) init-Inv in
      omega (arith, fetches_older-zero s.older h.older_inert, fetches_current-le s.current)

  -- From the start, after any events in any order: while the thread of the current attempt is in its
  -- fetch, or may still enter it, the breaker's gate is closed.
  pub reserved_while_live :
      (events : List (Event fl))
      → busy (run fl events (init fl)).current ≡ true
      → (or_new fl (run fl events (init fl)).breaker).in_flight ≡ true
  reserved_while_live events b =
      let s = run fl events (init fl) in
      let h = run-Inv events (init fl) init-Inv in
      elim (Bool-cases (or_new fl s.breaker).in_flight) [
        | inl reserved ↦ reserved
        | inr free ↦ absurd (busy_not_inert s.current b (h.free free))
      ]
